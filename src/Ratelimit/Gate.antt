-- ===== src/Ratelimit/Gate.antt =====
-- The calls of apps/authd/ratelimit.c: admission, release, refund, and what can be read.
use mldsa_auth.Base.{
  List, if◌then◌else◌, leb, length, ltb, none, set, some, ℕ, ◌%◌, ◌+◌, ◌-◌, ◌==◌, ◌^◌,
}
use mldsa_auth.ProxyV2.{AuthdAddr, authd_addr_key}
use mldsa_auth.Ratelimit.{
  Ratelimit, Verdict, allow, cap_milli, deny_addr, deny_conns, deny_global, deny_no_addr,
  deny_table, entry_at, find_idx, find_or_add, put_entry, refill_addr, refill_global,
}

-- After the entry under `at` is there: the three tests, and the commit.
unfoldable pub admit_entry : Ratelimit → ℕ → ℕ → Verdict × Ratelimit
admit_entry r at now_ms =
    let e = entry_at r.e at in
    let e' = refill_addr r e now_ms in
    let r' = put_entry r at e' in
    let g = refill_global r' now_ms in
    if leb r.max_conns e.conns
    then (deny_conns, record r { denied_conns = (r.denied_conns + 1) % 2 ^ 64 })
    else if ltb e'.tokens_milli 1000
    then (deny_addr, record r' { denied_addr = (r.denied_addr + 1) % 2 ^ 64 })
    else if ltb g.global_tokens_milli 1000
    then (deny_global, record g { denied_global = (r.denied_global + 1) % 2 ^ 64 })
    else (
      allow,
      record g {
        e =
            set r.e at
              (record e' { tokens_milli = e'.tokens_milli - 1000; conns = (e.conns + 1) % 2 ^ 32 });
        global_tokens_milli = g.global_tokens_milli - 1000;
        admitted = (r.admitted + 1) % 2 ^ 64;
      },
    )

unfoldable pub ratelimit_admit :
    (List ℕ → List ℕ → List ℕ) → Ratelimit → AuthdAddr → ℕ → Verdict × Ratelimit
ratelimit_admit shorthash r addr now_ms =
    let key = authd_addr_key addr in
    if length key == 0
    then (deny_no_addr, r)
    else (let (found, r') = find_or_add shorthash r key now_ms in
        elim found [
          | none ↦ (deny_table, record r' { denied_table = (r'.denied_table + 1) % 2 ^ 64 })
          | some at ↦ admit_entry r' at now_ms
        ])

unfoldable pub ratelimit_release : (List ℕ → List ℕ → List ℕ) → Ratelimit → AuthdAddr → Ratelimit
ratelimit_release shorthash r addr =
    let key = authd_addr_key addr in
    if length key == 0 then r else elim (find_idx shorthash r key) [
      | none ↦ r
      | some at ↦
          let e = entry_at r.e at in
          if ltb 0 e.conns then put_entry r at (record e { conns = e.conns - 1 }) else r
    ]

unfoldable pub ratelimit_refund : (List ℕ → List ℕ → List ℕ) → Ratelimit → AuthdAddr → ℕ → Ratelimit
ratelimit_refund shorthash r addr now_ms =
    let key = authd_addr_key addr in
    if length key == 0 then r else elim (find_idx shorthash r key) [
      | none ↦ r
      | some at ↦
          let e = refill_addr r (entry_at r.e at) now_ms in
          let tokens =
            if ltb (cap_milli r) ((e.tokens_milli + 1000) % 2 ^ 64)
            then cap_milli r
            else (e.tokens_milli + 1000) % 2 ^ 64 in
          record (put_entry r at (record e { tokens_milli = tokens })) {
            refunded = (r.refunded + 1) % 2 ^ 64;
          }
    ]

unfoldable pub ratelimit_tokens_milli : (List ℕ → List ℕ → List ℕ) → Ratelimit → AuthdAddr → ℕ
ratelimit_tokens_milli shorthash r addr =
    let key = authd_addr_key addr in
    if length key == 0
    then 0
    else elim (find_idx shorthash r key) [ none ↦ 0 | some at ↦ (entry_at r.e at).tokens_milli ]

unfoldable pub ratelimit_conns : (List ℕ → List ℕ → List ℕ) → Ratelimit → AuthdAddr → ℕ
ratelimit_conns shorthash r addr =
    let key = authd_addr_key addr in
    if length key == 0
    then 0
    else elim (find_idx shorthash r key) [ none ↦ 0 | some at ↦ (entry_at r.e at).conns ]
