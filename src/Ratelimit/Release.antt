-- ===== src/Ratelimit/Release.antt =====
-- `ratelimit_release` and `ratelimit_refund` of apps/authd/ratelimit.c: what they do to the counts.
use mldsa_auth.Base.{
  Bool-cases, List, Option-cases, ap, arith, if_elim, if◌then◌else◌, inl, inr, length, ltb, refl,
  some, sym, true, ℕ, ◌%◌, ◌+◌, ◌-◌, ◌==◌, ◌^◌, ◌∙◌, ◌≡◌, ◌≤◌,
}
use mldsa_auth.Base.Bytes.{bytes_eq, eq_of_bytes_eq}
use mldsa_auth.ProxyV2.{AuthdAddr, authd_addr_key}
use mldsa_auth.Ratelimit.{
  Ratelimit, RatelimitEntry, bucket_of, cap_milli, entry_at, find_idx, put_entry, refill_addr,
  same_key,
}
use mldsa_auth.Ratelimit.Calls.{refill_addr-Within, refill_addr_keeps, write_counts}
use mldsa_auth.Ratelimit.Gate.{ratelimit_refund, ratelimit_release}
use mldsa_auth.Ratelimit.Limiter.{IsLimiter, write-IsLimiter}
use mldsa_auth.Ratelimit.Place.{conns_at, key_conns}
use mldsa_auth.Ratelimit.Probe.{Holds}
use mldsa_auth.Ratelimit.Table.{find_key, Holds-of_find_key}

empty_key :
    (es : List RatelimitEntry) (key : List ℕ) (i : ℕ)
    → (length key == 0) ≡ true
    → Holds es key i
    → ⊥
unfolding same_key
empty_key es key i z (l, u, s) = absurd (ground (arith, z, u, s))

module _ (shorthash : List ℕ → List ℕ → List ℕ) where
  -- What `f` does to the count of `key`, and to no other.
  pub record Counts (r : Ratelimit) (key : List ℕ) (f : ℕ → ℕ) (r' : Ratelimit) : Type 0 where
    pub conns :
        (k : List ℕ)
        → key_conns shorthash r' k
          ≡ (if bytes_eq k key then f (key_conns shorthash r k) else key_conns shorthash r k)
    pub limiter : IsLimiter shorthash r'
    pub share : r'.max_conns ≡ r.max_conns

  -- A call on an address that is not in the table.
  not_in_table :
      (r : Ratelimit) (key : List ℕ) (f : ℕ → ℕ)
      → IsLimiter shorthash r
      → f 0 ≡ 0
      → key_conns shorthash r key ≡ 0
      → Counts r key f r
  not_in_table r key f lim z none_there = record {
    conns = λ k. elim (Bool-cases (bytes_eq k key)) [
      | inl q ↦
          let own : key_conns shorthash r k ≡ 0 =
            ap (key_conns shorthash r) (eq_of_bytes_eq k key q) ∙ none_there in
          rw (q, own) (sym z)
      | inr q ↦ rw q refl
    ];
    limiter = lim;
    share = refl;
  }

  pub no_key :
      (r : Ratelimit) (key : List ℕ) → (length key == 0) ≡ true → key_conns shorthash r key ≡ 0
  no_key r key z = elim (Option-cases (find_key (bucket_of shorthash r) r.e key)) [
    | inl e ↦ rw e refl
    | inr (i, e) ↦
        let h = Holds-of_find_key (bucket_of shorthash r) r.e key i e in
        absurd (empty_key r.e key i z h)
  ]

  release_entry :
      (r : Ratelimit) (key : List ℕ) (at : ℕ)
      → IsLimiter shorthash r
      → find_key (bucket_of shorthash r) r.e key ≡ some at
      → Counts r key
          (λ n. n - 1)
          (if ltb 0 (entry_at r.e at).conns
            then put_entry r at (record (entry_at r.e at) { conns = (entry_at r.e at).conns - 1 })
            else r)
  release_entry r key at lim g =
      let h = Holds-of_find_key (bucket_of shorthash r) r.e key at g in
      let e = entry_at r.e at in
      let w = lim.within at in
      let v : RatelimitEntry = record e { conns = e.conns - 1 } in
      if_elim (Counts r key (λ n. n - 1)) (ltb 0 e.conns)
        (λ q.
          let written =
            write-IsLimiter shorthash r r.e at v lim.table lim.within h.0 refl refl
              (w.0, omega (arith, w.1)) in
          record {
            conns = write_counts shorthash r key at v (λ n. n - 1) lim h refl refl refl;
            limiter = record {
              table = written.0;
              within = written.1;
              global = lim.global;
              small = lim.small;
            };
            share = refl;
          })
        (λ q.
          not_in_table r key (λ n. n - 1) lim (omega arith)
            (ap (conns_at r.e) g ∙ ground (arith, q)))

  pub release-Counts :
      (r : Ratelimit) (addr : AuthdAddr)
      → IsLimiter shorthash r
      → Counts r (authd_addr_key addr) (λ n. n - 1) (ratelimit_release shorthash r addr)
  unfolding ratelimit_release find_idx
  release-Counts r addr lim =
      let key = authd_addr_key addr in
      let b = bucket_of shorthash r in
      elim (Bool-cases (length key == 0)) [
        | inl z ↦ rw z (not_in_table r key (λ n. n - 1) lim (omega arith) (no_key r key z))
        | inr z ↦ elim (Option-cases (find_key b r.e key)) [
          | inl g ↦
              rw (ratelimit_release, find_idx, z, g)
                (not_in_table r key (λ n. n - 1) lim (omega arith) (ap (conns_at r.e) g))
          | inr (at, g) ↦ rw (ratelimit_release, find_idx, z, g) (release_entry r key at lim g)
        ]
      ]

  refund_entry :
      (r : Ratelimit) (key : List ℕ) (at now_ms tokens : ℕ)
      → IsLimiter shorthash r
      → find_key (bucket_of shorthash r) r.e key ≡ some at
      → tokens ≤ cap_milli r
      → Counts r key
          (λ n. n)
          (record (put_entry r at
            (record (refill_addr r (entry_at r.e at) now_ms) { tokens_milli = tokens })) {
              refunded = (r.refunded + 1) % 2 ^ 64;
            })
  refund_entry r key at now_ms tokens lim g l =
      let h = Holds-of_find_key (bucket_of shorthash r) r.e key at g in
      let e' = refill_addr r (entry_at r.e at) now_ms in
      let keeps = refill_addr_keeps r (entry_at r.e at) now_ms in
      let ok' = refill_addr-Within r (entry_at r.e at) now_ms (lim.within at) in
      let v : RatelimitEntry = record e' { tokens_milli = tokens } in
      let written =
        write-IsLimiter shorthash r r.e at v lim.table lim.within h.0 keeps.0 keeps.1 (l, ok'.1) in
      record {
        conns = write_counts shorthash r key at v (λ n. n) lim h keeps.0 keeps.1 keeps.2;
        limiter = record {
          table = written.0;
          within = written.1;
          global = lim.global;
          small = lim.small;
        };
        share = refl;
      }

  capped : (cap n : ℕ) → (if ltb cap n then cap else n) ≤ cap
  capped cap n = ground arith

  pub refund-Counts :
      (r : Ratelimit) (addr : AuthdAddr) (now_ms : ℕ)
      → IsLimiter shorthash r
      → Counts r (authd_addr_key addr) (λ n. n) (ratelimit_refund shorthash r addr now_ms)
  unfolding ratelimit_refund find_idx
  refund-Counts r addr now_ms lim =
      let key = authd_addr_key addr in
      let b = bucket_of shorthash r in
      elim (Bool-cases (length key == 0)) [
        | inl z ↦ rw z (not_in_table r key (λ n. n) lim refl (no_key r key z))
        | inr z ↦ elim (Option-cases (find_key b r.e key)) [
          | inl g ↦
              rw (ratelimit_refund, find_idx, z, g)
                (not_in_table r key (λ n. n) lim refl (ap (conns_at r.e) g))
          | inr (at, g) ↦
              rw (ratelimit_refund, find_idx, z, g)
                (refund_entry r key at now_ms _ lim g (capped (cap_milli r) _))
        ]
      ]
