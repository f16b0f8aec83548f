-- ===== src/Ratelimit/Runs.antt =====
-- Sequences of calls of apps/authd/ratelimit.c, and the count of each address's connections over them.
use mldsa_auth.Base.{
  Bool-cases, List, Option, Option-cases, [], ap, arith, if◌then◌else◌, inl, inr, length, none,
  refl, some, subst, sym, ℕ, ◌%◌, ◌+◌, ◌-◌, ◌==◌, ◌^◌, ◌∙◌, ◌∷◌, ◌≡◌, ◌≤◌,
}
use mldsa_auth.Base.Bytes.{bytes_eq}
use mldsa_auth.ProxyV2.{AuthdAddr, authd_addr_key}
use mldsa_auth.Ratelimit.{
  Ratelimit, Verdict, bucket_of, clamp_u32, deny_table, find_idx, ratelimit_init,
  ratelimit_max_conns_max,
}
use mldsa_auth.Ratelimit.Calls.{Admits, admit_entry-Admits, counted, if_same}
use mldsa_auth.Ratelimit.Gate.{
  admit_entry, ratelimit_admit, ratelimit_conns, ratelimit_refund, ratelimit_release,
}
use mldsa_auth.Ratelimit.Limiter.{IsLimiter, init_conns, ratelimit_init-IsLimiter}
use mldsa_auth.Ratelimit.Place.{Placed, find_or_add-Placed, key_conns, no_place, placed}
use mldsa_auth.Ratelimit.Release.{no_key, refund-Counts, release-Counts}
use mldsa_auth.Ratelimit.Table.{find_key}

-- A call of the limiter.
pub data LimiterCall : Type 0 where
  admits : AuthdAddr → ℕ → LimiterCall
  releases : AuthdAddr → LimiterCall
  refunds : AuthdAddr → ℕ → LimiterCall

-- What a call that answered `o` does to the count of `key`.
abbrev pub count_call : LimiterCall → Option Verdict → List ℕ → ℕ → ℕ
count_call (admits addr now_ms) none key n = n
count_call (admits addr now_ms) (some v) key n =
    if bytes_eq key (authd_addr_key addr) then counted v n else n
count_call (releases addr) o key n = if bytes_eq key (authd_addr_key addr) then n - 1 else n
count_call (refunds addr now_ms) o key n = if bytes_eq key (authd_addr_key addr) then n else n

module _ (shorthash : List ℕ → List ℕ → List ℕ) where
  Placed-Admits :
      (r : Ratelimit) (key : List ℕ) (now_ms : ℕ) (p : Option ℕ × Ratelimit)
      → IsLimiter shorthash r
      → Placed shorthash r key now_ms p
      → Admits shorthash r key (elim p.0 [
        | none ↦ (deny_table, record p.1 { denied_table = (p.1.denied_table + 1) % 2 ^ 64 })
        | some at ↦ admit_entry p.1 at now_ms
      ])
  Placed-Admits r key now_ms p lim (no_place gone all) = record {
    conns = λ k. if_same (bytes_eq k key) (key_conns shorthash r k);
    limiter = record {
      table = lim.table;
      within = lim.within;
      global = lim.global;
      small = lim.small;
    };
    allowed = inl (λ a. absurd (cc));
    share = refl;
  }
  Placed-Admits r key now_ms p lim (placed i es t h w same) =
      let r' : Ratelimit = record r { e = es } in
      let lim' : IsLimiter shorthash r' = record {
        table = t;
        within = w;
        global = lim.global;
        small = lim.small;
      } in
      let a = admit_entry-Admits shorthash r' key i now_ms lim' h in
      record {
        conns = λ k. rw (← same k) (a.conns k);
        limiter = a.limiter;
        allowed = rw (← same key) a.allowed;
        share = a.share;
      }

  -- `ratelimit_admit` keeps the invariant, and counts one connection more for its address if it said ALLOW,
  -- which it says only below the share of an address; it changes no other count.
  pub admit-Admits :
      (r : Ratelimit) (addr : AuthdAddr) (now_ms : ℕ)
      → IsLimiter shorthash r
      → Admits shorthash r (authd_addr_key addr) (ratelimit_admit shorthash r addr now_ms)
  unfolding ratelimit_admit
  admit-Admits r addr now_ms lim =
      let key = authd_addr_key addr in
      elim (Bool-cases (length key == 0)) [
        | inl z ↦ rw z (record {
          conns = λ k. if_same (bytes_eq k key) (key_conns shorthash r k);
          limiter = lim;
          allowed = inl (λ a. absurd (cc));
          share = refl;
        })
        | inr z ↦ rw z (
            Placed-Admits r key now_ms _ lim
              (find_or_add-Placed shorthash r key now_ms lim.table lim.within z))
      ]

  -- `ratelimit_conns` is the count of the address's key.
  pub conns_key :
      (r : Ratelimit) (addr : AuthdAddr)
      → ratelimit_conns shorthash r addr ≡ key_conns shorthash r (authd_addr_key addr)
  unfolding ratelimit_conns find_idx
  conns_key r addr =
      let key = authd_addr_key addr in
      elim (Bool-cases (length key == 0)) [
        | inl z ↦ rw z (sym (no_key shorthash r key z))
        | inr z ↦ elim (Option-cases (find_key (bucket_of shorthash r) r.e key)) [
          | inl g ↦ rw (ratelimit_conns, find_idx, z, g) refl
          | inr (at, g) ↦ rw (ratelimit_conns, find_idx, z, g) refl
        ]
      ]

  -- A call, and the limiter after it; an admission has a verdict.
  limiter_apply : Ratelimit → LimiterCall → Option Verdict × Ratelimit
  limiter_apply r (admits addr now_ms) =
      let (v, r') = ratelimit_admit shorthash r addr now_ms in (some v, r')
  limiter_apply r (releases addr) = (none, ratelimit_release shorthash r addr)
  limiter_apply r (refunds addr now_ms) = (none, ratelimit_refund shorthash r addr now_ms)

  pub limiter_run : Ratelimit → List LimiterCall → Ratelimit
  limiter_run r [] = r
  limiter_run r (c ∷ cs) = limiter_run (limiter_apply r c).1 cs

  -- The count of `key` that the verdicts of a run give, from `n` on.
  pub limiter_count : Ratelimit → List LimiterCall → List ℕ → ℕ → ℕ
  limiter_count r [] key n = n
  limiter_count r (c ∷ cs) key n =
      limiter_count (limiter_apply r c).1 cs key (count_call c (limiter_apply r c).0 key n)

  apply_counts :
      (r : Ratelimit) (c : LimiterCall) (k : List ℕ)
      → IsLimiter shorthash r
      → (key_conns shorthash (limiter_apply r c).1 k
          ≡ count_call c (limiter_apply r c).0 k (key_conns shorthash r k))
        × IsLimiter shorthash (limiter_apply r c).1
        × ((limiter_apply r c).1.max_conns ≡ r.max_conns)
  unfolding limiter_apply
  apply_counts r (admits addr now_ms) k lim =
      let a = admit-Admits r addr now_ms lim in (a.conns k, a.limiter, a.share)
  apply_counts r (releases addr) k lim =
      let a = release-Counts shorthash r addr lim in (a.conns k, a.limiter, a.share)
  apply_counts r (refunds addr now_ms) k lim =
      let a = refund-Counts shorthash r addr now_ms lim in (a.conns k, a.limiter, a.share)

  run_counts :
      (r : Ratelimit) (cs : List LimiterCall) (k : List ℕ)
      → IsLimiter shorthash r
      → (key_conns shorthash (limiter_run r cs) k ≡ limiter_count r cs k (key_conns shorthash r k))
        × IsLimiter shorthash (limiter_run r cs)
        × ((limiter_run r cs).max_conns ≡ r.max_conns)
  unfolding limiter_run limiter_count
  run_counts r [] k lim = (refl, lim, refl)
  run_counts r (c ∷ cs) k lim =
      let (n, next, m) = apply_counts r c k lim in
      let (n', last, m') = run_counts (limiter_apply r c).1 cs k next in
      (n' ∙ ap (limiter_count (limiter_apply r c).1 cs k) n, last, m' ∙ m)

  share_kept :
      (r : Ratelimit) (k : List ℕ) → IsLimiter shorthash r → key_conns shorthash r k ≤ r.max_conns
  share_kept r k lim = elim (Option-cases (find_key (bucket_of shorthash r) r.e k)) [
    | inl e ↦ rw e (omega arith)
    | inr (i, e) ↦ rw e (lim.within i).1
  ]

  -- Over any sequence of calls on a limiter from `ratelimit_init`, the connections of an address are those
  -- that the verdicts and releases add up to, each ALLOW of its key one more and each release one
  -- less, and never more than the share of an address; no other address's calls change them.
  pub limiter_counts :
      (hash_key : List ℕ) (per_min burst global_per_sec max_conns now_ms : ℕ)
      (cs : List LimiterCall) (addr : AuthdAddr)
      → let r = ratelimit_init hash_key per_min burst global_per_sec max_conns now_ms in
        (ratelimit_conns shorthash (limiter_run r cs) addr
          ≡ limiter_count r cs (authd_addr_key addr) 0)
        × (ratelimit_conns shorthash (limiter_run r cs) addr
            ≤ clamp_u32 max_conns 1 ratelimit_max_conns_max)
  unfolding ratelimit_init
  limiter_counts hash_key per_min burst global_per_sec max_conns now_ms cs addr =
      let r = ratelimit_init hash_key per_min burst global_per_sec max_conns now_ms in
      let k = authd_addr_key addr in
      let lim =
        ratelimit_init-IsLimiter shorthash hash_key per_min burst global_per_sec max_conns now_ms in
      let (n, last, m) = run_counts r cs k lim in
      let start : key_conns shorthash r k ≡ 0 =
        init_conns shorthash hash_key per_min burst global_per_sec max_conns now_ms k in
      rw (conns_key (limiter_run r cs) addr) (
        n ∙ ap (limiter_count r cs k) start,
        subst (λ n. key_conns shorthash (limiter_run r cs) k ≤ n) m
            (share_kept (limiter_run r cs) k last),
      )
