-- ===== src/Ratelimit/Calls.antt =====
-- The calls of apps/authd/ratelimit.c against the count of each address's connections.
use mldsa_auth.Base.{
  Bool, Bool-cases, List, ap, arith, false, if_elim, if◌then◌else◌, inl, inr, leb, ltb, refl, set,
  true, ℕ, ◌%◌, ◌*◌, ◌+◌, ◌-◌, ◌<◌, ◌^◌, ◌∙◌, ◌≡◌, ◌≢◌, ◌≤◌, ◌⊎◌,
}
use mldsa_auth.Base.Bytes.{bytes_eq, eq_of_bytes_eq}
use mldsa_auth.Ratelimit.{
  Ratelimit, RatelimitEntry, Verdict, allow, bucket_of, cap_milli, deny_addr, deny_conns,
  deny_global, deny_no_addr, deny_table, entry_at, put_entry, refill, refill_addr, refill_global,
}
use mldsa_auth.Ratelimit.Gate.{admit_entry}
use mldsa_auth.Ratelimit.Limiter.{IsLimiter, refill_le, write-IsLimiter, write_conns}
use mldsa_auth.Ratelimit.Place.{Within, conns_at, key_conns}
use mldsa_auth.Ratelimit.Probe.{Holds}
use mldsa_auth.Ratelimit.Table.{find_key, find_key-Holds}

-- What a verdict does to the count of the address that asked.
abbrev pub counted : Verdict → ℕ → ℕ
counted allow n = n + 1
counted deny_conns n = n
counted deny_addr n = n
counted deny_global n = n
counted deny_table n = n
counted deny_no_addr n = n

pub if_same : (b : Bool) (n : ℕ) → n ≡ (if b then n else n)
if_same true n = refl
if_same false n = refl

pub refill_addr-Within :
    (r : Ratelimit) (e : RatelimitEntry) (now_ms : ℕ)
    → Within (cap_milli r) r.max_conns e
    → Within (cap_milli r) r.max_conns (refill_addr r e now_ms)
unfolding refill_addr
refill_addr-Within r e now_ms (t, c) =
    (refill_le e.tokens_milli e.last_ms now_ms r.per_min 60 (cap_milli r) t, c)

pub refill_addr_keeps :
    (r : Ratelimit) (e : RatelimitEntry) (now_ms : ℕ)
    → ((refill_addr r e now_ms).key ≡ e.key)
      × ((refill_addr r e now_ms).key_len ≡ e.key_len)
      × ((refill_addr r e now_ms).conns ≡ e.conns)
unfolding refill_addr
refill_addr_keeps r e now_ms = (refl, refl, refl)

module _ (shorthash : List ℕ → List ℕ → List ℕ) where
  -- What an admission of `key` has done: it counts one connection more for `key` if it said ALLOW,
  -- and none otherwise, whatever it said.
  pub record Admits (r : Ratelimit) (key : List ℕ) (res : Verdict × Ratelimit) : Type 0 where
    pub conns :
        (k : List ℕ)
        → key_conns shorthash res.1 k ≡ (
            if bytes_eq k key
            then counted res.0 (key_conns shorthash r k)
            else key_conns shorthash r k)
    pub limiter : IsLimiter shorthash res.1
    pub allowed : (res.0 ≢ allow) ⊎ (key_conns shorthash r key < r.max_conns)
    pub share : res.1.max_conns ≡ r.max_conns

  globally :
      (r : Ratelimit)
      → IsLimiter shorthash r
      → (now_ms : ℕ)
      → (refill r.global_tokens_milli r.global_last_ms now_ms r.global_per_sec 1
          (r.global_per_sec * 1000)).0
        ≤ r.global_per_sec * 1000
  globally r lim now_ms =
      refill_le r.global_tokens_milli r.global_last_ms now_ms r.global_per_sec 1
        (r.global_per_sec * 1000) lim.global

  -- A write to the entry of `key` that makes its count `f` of what it was.
  pub write_counts :
      (r : Ratelimit) (key : List ℕ) (at : ℕ) (v : RatelimitEntry) (f : ℕ → ℕ)
      → IsLimiter shorthash r
      → Holds r.e key at
      → v.key ≡ (entry_at r.e at).key
      → v.key_len ≡ (entry_at r.e at).key_len
      → v.conns ≡ f (entry_at r.e at).conns
      → (k : List ℕ)
      → conns_at (set r.e at v) (find_key (bucket_of shorthash r) (set r.e at v) k)
        ≡ (if bytes_eq k key then f (key_conns shorthash r k) else key_conns shorthash r k)
  write_counts r key at v f lim h kk n c k =
      let b = bucket_of shorthash r in
      let here = write_conns shorthash r r.e key at v lim.table h kk n k in
      elim (Bool-cases (bytes_eq k key)) [
        | inl q ↦
            let own : key_conns shorthash r k ≡ (entry_at r.e at).conns =
              ap (λ x. conns_at r.e (find_key b r.e x)) (eq_of_bytes_eq k key q)
              ∙ ap (conns_at r.e) (find_key-Holds b r.e key at lim.table h) in
            rw (q, own) (rw q at here ∙ c)
        | inr q ↦ rw q (rw q at here)
      ]

  pub admit_entry-Admits :
      (r : Ratelimit) (key : List ℕ) (at now_ms : ℕ)
      → IsLimiter shorthash r
      → Holds r.e key at
      → Admits r key (admit_entry r at now_ms)
  unfolding admit_entry refill_global
  admit_entry-Admits r key at now_ms lim h =
      let b = bucket_of shorthash r in
      let e = entry_at r.e at in
      let e' = refill_addr r e now_ms in
      let keeps = refill_addr_keeps r e now_ms in
      let own : key_conns shorthash r key ≡ e.conns =
        ap (conns_at r.e) (find_key-Holds b r.e key at lim.table h) in
      let ok' = refill_addr-Within r e now_ms (lim.within at) in
      let refilled =
        write-IsLimiter shorthash r r.e at e' lim.table lim.within h.0 keeps.0 keeps.1 ok' in
      if_elim (Admits r key) (leb r.max_conns e.conns)
        (λ full. record {
          conns = λ k. if_same (bytes_eq k key) (key_conns shorthash r k);
          limiter = record {
            table = lim.table;
            within = lim.within;
            global = lim.global;
            small = lim.small;
          };
          allowed = inl (λ a. absurd (cc));
          share = refl;
        })
        (λ free.
          if_elim (Admits r key) (ltb e'.tokens_milli 1000)
            (λ poor. record {
              conns = write_counts r key at e' (λ n. n) lim h keeps.0 keeps.1 keeps.2;
              limiter = record {
                table = refilled.0;
                within = refilled.1;
                global = lim.global;
                small = lim.small;
              };
              allowed = inl (λ a. absurd (cc));
              share = refl;
            })
            (λ rich.
              if_elim (Admits r key)
                (ltb (refill_global (put_entry r at e') now_ms).global_tokens_milli 1000)
                (λ dry. record {
                  conns = write_counts r key at e' (λ n. n) lim h keeps.0 keeps.1 keeps.2;
                  limiter = record {
                    table = refilled.0;
                    within = refilled.1;
                    global = globally r lim now_ms;
                    small = lim.small;
                  };
                  allowed = inl (λ a. absurd (cc));
                  share = refl;
                })
                (λ flows.
                  let v : RatelimitEntry = record e' {
                    tokens_milli = e'.tokens_milli - 1000;
                    conns = (e.conns + 1) % 2 ^ 32;
                  } in
                  let below : e.conns < r.max_conns = ground (arith, free) in
                  let one_more : (e.conns + 1) % 2 ^ 32 ≡ e.conns + 1 =
                    omega (arith, below, lim.small) in
                  let written =
                    write-IsLimiter shorthash r r.e at v lim.table lim.within h.0 keeps.0 keeps.1
                      (omega (arith, ok'), omega (arith, one_more, below)) in
                  record {
                    conns = write_counts r key at v (λ n. n + 1) lim h keeps.0 keeps.1 one_more;
                    limiter = record {
                      table = written.0;
                      within = written.1;
                      global = omega (arith, globally r lim now_ms);
                      small = lim.small;
                    };
                    allowed = inr (rw own below);
                    share = refl;
                  })))
