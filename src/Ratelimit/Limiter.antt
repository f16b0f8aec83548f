-- ===== src/Ratelimit/Limiter.antt =====
-- The invariant of the limiter of apps/authd/ratelimit.c, and what each call does to the connections
-- that it counts.
use mldsa_auth.Base.{
  Bool-cases, List, Option-cases, ap, arith, false, if_elim, if◌then◌else◌, inl, inr, leb, length,
  length-replicate, ltb, refl, replicate, set, some, suc, sym, zero, ℕ, ◌%◌, ◌*◌, ◌+◌, ◌-◌, ◌/◌,
  ◌<◌, ◌==◌, ◌^◌, ◌∙◌, ◌≡◌, ◌≢◌, ◌≤◌,
}
use mldsa_auth.Base.Bytes.{bytes_apart, bytes_eq, eq_of_bytes_eq}
use mldsa_auth.Ratelimit.{
  Ratelimit, RatelimitEntry, bucket_of, cap_milli, entry_at, ratelimit_entries, ratelimit_init,
  ratelimit_max_conns_max, refill, zero_ratelimit_entry,
}
use mldsa_auth.Ratelimit.Insert.{one_key}
use mldsa_auth.Ratelimit.Place.{AllWithin, Within, conns_at, conns_at-set_ne, set-AllWithin}
use mldsa_auth.Ratelimit.Probe.{Holds}
use mldsa_auth.Ratelimit.Table.{IsTable, find_key, find_key-Holds, Holds-of_find_key}
use mldsa_auth.Ratelimit.Writes.{
  entry_at-set_self, SameKeys-IsTable, SameKeys-find_key, set-SameKeys,
}

pub refill_le :
    (tokens last now num den cap : ℕ) → tokens ≤ cap → (refill tokens last now num den cap).0 ≤ cap
unfolding refill
refill_le tokens last now num den cap h =
    let add = (now - last) * num % 2 ^ 64 / den in
    if_elim (λ (r : ℕ × ℕ). r.0 ≤ cap) (leb now last) (λ e. h)
      (λ e.
        if_elim (λ (r : ℕ × ℕ). r.0 ≤ cap) (add == 0) (λ f. h)
          (λ f.
            if_elim (λ (n : ℕ). n ≤ cap) (ltb cap ((tokens + add) % 2 ^ 64)) (λ g. omega arith)
              (λ g. ground (arith, g))))

module _ (shorthash : List ℕ → List ℕ → List ℕ) where
  -- No bucket holds more than its cap, no address more than its share of connections, and every
  -- address can be found.
  pub record IsLimiter (r : Ratelimit) : Type 0 where
    pub table : IsTable (bucket_of shorthash r) r.e
    pub within : AllWithin (cap_milli r) r.max_conns r.e
    pub global : r.global_tokens_milli ≤ r.global_per_sec * 1000
    pub small : r.max_conns ≤ ratelimit_max_conns_max

  -- A write of the numbers of the entry that holds `key`.
  pub write-IsLimiter :
      (r : Ratelimit) (es : List RatelimitEntry) (i : ℕ) (v : RatelimitEntry)
      → IsTable (bucket_of shorthash r) es
      → AllWithin (cap_milli r) r.max_conns es
      → i < ratelimit_entries
      → v.key ≡ (entry_at es i).key
      → v.key_len ≡ (entry_at es i).key_len
      → Within (cap_milli r) r.max_conns v
      → IsTable (bucket_of shorthash r) (set es i v)
        × AllWithin (cap_milli r) r.max_conns (set es i v)
  write-IsLimiter r es i v t w l k n b =
      let in_table : i < length es = omega (arith, l, t.size) in
      (
        SameKeys-IsTable (bucket_of shorthash r) es (set es i v) (set-SameKeys es i v in_table k n)
            t,
        set-AllWithin (cap_milli r) r.max_conns es i v in_table b w,
      )

  -- After it, the connections of `key` are those of the new entry, and all others as before.
  pub write_conns :
      (r : Ratelimit) (es : List RatelimitEntry) (key : List ℕ) (i : ℕ) (v : RatelimitEntry)
      → IsTable (bucket_of shorthash r) es
      → Holds es key i
      → v.key ≡ (entry_at es i).key
      → v.key_len ≡ (entry_at es i).key_len
      → (k : List ℕ)
      → conns_at (set es i v) (find_key (bucket_of shorthash r) (set es i v) k)
        ≡ (if bytes_eq k key then v.conns else conns_at es (find_key (bucket_of shorthash r) es k))
  write_conns r es key i v t h kk n k =
      let b = bucket_of shorthash r in
      let in_table : i < length es = omega (arith, h.0, t.size) in
      let same = SameKeys-find_key b es (set es i v) k (set-SameKeys es i v in_table kk n) t in
      elim (Bool-cases (bytes_eq k key)) [
        | inl q ↦
            let own : find_key b es k ≡ some i =
              ap (find_key b es) (eq_of_bytes_eq k key q) ∙ find_key-Holds b es key i t h in
            rw (same, own, q)
              (ap (λ (e : RatelimitEntry). e.conns) (entry_at-set_self es i v in_table))
        | inr q ↦
            let apart : find_key b es k ≢ some i =
              λ e. bytes_apart k key q (one_key es i k key (Holds-of_find_key b es k i e) h) in
            rw (same, q) (conns_at-set_ne es i v (find_key b es k) apart)
      ]

  zero_at : (n i : ℕ) → entry_at (replicate n zero_ratelimit_entry) i ≡ zero_ratelimit_entry
  unfolding replicate
  zero_at zero i = refl
  zero_at (suc n) zero = refl
  zero_at (suc n) (suc i) = zero_at n i

  none_held :
      (key : List ℕ) (i : ℕ) → Holds (replicate ratelimit_entries zero_ratelimit_entry) key i → ⊥
  none_held key i (l, u, s) =
      let z : (0 == 0) ≡ false =
        ap (λ (e : RatelimitEntry). e.key_len == 0) (sym (zero_at ratelimit_entries i)) ∙ u in
      absurd (cc)

  -- A limiter that has just started keeps the invariant.
  pub ratelimit_init-IsLimiter :
      (hash_key : List ℕ) (per_min burst global_per_sec max_conns now_ms : ℕ)
      → IsLimiter (ratelimit_init hash_key per_min burst global_per_sec max_conns now_ms)
  unfolding ratelimit_init
  ratelimit_init-IsLimiter hash_key per_min burst global_per_sec max_conns now_ms = record {
    table = record {
      size = length-replicate ratelimit_entries zero_ratelimit_entry;
      reach = λ key i h. absurd (none_held key i h);
      once = λ key i j h g. absurd (none_held key i h);
    };
    within = λ i. rw (zero_at ratelimit_entries i) (omega arith, omega arith);
    global = omega arith;
    small = ground arith;
  }

  pub init_conns :
      (hash_key : List ℕ) (per_min burst global_per_sec max_conns now_ms : ℕ) (k : List ℕ)
      → conns_at (replicate ratelimit_entries zero_ratelimit_entry) (
          find_key
            (bucket_of shorthash
              (ratelimit_init hash_key per_min burst global_per_sec max_conns now_ms))
            (replicate ratelimit_entries zero_ratelimit_entry)
            k)
        ≡ 0
  init_conns hash_key per_min burst global_per_sec max_conns now_ms k =
      let b =
        bucket_of shorthash
          (ratelimit_init hash_key per_min burst global_per_sec max_conns now_ms) in
      elim (Option-cases (find_key b (replicate ratelimit_entries zero_ratelimit_entry) k)) [
        | inl e ↦ rw e refl
        | inr (i, e) ↦ absurd (none_held k i (Holds-of_find_key b _ k i e))
      ]
