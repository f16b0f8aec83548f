-- ===== src/Ratelimit/Insert.antt =====
-- A new address in the table of apps/authd/ratelimit.c, over an entry that may be taken.
use mldsa_auth.Base.{
  Bool-cases, List, Option-cases, ap, arith, false, inl, inr, length, length-set, none, refl, set,
  some, some_inj, subst, sym, take, true, ℕ, ◌%◌, ◌+◌, ◌<◌, ◌==◌, ◌∙◌, ◌≡◌, ◌≢◌, ◌⊎◌,
}
use mldsa_auth.Base.Bytes.{bytes_eq, bytes_eq_refl, eq_of_bytes_eq, take-blit, zeros}
use mldsa_auth.Ratelimit.{
  Ratelimit, RatelimitEntry, entry_at, fresh_entry, ratelimit_entries, same_key,
}
use mldsa_auth.Ratelimit.Probe.{Holds, Rounds}
use mldsa_auth.Ratelimit.Table.{
  IsTable, Reach, find_key, find_key-Holds, Holds-of_find_key, not_held,
}
use mldsa_auth.Ratelimit.Writes.{entry_at-set_ne, entry_at-set_self}

-- A new entry is its address's.
pub fresh_same_key :
    (r : Ratelimit) (key : List ℕ) (now_ms : ℕ) → same_key (fresh_entry r key now_ms) key ≡ true
unfolding same_key
fresh_same_key r key now_ms =
    rw (take-blit (length key) (zeros 16) key refl, bytes_eq_refl key) (ground arith)

-- Two keys of one entry are the same.
pub same_key_only :
    (e : RatelimitEntry) (k key : List ℕ) → same_key e k ≡ true → same_key e key ≡ true → k ≡ key
unfolding same_key
same_key_only e k key h g =
    let same : length k ≡ length key = ground (arith, h, g) in
    let one : bytes_eq (take (length k) e.key) k ≡ true = ground (arith, h) in
    let two : bytes_eq (take (length key) e.key) key ≡ true = ground (arith, g) in
    sym (eq_of_bytes_eq _ k one) ∙ ap (λ n. take n e.key) same ∙ eq_of_bytes_eq _ key two

pub one_key :
    (es : List RatelimitEntry) (i : ℕ) (k key : List ℕ) → Holds es k i → Holds es key i → k ≡ key
one_key es i k key (l, u, s) (l', u', s') = same_key_only (entry_at es i) k key s s'

some_not_none : (i : ℕ) → some i ≢ none
some_not_none i e = absurd (cc)

==→eq : (a b : ℕ) → (a == b) ≡ true → a ≡ b
==→eq a b h = ground (arith, h)

-- `v` goes over entry `i` for `key`, which the table does not hold.
module _ (bucket : List ℕ → ℕ) (es : List RatelimitEntry) (key : List ℕ) (m : ℕ)
    (v : RatelimitEntry) (t : IsTable bucket es) (gone : find_key bucket es key ≡ none)
    (l : m < ratelimit_entries)
    (used : Rounds (λ k. ((entry_at es k).key_len == 0) ≡ false) (bucket key) 0 m)
    (not_free : (v.key_len == 0) ≡ false) (own : same_key v key ≡ true) where
  abbrev pub spot : ℕ
  spot = (bucket key + m) % ratelimit_entries

  abbrev pub table_after : List RatelimitEntry
  table_after = set es spot v

  in_table : spot < length es
  in_table = omega (arith, t.size)

  spot_own : entry_at table_after spot ≡ v
  spot_own = entry_at-set_self es spot v in_table

  not_here : (j : ℕ) → spot ≢ j → entry_at table_after j ≡ entry_at es j
  not_here j apart = entry_at-set_ne es spot j v apart

  Holds-insert :
      (k : List ℕ) (j : ℕ)
      → Holds table_after k j
      → ((spot ≡ j) × (k ≡ key)) ⊎ ((spot ≢ j) × Holds es k j)
  Holds-insert k j (b, u, s) = elim (Bool-cases (spot == j)) [
    | inl e ↦
        let same : spot ≡ j = ground (arith, e) in
        let s' : same_key v k ≡ true =
          ap (λ e. same_key e k) (sym spot_own ∙ ap (entry_at table_after) same) ∙ s in
        inl (same, same_key_only v k key s' own)
    | inr e ↦
        let apart : spot ≢ j = ground (arith, e) in
        let q = not_here j apart in
        inr (apart, (b, ap (λ e. e.key_len == 0) (sym q) ∙ u, ap (λ e. same_key e k) (sym q) ∙ s))
  ]

  Holds-back : (k : List ℕ) (j : ℕ) → spot ≢ j → Holds es k j → Holds table_after k j
  Holds-back k j apart (b, u, s) =
      let q = not_here j apart in (b, ap (λ e. e.key_len == 0) q ∙ u, ap (λ e. same_key e k) q ∙ s)

  pub Holds-own : Holds table_after key spot
  Holds-own = (
    omega arith,
    ap (λ e. e.key_len == 0) spot_own ∙ not_free,
    ap (λ e. same_key e key) spot_own ∙ own,
  )

  -- Used entries stay used.
  still_used :
      (j : ℕ)
      → ((entry_at es j).key_len == 0) ≡ false
      → ((entry_at table_after j).key_len == 0) ≡ false
  still_used j u = elim (Bool-cases (spot == j)) [
    | inl e ↦
        let same : spot ≡ j = ground (arith, e) in
        ap (λ e. e.key_len == 0) (ap (entry_at table_after) (sym same) ∙ spot_own) ∙ not_free
    | inr e ↦ ap (λ e. e.key_len == 0) (not_here j (ground (arith, e))) ∙ u
  ]

  Reach-insert : (k : List ℕ) (j : ℕ) → Holds table_after k j → Reach bucket table_after k j
  Reach-insert k j h = elim (Holds-insert k j h) [
    | inl (same, e) ↦
        rw e
          (m, l, same, λ n lo hi. still_used ((bucket key + n) % ratelimit_entries) (used n lo hi))
    | inr (apart, h') ↦
        let (n, b, q, us) = t.reach k j h' in
        (n, b, q, λ i lo hi. still_used ((bucket k + i) % ratelimit_entries) (us i lo hi))
  ]

  once_insert : (k : List ℕ) (i j : ℕ) → Holds table_after k i → Holds table_after k j → i ≡ j
  once_insert k i j h g = elim (Holds-insert k i h) [
    | inl (same, e) ↦ elim (Holds-insert k j g) [
      | inl (same', e') ↦ sym same ∙ same'
      | inr (apart, g') ↦ absurd (not_held bucket es key j t gone (subst (λ k. Holds es k j) e g'))
    ]
    | inr (apart, h') ↦ elim (Holds-insert k j g) [
      | inl (same', e') ↦ absurd (not_held bucket es key i t gone (subst (λ k. Holds es k i) e' h'))
      | inr (apart', g') ↦ t.once k i j h' g'
    ]
  ]

  pub insert-IsTable : IsTable bucket table_after
  insert-IsTable = record {
    size = length-set es spot v ∙ t.size;
    reach = Reach-insert;
    once = once_insert;
  }

  pub find_own : find_key bucket table_after key ≡ some spot
  find_own = find_key-Holds bucket table_after key spot insert-IsTable Holds-own

  -- Every other key is found_at as before, but for the one whose entry was taken.
  pub find_others :
      (k : List ℕ)
      → k ≢ key
      → ((find_key bucket table_after k ≡ find_key bucket es k)
          × (find_key bucket es k ≢ some spot))
        ⊎ ((find_key bucket table_after k ≡ none) × (find_key bucket es k ≡ some spot))
  find_others k other = elim (Option-cases (find_key bucket es k)) [
    | inl e ↦ elim (Option-cases (find_key bucket table_after k)) [
      | inl f ↦ inl (f ∙ sym e, λ q. absurd (some_not_none spot (sym q ∙ e)))
      | inr (j, f) ↦ elim (Holds-insert k j (Holds-of_find_key bucket table_after k j f)) [
        | inl (same, own') ↦ absurd (other own')
        | inr (apart, h) ↦ absurd (not_held bucket es k j t e h)
      ]
    ]
    | inr (j, e) ↦ elim (Bool-cases (spot == j)) [
      | inr q ↦
          let apart : spot ≢ j = ground (arith, q) in
          inl (
            find_key-Holds bucket table_after k j insert-IsTable
                  (Holds-back k j apart (Holds-of_find_key bucket es k j e))
                ∙ sym e,
            λ f. apart (some_inj (sym f ∙ e)),
          )
      | inl q ↦ elim (Option-cases (find_key bucket table_after k)) [
        | inl f ↦ inr (f, e ∙ ap some (sym (==→eq spot j q)))
        | inr (i, f) ↦ elim (Holds-insert k i (Holds-of_find_key bucket table_after k i f)) [
          | inl (same, own') ↦ absurd (other own')
          | inr (apart, h) ↦
              absurd (apart (==→eq spot j q ∙ t.once k j i (Holds-of_find_key bucket es k j e) h))
        ]
      ]
    ]
  ]
