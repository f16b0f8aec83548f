-- ===== src/Ratelimit/Table.antt =====
-- The table of apps/authd/ratelimit.c as a map from keys to entries.
use mldsa_auth.Base.{
  Bool-cases, List, Option, Option-cases, ap, arith, false, inl, inr, length, ltb, ltb→lt, none,
  some, some_inj, subst, true, ℕ, ◌%◌, ◌+◌, ◌<◌, ◌==◌, ◌∙◌, ◌≡◌,
}
use mldsa_auth.Ratelimit.{RatelimitEntry, entry_at, find_rounds, ratelimit_entries, same_key}
use mldsa_auth.Ratelimit.Probe.{
  Holds, Other, Probed, Rounds, find_rounds-Probed, found_at, missed, stopped,
}

module _ (bucket : List ℕ → ℕ) where
  -- The probing for a key that entry `i` holds comes to `i` over used entries only.
  abbrev pub Reach : List RatelimitEntry → List ℕ → ℕ → Type 0
  Reach es key i =
      (n : ℕ) × (n < ratelimit_entries)
      × ((bucket key + n) % ratelimit_entries ≡ i)
      × Rounds (λ k. ((entry_at es k).key_len == 0) ≡ false) (bucket key) 0 n

  -- A table in which every key can be found, in one entry only.
  pub record IsTable (es : List RatelimitEntry) : Type 0 where
    pub size : length es ≡ ratelimit_entries
    pub reach : (key : List ℕ) (i : ℕ) → Holds es key i → Reach es key i
    pub once : (key : List ℕ) (i j : ℕ) → Holds es key i → Holds es key j → i ≡ j

  abbrev pub find_key : List RatelimitEntry → List ℕ → Option ℕ
  find_key es key = find_rounds es key (bucket key) 0 ratelimit_entries

  found-Holds :
      (es : List RatelimitEntry) (key : List ℕ) (j : ℕ) (o : Option ℕ)
      → Probed es key (bucket key) 0 ratelimit_entries o
      → o ≡ some j
      → Holds es key j
  found-Holds es key j o (found_at i h) e = subst (Holds es key) (some_inj e) h
  found-Holds es key j o (stopped m h f os) e = absurd (cc)
  found-Holds es key j o (missed os) e = absurd (cc)

  -- What is found_at holds the key.
  pub Holds-of_find_key :
      (es : List RatelimitEntry) (key : List ℕ) (j : ℕ) → find_key es key ≡ some j → Holds es key j
  Holds-of_find_key es key j e =
      found-Holds es key j _ (find_rounds-Probed es key (bucket key) 0 _ _ (omega arith)) e

  -- An entry that is hh by `key` is not another's, in whatever round it comes.
  not-Other :
      (es : List RatelimitEntry) (key : List ℕ) (i n : ℕ)
      → Holds es key i
      → (bucket key + n) % ratelimit_entries ≡ i
      → Other es key ((bucket key + n) % ratelimit_entries)
      → ⊥
  not-Other es key i n (l, u, s) at (v, o) =
      let o' : same_key (entry_at es i) key ≡ false =
        subst (λ k. same_key (entry_at es k) key ≡ false) at o in
      absurd (ground (arith, s, o'))

  missing_not_held :
      (es : List RatelimitEntry) (key : List ℕ) (i : ℕ) (o : Option ℕ)
      → Probed es key (bucket key) 0 ratelimit_entries o
      → o ≡ none
      → Holds es key i
      → Reach es key i
      → ⊥
  missing_not_held es key i o (found_at j h) e hh r = absurd (cc)
  missing_not_held es key i o (missed os) e hh (n, l, at, us) =
      not-Other es key i n hh at (os n (omega arith) l)
  missing_not_held es key i o (stopped m h f os) e hh (n, l, at, us) = elim (Bool-cases (ltb m n)) [
    | inl t ↦ let u = us m (omega arith) (ltb→lt m n t) in absurd (ground (arith, u, f))
    | inr g ↦ elim (Bool-cases (m == n)) [
      | inl q ↦
          let same : m ≡ n = ground (arith, q) in
          let f' : ((entry_at es i).key_len == 0) ≡ true =
            subst (λ k. ((entry_at es k).key_len == 0) ≡ true)
              (ap (λ k. (bucket key + k) % ratelimit_entries) same ∙ at) f in
          let u = hh.1 in absurd (ground (arith, u, f'))
      | inr q ↦ not-Other es key i n hh at (os n (omega arith) (ground (arith, g, q)))
    ]
  ]

  pub not_held :
      (es : List RatelimitEntry) (key : List ℕ) (i : ℕ)
      → IsTable es
      → find_key es key ≡ none
      → Holds es key i
      → ⊥
  not_held es key i t e h =
      missing_not_held es key i _ (find_rounds-Probed es key (bucket key) 0 _ _ (omega arith)) e h
        (t.reach key i h)

  -- A key is found_at where it stands, and found_at nowhere else.
  pub find_key-Holds :
      (es : List RatelimitEntry) (key : List ℕ) (i : ℕ)
      → IsTable es
      → Holds es key i
      → find_key es key ≡ some i
  find_key-Holds es key i t h = elim (Option-cases (find_key es key)) [
    | inl e ↦ absurd (not_held es key i t e h)
    | inr (j, e) ↦ e ∙ ap some (t.once key j i (Holds-of_find_key es key j e) h)
  ]
