-- ===== src/Ratelimit/Writes.antt =====
-- Writes into the table of apps/authd/ratelimit.c: of the numbers of an entry, and of a new address
-- over an entry that may be taken.
use mldsa_auth.Base.{
  Bool-cases, List, Option-cases, arith, get_elem?-set_ne, get_elem?-set_self, inl, inr, length,
  length-set, refl, set, sym, ℕ, ◌%◌, ◌+◌, ◌<◌, ◌==◌, ◌∙◌, ◌≡◌, ◌≢◌,
}
use mldsa_auth.Ratelimit.{RatelimitEntry, entry_at, ratelimit_entries, same_key}
use mldsa_auth.Ratelimit.Probe.{Holds}
use mldsa_auth.Ratelimit.Table.{IsTable, find_key, find_key-Holds, Holds-of_find_key, not_held}

pub entry_at-set_self :
    (es : List RatelimitEntry) (i : ℕ) (v : RatelimitEntry)
    → i < length es
    → entry_at (set es i v) i ≡ v
entry_at-set_self es i v h = rw (entry_at, get_elem?-set_self es i v h) refl

pub entry_at-set_ne :
    (es : List RatelimitEntry) (i j : ℕ) (v : RatelimitEntry)
    → i ≢ j
    → entry_at (set es i v) j ≡ entry_at es j
entry_at-set_ne es i j v h = rw (entry_at, get_elem?-set_ne es {i = i} {j = j} v h) refl

same_key_cong :
    (d e : RatelimitEntry) (key : List ℕ)
    → d.key ≡ e.key
    → d.key_len ≡ e.key_len
    → same_key d key ≡ same_key e key
unfolding same_key
same_key_cong d e key k l = rw (k, l) refl

-- Two tables with the same keys in the same entries.
abbrev pub SameKeys : List RatelimitEntry → List RatelimitEntry → Type 0
SameKeys es es' =
    (length es' ≡ length es)
    × ((i : ℕ)
        → ((entry_at es' i).key ≡ (entry_at es i).key)
          × ((entry_at es' i).key_len ≡ (entry_at es i).key_len))

pub set-SameKeys :
    (es : List RatelimitEntry) (i : ℕ) (v : RatelimitEntry)
    → i < length es
    → v.key ≡ (entry_at es i).key
    → v.key_len ≡ (entry_at es i).key_len
    → SameKeys es (set es i v)
set-SameKeys es i v h k l = (
  length-set es i v,
  λ j. elim (Bool-cases (i == j)) [
    | inl e ↦ let same : i ≡ j = ground (arith, e) in rw (← same, entry_at-set_self es i v h) (k, l)
    | inr e ↦
        let apart : i ≢ j = ground (arith, e) in rw (entry_at-set_ne es i j v apart) (refl, refl)
  ],
)

Holds-same :
    (es es' : List RatelimitEntry) (key : List ℕ) (i : ℕ)
    → SameKeys es es'
    → Holds es' key i
    → Holds es key i
Holds-same es es' key i (s, same) (l, u, k) = (
  l,
  rw (← (same i).1) u,
  sym (same_key_cong (entry_at es' i) (entry_at es i) key (same i).0 (same i).1) ∙ k,
)

SameKeys-sym : (es es' : List RatelimitEntry) → SameKeys es es' → SameKeys es' es
SameKeys-sym es es' (s, same) = (sym s, λ i. (sym (same i).0, sym (same i).1))

module _ (bucket : List ℕ → ℕ) where
  pub SameKeys-IsTable :
      (es es' : List RatelimitEntry) → SameKeys es es' → IsTable bucket es → IsTable bucket es'
  SameKeys-IsTable es es' s t = record {
    size = s.0 ∙ t.size;
    reach = λ key i h.
        let (n, l, at, us) = t.reach key i (Holds-same es es' key i s h) in
        (n, l, at, λ m lo hi. rw ((s.1 ((bucket key + m) % ratelimit_entries)).1) (us m lo hi));
    once =
        λ key i j h k. t.once key i j (Holds-same es es' key i s h) (Holds-same es es' key j s k);
  }

  pub SameKeys-find_key :
      (es es' : List RatelimitEntry) (key : List ℕ)
      → SameKeys es es'
      → IsTable bucket es
      → find_key bucket es' key ≡ find_key bucket es key
  SameKeys-find_key es es' key s t =
      let t' = SameKeys-IsTable es es' s t in
      elim (Option-cases (find_key bucket es key)) [
        | inr (i, e) ↦
            find_key-Holds bucket es' key i t' (
              Holds-same es' es key i (SameKeys-sym es es' s) (Holds-of_find_key bucket es key i e))
            ∙ sym e
        | inl e ↦ elim (Option-cases (find_key bucket es' key)) [
          | inl e' ↦ e' ∙ sym e
          | inr (i, e') ↦ absurd (
              not_held bucket es key i t e
                (Holds-same es es' key i s (Holds-of_find_key bucket es' key i e')))
        ]
      ]
