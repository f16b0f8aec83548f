-- ===== src/Pending/Find.antt =====
-- `find_slot` of src/protocol/handshake.c, which scans every slot with no early exit, and writes
-- through the index that it finds.
use mldsa_auth.Base.{
  Bool, Bool-cases, List, Option, [], ap, arith, false, get_elem?, if◌then◌else◌, inl, inr, none,
  refl, set, some, subst, suc, sym, true, ℕ, ◌&&◌, ◌+◌, ◌∙◌, ◌∷◌, ◌≡◌, ◌⊎◌,
}
use mldsa_auth.Base.Bytes.{bytes_eq, bytes_eq_refl, eq_of_bytes_eq}
use mldsa_auth.Pending.{Entry, Store, find_loop, find_slot, in_use, put_slot, slot_at}

abbrev hits : Entry → List ℕ → Bool
hits e id = in_use e && bytes_eq e.handshake_id id

-- The first entry in use under an id.
unfoldable pub held : List Entry → List ℕ → Option Entry
held [] id = none
held (e ∷ es) id = if in_use e && bytes_eq e.handshake_id id then some e else held es id

-- A write over that entry.
unfoldable pub update_first : List Entry → List ℕ → Entry → List Entry
update_first [] id v = []
update_first (e ∷ es) id v =
    if in_use e && bytes_eq e.handshake_id id then v ∷ es else e ∷ update_first es id v

find_loop_done :
    (es : List Entry) (id : List ℕ) (i index : ℕ) → find_loop es id i true index ≡ (true, index)
unfolding find_loop
find_loop_done [] id i index = refl
find_loop_done (e ∷ es) id i index = ground (arith, find_loop_done es id (i + 1) index)

-- What the scan of a list of slots found, from slot `i` on.
abbrev Scanned : List Entry → List ℕ → ℕ → Bool × ℕ → Type 0
Scanned es id i r =
    ((held es id ≡ none) × (r.0 ≡ false))
    ⊎ ((e : Entry) × (k : ℕ) × (held es id ≡ some e)
        × (r ≡ (true, i + k))
        × (get_elem? es k ≡ some e)
        × ((v : Entry) → set es k v ≡ update_first es id v))

find_loop-hit :
    (e : Entry) (es : List Entry) (id : List ℕ) (i index : ℕ)
    → hits e id ≡ true
    → find_loop (e ∷ es) id i false index ≡ (true, i)
unfolding find_loop
find_loop-hit e es id i index h = ground (arith, find_loop_done es id (i + 1) i)

find_loop-miss :
    (e : Entry) (es : List Entry) (id : List ℕ) (i index : ℕ)
    → hits e id ≡ false
    → find_loop (e ∷ es) id i false index ≡ find_loop es id (i + 1) false index
unfolding find_loop
find_loop-miss e es id i index h = ground arith

find_loop-Scanned :
    (es : List Entry) (id : List ℕ) (i index : ℕ) → Scanned es id i (find_loop es id i false index)
unfolding held update_first
find_loop-Scanned [] id i index = inl (refl, unfold find_loop in refl)
find_loop-Scanned (e ∷ es) id i index = elim (Bool-cases (hits e id)) [
  | inl h ↦
      rw (find_loop-hit e es id i index h, h)
        (inr (e, 0, refl, ap (λ n. (true, n)) (omega arith), refl, λ v. refl))
  | inr h ↦
      rw (find_loop-miss e es id i index h, h)
        (elim (find_loop-Scanned es id (i + 1) index) [
          | inl a ↦ inl a
          | inr (x, k, a, b, c, d) ↦
              inr (x, suc k, a, b ∙ ap (λ n. (true, n)) (omega arith), c, λ v. ap (◌∷◌ e) (d v))
        ])
]

-- What `find_slot` found, and what reading and writing its slot means.
abbrev pub Found : Store → List ℕ → Bool × ℕ → Type 0
Found s id r =
    ((held s.slots id ≡ none) × (r.0 ≡ false))
    ⊎ ((e : Entry) × (held s.slots id ≡ some e)
        × (r.0 ≡ true)
        × (slot_at s r.1 ≡ e)
        × ((v : Entry) → put_slot s r.1 v ≡ record s { slots = update_first s.slots id v }))

pub find_slot-Found : (s : Store) (id : List ℕ) → Found s id (find_slot s id)
unfolding find_slot slot_at put_slot
find_slot-Found s id = elim (find_loop-Scanned s.slots id 0 0) [
  | inl a ↦ inl a
  | inr (e, k, a, b, c, d) ↦
      let at : find_loop s.slots id 0 false 0 ≡ (true, k) = b ∙ ap (λ n. (true, n)) (omega arith) in
      inr (
        e,
        a,
        ap (λ r. r.0) at,
        subst (λ n. slot_at s n ≡ e) (sym (ap (λ r. r.1) at)) (rw (c, slot_at)),
        λ v.
            subst (λ n. put_slot s n v ≡ record s { slots = update_first s.slots id v })
              (sym (ap (λ r. r.1) at)) (ap (λ l. record s { slots = l }) (d v)),
      )
]

-- At most one entry in use under each id.
abbrev pub Distinct : List Entry → Type 0
Distinct [] = Unit {0}
Distinct (e ∷ es) = (in_use e ≡ true → held es e.handshake_id ≡ none) × Distinct es

pub held_id :
    (es : List Entry) (id : List ℕ) (e : Entry)
    → held es id ≡ some e
    → (e.handshake_id ≡ id) × (in_use e ≡ true)
unfolding held
held_id [] id e h = cc
held_id (x ∷ es) id e h = ground (arith, held_id es id e, eq_of_bytes_eq x.handshake_id id)

-- An entry over the one that was found, under the same id.
pub held-update_first_used :
    (es : List Entry) (id j : List ℕ) (e v : Entry)
    → held es id ≡ some e
    → v.handshake_id ≡ id
    → in_use v ≡ true
    → held (update_first es id v) j ≡ (if bytes_eq id j then some v else held es j)
unfolding held update_first
held-update_first_used [] id j e v h s u = cc
held-update_first_used (x ∷ es) id j e v h s u = ground (
  arith,
  held-update_first_used es id j e v,
  eq_of_bytes_eq x.handshake_id id,
  eq_of_bytes_eq id j,
  bytes_eq_refl id,
)

-- A free entry over the one that was found.
pub held-update_first_free :
    (es : List Entry) (id j : List ℕ) (e v : Entry)
    → Distinct es
    → held es id ≡ some e
    → in_use v ≡ false
    → held (update_first es id v) j ≡ (if bytes_eq id j then none else held es j)
unfolding held update_first
held-update_first_free [] id j e v d h u = cc
held-update_first_free (x ∷ es) id j e v (d, ds) h u = ground (
  arith,
  d,
  held-update_first_free es id j e v ds,
  eq_of_bytes_eq x.handshake_id id,
  eq_of_bytes_eq id j,
  bytes_eq_refl id,
)

pub update_first-none :
    (es : List Entry) (id : List ℕ) (v : Entry) → held es id ≡ none → update_first es id v ≡ es
unfolding held update_first
update_first-none [] id v h = refl
update_first-none (e ∷ es) id v h = ground (arith, update_first-none es id v)

pub update_first_same :
    (es : List Entry) (id : List ℕ) (e : Entry) → held es id ≡ some e → update_first es id e ≡ es
unfolding held update_first
update_first_same [] id e h = refl
update_first_same (x ∷ es) id e h = ground (arith, update_first_same es id e)
