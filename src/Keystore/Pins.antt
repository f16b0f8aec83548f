-- ===== src/Keystore/Pins.antt =====
-- The keystore of src/protocol/keystore.c as a partial map: a pin is found again, and never replaced.
use mldsa_auth.Base.{
  Bool, Bool-cases, List, Option, Option-cases, [], ap, arith, false, if◌then◌else◌, inl, inr, leb,
  leb→le, length, none, not, refl, some, some_inj, sym, take, true, ℕ, ◌%◌, ◌+◌, ◌==◌, ◌∙◌, ◌∷◌,
  ◌≡◌, ◌≢◌, ◌≤◌,
}
use mldsa_auth.Base.Bytes.{blit, bytes_apart, bytes_eq, bytes_eq_refl, eq_of_bytes_eq, take-blit}
use mldsa_auth.Keystore.{
  Entry, Keystore, Status, add_loop, entry_matches, entry_of, find_entry, full, id_fits,
  invalid_arg, key_mismatch, keystore_add, keystore_lookup, keystore_max_entries, not_found, ok,
  ok_already_present,
}

matches_self :
    (e : Entry) (id pk : List ℕ) → id_fits id ≡ true → entry_matches (entry_of e id pk) id ≡ true
unfolding entry_matches
matches_self e id pk h =
    let short : length id % 256 ≡ length id = omega (arith, leb→le (length id) 64 (ground arith)) in
    let some_bytes : 1 ≤ length id = leb→le 1 (length id) (ground arith) in
    rw (short, take-blit (length id) e.id id refl, bytes_eq_refl id) (ground arith)

matches_only :
    (e : Entry) (id pk j : List ℕ)
    → id_fits id ≡ true
    → entry_matches (entry_of e id pk) j ≡ true
    → j ≡ id
unfolding entry_matches
matches_only e id pk j h m =
    let short : length id % 256 ≡ length id = omega (arith, leb→le (length id) 64 (ground arith)) in
    let same : length id ≡ length j = ground (arith, short) in
    let bytes : bytes_eq (take (length j) (blit e.id id)) j ≡ true = ground arith in
    sym (sym (take-blit (length j) e.id id same) ∙ eq_of_bytes_eq _ j bytes)

free_matches : (e : Entry) (j : List ℕ) → (e.id_len == 0) ≡ true → entry_matches e j ≡ false
unfolding entry_matches
free_matches e j h = ground arith

matches_other :
    (e : Entry) (id pk j : List ℕ)
    → id_fits id ≡ true
    → j ≢ id
    → entry_matches (entry_of e id pk) j ≡ false
matches_other e id pk j h apart = elim (Bool-cases (entry_matches (entry_of e id pk) j)) [
  | inl m ↦ absurd (apart (matches_only e id pk j h m))
  | inr m ↦ m
]

-- An id that is not found is not the first entry's, and not found behind it.
find_entry-none :
    (x : Entry) (es : List Entry) (id : List ℕ)
    → find_entry (x ∷ es) id ≡ none
    → (entry_matches x id ≡ false) × (find_entry es id ≡ none)
unfolding find_entry
find_entry-none x es id h = ground arith

-- Where the id was not there, it is found after `add_loop`, and every other id as before.
pub find-add_loop :
    (es es' : List Entry) (id pk : List ℕ)
    → id_fits id ≡ true
    → find_entry es id ≡ none
    → add_loop es id pk ≡ some es'
    → (find_entry es' id ≡ some pk) × ((j : List ℕ) → j ≢ id → find_entry es' j ≡ find_entry es j)
unfolding find_entry add_loop
find-add_loop [] es' id pk h gone e = absurd (cc)
find-add_loop (x ∷ es) es' id pk h gone e = elim (Bool-cases (x.id_len == 0)) [
  | inl f ↦
      let at : entry_of x id pk ∷ es ≡ es' = some_inj (rw f at e) in
      rw (← at) (
        rw (matches_self x id pk h) refl,
        λ j apart. rw (matches_other x id pk j h apart, free_matches x j f) refl,
      )
  | inr f ↦ elim (Option-cases (add_loop es id pk)) [
    | inl g ↦ absurd (ground (arith, f, g))
    | inr (es₁, g) ↦
        let at : x ∷ es₁ ≡ es' = some_inj (rw (f, g) at e) in
        let (miss, rest) = find_entry-none x es id gone in
        let (found, others) = find-add_loop es es₁ id pk h rest g in
        rw (← at) (rw miss found, λ j apart. rw (others j apart) refl)
  ]
]

not_both :
    (ks : Keystore) (j id pin : List ℕ)
    → j ≡ id
    → keystore_lookup ks id ≡ (not_found, none)
    → keystore_lookup ks j ≡ (ok, some pin)
    → ⊥
not_both ks j id pin e gone h =
    let clash : not_found ≡ ok =
      ap (λ (r : Status × Option (List ℕ)). r.0) (sym gone ∙ (rw e at h)) in
    absurd (cc)

-- The five ways in which `keystore_add` ends.
pub data Added (ks : Keystore) (id pk : List ℕ) : Status × Keystore → Type 0 where
  bad_id : id_fits id ≡ false → Added ks id pk (invalid_arg, ks)
  present : keystore_lookup ks id ≡ (ok, some pk) → Added ks id pk (ok_already_present, ks)
  mismatch :
      (old : List ℕ)
      → keystore_lookup ks id ≡ (ok, some old)
      → old ≢ pk
      → Added ks id pk (key_mismatch, ks)
  no_room : keystore_lookup ks id ≡ (not_found, none) → Added ks id pk (full, ks)
  pinned :
      (ks' : Keystore)
      → keystore_lookup ks id ≡ (not_found, none)
      → keystore_lookup ks' id ≡ (ok, some pk)
      → ((j : List ℕ) → j ≢ id → keystore_lookup ks' j ≡ keystore_lookup ks j)
      → Added ks id pk (ok, ks')

lookup_of : Bool → Option (List ℕ) → Status × Option (List ℕ)
lookup_of fits found =
    if not fits
    then (invalid_arg, none)
    else elim found [ none ↦ (not_found, none) | some pk ↦ (ok, some pk) ]

lookup_lem :
    (ks : Keystore) (id : List ℕ)
    → keystore_lookup ks id ≡ lookup_of (id_fits id) (find_entry ks.entries id)
unfolding keystore_lookup lookup_of
lookup_lem ks id = refl

lookup_at :
    (ks : Keystore) (id : List ℕ) (o : Option (List ℕ))
    → id_fits id ≡ true
    → find_entry ks.entries id ≡ o
    → keystore_lookup ks id ≡ lookup_of true o
lookup_at ks id o h e = rw (lookup_lem ks id, h, e) refl

-- `keystore_add` refuses an id of a bad length, reports the same key as present and another one as a
-- mismatch, reports FULL only for an id without a pin, and leaves the keystore as it is in all of
-- these; otherwise the id is looked up to its new key, and every other id as before.
pub keystore_add-Added : (ks : Keystore) (id pk : List ℕ) → Added ks id pk (keystore_add ks id pk)
unfolding keystore_add lookup_of
keystore_add-Added ks id pk = elim (Bool-cases (id_fits id)) [
  | inr f ↦ rw f (bad_id f)
  | inl f ↦ elim (Option-cases (find_entry ks.entries id)) [
    | inr (old, g) ↦ elim (Bool-cases (bytes_eq old pk)) [
      | inl b ↦
          rw (f, g, b)
            (present (lookup_at ks id (some old) f g ∙ rw (eq_of_bytes_eq old pk b) refl))
      | inr b ↦ rw (f, g, b) (mismatch old (lookup_at ks id (some old) f g) (bytes_apart old pk b))
    ]
    | inl g ↦ elim (Bool-cases (leb keystore_max_entries ks.count)) [
      | inl b ↦ rw (f, g, b) (no_room (lookup_at ks id none f g))
      | inr b ↦ elim (Option-cases (add_loop ks.entries id pk)) [
        | inl l ↦ rw (f, g, b, l) (no_room (lookup_at ks id none f g))
        | inr (es, l) ↦
            let after : Keystore = record { entries = es; count = ks.count + 1 } in
            let (found, others) = find-add_loop ks.entries es id pk f g l in
            rw (f, g, b, l)
              (pinned after (lookup_at ks id none f g) (lookup_at after id (some pk) f found)
                (λ j apart. rw (lookup_lem after j, lookup_lem ks j, others j apart) refl))
      ]
    ]
  ]
]

pub add_all : Keystore → List (List ℕ × List ℕ) → Keystore
add_all ks [] = ks
add_all ks ((id, pk) ∷ more) = add_all (keystore_add ks id pk).1 more

kept :
    (ks : Keystore) (id pk j pin : List ℕ) (r : Status × Keystore)
    → Added ks id pk r
    → keystore_lookup ks j ≡ (ok, some pin)
    → keystore_lookup r.1 j ≡ (ok, some pin)
kept ks id pk j pin r (bad_id f) h = h
kept ks id pk j pin r (present f) h = h
kept ks id pk j pin r (mismatch old f g) h = h
kept ks id pk j pin r (no_room f) h = h
kept ks id pk j pin r (pinned after gone found others) h = elim (Bool-cases (bytes_eq j id)) [
  | inl b ↦ absurd (not_both ks j id pin (eq_of_bytes_eq j id b) gone h)
  | inr b ↦ others j (bytes_apart j id b) ∙ h
]

-- A pin is never replaced: after any sequence of adds, an id that had a key is looked up to it.
pub pin_kept :
    (ks : Keystore) (j pin : List ℕ) (adds : List (List ℕ × List ℕ))
    → keystore_lookup ks j ≡ (ok, some pin)
    → keystore_lookup (add_all ks adds) j ≡ (ok, some pin)
unfolding add_all
pin_kept ks j pin [] h = h
pin_kept ks j pin ((id, pk) ∷ more) h =
    pin_kept (keystore_add ks id pk).1 j pin more
      (kept ks id pk j pin _ (keystore_add-Added ks id pk) h)
