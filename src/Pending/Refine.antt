-- ===== src/Pending/Refine.antt =====
-- The ledger of src/protocol/handshake.c refines a partial map from handshake ids to entries.
use mldsa_auth.Base.{
  List, Option, Option-cases, [], arith, false, if◌then◌else◌, inl, inr, length, none, refl, some,
  true, ℕ, ◌∙◌, ◌∷◌, ◌≡◌,
}
use mldsa_auth.Base.Bytes.{bytes_eq, bytes_eq_refl, eq_of_bytes_eq}
use mldsa_auth.Pending.{Entry, Store, in_use, store_usable, zero_entry}
use mldsa_auth.Pending.Cell.{
  Op, apply, apply-eq-write, cancel, cell, consume_success, get_digest, live, record_failure, write,
}
use mldsa_auth.Pending.Find.{
  Distinct, held, held-update_first_free, held-update_first_used, held_id, update_first,
  update_first-none,
}

-- What every operation needs and keeps: the store is usable, and ids are distinct.
pub record IsLedger (s : Store) : Type 0 where
  pub usable : store_usable s ≡ true
  pub distinct : Distinct s.slots

length-update_first :
    (es : List Entry) (id : List ℕ) (v : Entry) → length (update_first es id v) ≡ length es
unfolding update_first
length-update_first [] id v = refl
length-update_first (e ∷ es) id v = ground (arith, length-update_first es id v)

update_first_used-Distinct :
    (es : List Entry) (id : List ℕ) (e v : Entry)
    → Distinct es
    → held es id ≡ some e
    → v.handshake_id ≡ id
    → in_use v ≡ true
    → Distinct (update_first es id v)
unfolding held update_first
update_first_used-Distinct [] id e v d h s u = cc
update_first_used-Distinct (x ∷ es) id e v (d, ds) h s u = ground (
  arith,
  d,
  update_first_used-Distinct es id e v ds,
  held-update_first_used es id x.handshake_id e v,
  eq_of_bytes_eq x.handshake_id id,
  eq_of_bytes_eq id x.handshake_id,
  bytes_eq_refl id,
)

update_first_free-Distinct :
    (es : List Entry) (id : List ℕ) (e v : Entry)
    → Distinct es
    → held es id ≡ some e
    → in_use v ≡ false
    → Distinct (update_first es id v)
unfolding held update_first
update_first_free-Distinct [] id e v d h u = cc
update_first_free-Distinct (x ∷ es) id e v (d, ds) h u = ground (
  arith,
  d,
  update_first_free-Distinct es id e v ds,
  held-update_first_free es id x.handshake_id e v ds,
)

-- What `s'` holds under `id` is the cell, and under each other id what `s` held; the rest of the
-- store is the same, and it is a ledger again.
pub record Holds (s s' : Store) (id : List ℕ) (c : Option Entry) : Type 0 where
  pub home_same : s'.home ≡ s.home
  pub ttl_same : s'.ttl_ms ≡ s.ttl_ms
  pub capacity_same : length s'.slots ≡ length s.slots
  pub ledger : IsLedger s'
  pub under : (j : List ℕ) → held s'.slots j ≡ (if bytes_eq id j then c else held s.slots j)

pub store_usable-slots :
    (s : Store) (es : List Entry)
    → length es ≡ length s.slots
    → store_usable s ≡ true
    → store_usable (record s { slots = es }) ≡ true
unfolding store_usable
store_usable-slots s es h u = rw h u

write_some :
    (s : Store) (id : List ℕ) (e v : Entry)
    → IsLedger s
    → held s.slots id ≡ some e
    → v.handshake_id ≡ id
    → in_use v ≡ true
    → Holds s (record s { slots = update_first s.slots id v }) id (some v)
write_some s id e v l h same u = record {
  home_same = refl;
  ttl_same = refl;
  capacity_same = length-update_first s.slots id v;
  ledger = record {
    usable = store_usable-slots s _ (length-update_first s.slots id v) l.usable;
    distinct = update_first_used-Distinct s.slots id e v l.distinct h same u;
  };
  under = λ j. held-update_first_used s.slots id j e v h same u;
}

write_free :
    (s : Store) (id : List ℕ) (e : Entry)
    → IsLedger s
    → held s.slots id ≡ some e
    → Holds s (record s { slots = update_first s.slots id zero_entry }) id none
write_free s id e l h = record {
  home_same = refl;
  ttl_same = refl;
  capacity_same = length-update_first s.slots id zero_entry;
  ledger = record {
    usable = store_usable-slots s _ (length-update_first s.slots id zero_entry) l.usable;
    distinct = update_first_free-Distinct s.slots id e zero_entry l.distinct h refl;
  };
  under = λ j. held-update_first_free s.slots id j e zero_entry l.distinct h refl;
}

write_none :
    (s : Store) (id : List ℕ)
    → IsLedger s
    → held s.slots id ≡ none
    → Holds s (record s { slots = update_first s.slots id zero_entry }) id none
write_none s id l h = rw (update_first-none s.slots id zero_entry h) (record {
  home_same = refl;
  ttl_same = refl;
  capacity_same = refl;
  ledger = l;
  under = λ j. ground (arith, eq_of_bytes_eq id j);
})

-- The entry that an operation leaves is in use, under the same id.
cell_keeps :
    (op : Op) (e v : Entry) (now : ℕ)
    → in_use e ≡ true
    → (cell op (some e) now).1 ≡ some v
    → (v.handshake_id ≡ e.handshake_id) × (in_use v ≡ true)
unfolding cell live
cell_keeps get_digest e v now u h = ground arith
cell_keeps record_failure e v now u h = ground arith
cell_keeps consume_success e v now u h = ground arith
cell_keeps cancel e v now u h = ground arith

write-Holds :
    (op : Op) (s : Store) (id : List ℕ) (now : ℕ)
    → IsLedger s
    → Holds s (write s id (cell op (held s.slots id) now)).1 id (cell op (held s.slots id) now).1
unfolding write cell
write-Holds op s id now l = elim (Option-cases (held s.slots id)) [
  | inl h ↦ rw h (write_none s id l h)
  | inr (e, h) ↦ rw h (elim (Option-cases (cell op (some e) now).1) [
    | inl n ↦ rw n (write_free s id e l h)
    | inr (v, k) ↦
        let (same, u) = held_id s.slots id e h in
        let (same', u') = cell_keeps op e v now u k in
        rw k (write_some s id e v l h (same' ∙ same) u')
  ])
]

-- Each of `get_digest`, `record_failure`, `consume_success` and `cancel` returns the status that
-- `cell` gives for the entry under its id, and leaves that entry as `cell` does and all others alone.
pub apply_refines :
    (op : Op) (s : Store) (id : List ℕ) (now : ℕ)
    → IsLedger s
    → ((apply op s id now).0 ≡ (cell op (held s.slots id) now).0)
      × Holds s (apply op s id now).1 id (cell op (held s.slots id) now).1
apply_refines op s id now l =
    rw (apply-eq-write op s id now l.usable) (unfold write in refl, write-Holds op s id now l)
