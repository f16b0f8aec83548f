-- ===== src/Pending/Insert.antt =====
-- `handshake_pending_sweep` and `handshake_pending_insert` of src/protocol/handshake.c against the
-- map from ids to entries.
use mldsa_auth.Base.{
  Bool-cases, List, Option, Option-cases, [], ap, arith, false, if◌then◌else◌, inl, inr, length,
  none, refl, some, some_inj, subst, suc, sym, true, ℕ, ◌∙◌, ◌∷◌, ◌≡◌,
}
use mldsa_auth.Base.Bytes.{bytes_eq, bytes_eq_refl, eq_of_bytes_eq}
use mldsa_auth.Pending.{
  Entry, Status, Store, active, entry_expired, find_slot, full, handshake_pending_insert,
  handshake_pending_sweep, in_use, insert_loop, invalid_arg, is_free, ok, saturating_deadline,
  store_usable, sweep_slots,
}
use mldsa_auth.Pending.Find.{Distinct, find_slot-Found, held}
use mldsa_auth.Pending.Refine.{Holds, IsLedger, store_usable-slots}

-- What a sweep at `now` leaves of an entry.
unfoldable pub surviving : Option Entry → ℕ → Option Entry
surviving none now = none
surviving (some e) now = if entry_expired e now then none else some e

held-sweep_slots :
    (es : List Entry) (now : ℕ) (j : List ℕ)
    → Distinct es
    → held (sweep_slots es now) j ≡ surviving (held es j) now
unfolding held sweep_slots surviving
held-sweep_slots [] now j d = refl
held-sweep_slots (e ∷ es) now j (d, ds) =
    ground (arith, d, held-sweep_slots es now j ds, eq_of_bytes_eq e.handshake_id j)

sweep_slots-Distinct : (es : List Entry) (now : ℕ) → Distinct es → Distinct (sweep_slots es now)
unfolding sweep_slots surviving
sweep_slots-Distinct [] now d = tt
sweep_slots-Distinct (e ∷ es) now (d, ds) =
    ground (arith, d, sweep_slots-Distinct es now ds, held-sweep_slots es now e.handshake_id ds)

length-sweep_slots : (es : List Entry) (now : ℕ) → length (sweep_slots es now) ≡ length es
unfolding sweep_slots
length-sweep_slots [] now = refl
length-sweep_slots (e ∷ es) now = ap suc (length-sweep_slots es now)

-- A sweep frees exactly the entries whose deadline has passed, and keeps the ledger.
pub sweep_refines :
    (s : Store) (now : ℕ)
    → IsLedger s
    → IsLedger (handshake_pending_sweep s now)
      × ((j : List ℕ)
          → held (handshake_pending_sweep s now).slots j ≡ surviving (held s.slots j) now)
unfolding handshake_pending_sweep
sweep_refines s now l = rw l.usable (
  record {
    usable = store_usable-slots s _ (length-sweep_slots s.slots now) l.usable;
    distinct = sweep_slots-Distinct s.slots now l.distinct;
  },
  λ j. held-sweep_slots s.slots now j l.distinct,
)

-- Every slot is in use.
abbrev pub AllInUse : List Entry → Type 0
AllInUse [] = Unit {0}
AllInUse (e ∷ es) = (in_use e ≡ true) × AllInUse es

insert_loop-none : (es : List Entry) (new : Entry) → insert_loop es new ≡ none → AllInUse es
unfolding insert_loop
insert_loop-none [] new h = tt
insert_loop-none (e ∷ es) new h = ground (arith, insert_loop-none es new)

-- The entry goes into a free slot.
record Inserted (es : List Entry) (new : Entry) (es' : List Entry) : Type 0 where
  size : length es' ≡ length es
  distinct : Distinct es'
  under : (j : List ℕ) → held es' j ≡ (if bytes_eq new.handshake_id j then some new else held es j)

insert_here :
    (x new : Entry) (es : List Entry)
    → Distinct (x ∷ es)
    → in_use new ≡ true
    → is_free x.state ≡ true
    → held es new.handshake_id ≡ none
    → Inserted (x ∷ es) new (new ∷ es)
unfolding held
insert_here x new es (d, ds) u f h = record {
  size = refl;
  distinct = ground arith;
  under = λ j. ground arith;
}

insert_later :
    (x new : Entry) (es r : List Entry)
    → Distinct (x ∷ es)
    → is_free x.state ≡ false
    → held (x ∷ es) new.handshake_id ≡ none
    → Inserted es new r
    → Inserted (x ∷ es) new (x ∷ r)
unfolding held
insert_later x new es r (d, ds) f h ih = record {
  size = ap suc ih.size;
  distinct = ground (
    arith,
    d,
    ih.distinct,
    ih.under x.handshake_id,
    eq_of_bytes_eq new.handshake_id x.handshake_id,
    bytes_eq_refl x.handshake_id,
  );
  under = λ j. ground (
    arith,
    ih.under j,
    eq_of_bytes_eq new.handshake_id j,
    eq_of_bytes_eq x.handshake_id j,
    bytes_eq_refl j,
  );
}

held_free :
    (x : Entry) (es : List Entry) (j : List ℕ)
    → is_free x.state ≡ true
    → held (x ∷ es) j ≡ held es j
unfolding held
held_free x es j f = rw f

held_used : (x : Entry) (es : List Entry) (j : List ℕ) → held (x ∷ es) j ≡ none → held es j ≡ none
unfolding held
held_used x es j h = ground arith

insert_loop-Inserted :
    (es : List Entry) (new : Entry) (es' : List Entry)
    → Distinct es
    → in_use new ≡ true
    → held es new.handshake_id ≡ none
    → insert_loop es new ≡ some es'
    → Inserted es new es'
unfolding insert_loop
insert_loop-Inserted [] new es' d u h e = cc
insert_loop-Inserted (x ∷ es) new es' d u h e = elim (Bool-cases (is_free x.state)) [
  | inl f ↦
      let here : new ∷ es ≡ es' = some_inj (rw f at e) in
      subst (Inserted (x ∷ es) new) here
        (insert_here x new es d u f (held_used x es new.handshake_id h))
  | inr f ↦ elim (Option-cases (insert_loop es new)) [
    | inl n ↦ absurd (cc (rw (f, n) at e))
    | inr (r, k) ↦
        let later : x ∷ r ≡ es' = some_inj (rw (f, k) at e) in
        subst (Inserted (x ∷ es) new) later (
          insert_later x new es r d f h
            (insert_loop-Inserted es new r d.1 u (held_used x es new.handshake_id h) k))
  ]
]

abbrev fresh_entry : Store → List ℕ → List ℕ → ℕ → Entry
fresh_entry s id th now = record {
  state = active;
  handshake_id = id;
  th_client_auth = th;
  deadline_ms = saturating_deadline now s.ttl_ms;
  failure_count = 0;
}

module _ (s : Store) (id th : List ℕ) (t₁ t₂ : ℕ) where
  abbrev swept_store : Store
  swept_store = handshake_pending_sweep s t₁

  insert_duplicate :
      store_usable s ≡ true
      → (find_slot swept_store id).0 ≡ true
      → handshake_pending_insert s id th t₁ t₂ ≡ (invalid_arg, swept_store)
  unfolding handshake_pending_insert
  insert_duplicate u f = rw (u, f)

  insert_full :
      store_usable s ≡ true
      → (find_slot swept_store id).0 ≡ false
      → insert_loop swept_store.slots (fresh_entry s id th t₂) ≡ none
      → handshake_pending_insert s id th t₁ t₂ ≡ (full, swept_store)
  unfolding handshake_pending_insert
  insert_full u f n = rw (u, f, n)

  insert_ok :
      (es : List Entry)
      → store_usable s ≡ true
      → (find_slot swept_store id).0 ≡ false
      → insert_loop swept_store.slots (fresh_entry s id th t₂) ≡ some es
      → handshake_pending_insert s id th t₁ t₂ ≡ (ok, record swept_store { slots = es })
  unfolding handshake_pending_insert
  insert_ok es u f k = rw (u, f, k)

-- The three outcomes of an insert into a usable store.
pub data Insertion (s : Store) (id th : List ℕ) (t₁ t₂ : ℕ) (r : Status × Store) : Type 0 where
  duplicate :
      (e : Entry)
      → surviving (held s.slots id) t₁ ≡ some e
      → r ≡ (invalid_arg, handshake_pending_sweep s t₁)
      → Insertion s id th t₁ t₂ r
  no_room :
      surviving (held s.slots id) t₁ ≡ none
      → AllInUse (handshake_pending_sweep s t₁).slots
      → r ≡ (full, handshake_pending_sweep s t₁)
      → Insertion s id th t₁ t₂ r
  inserted :
      surviving (held s.slots id) t₁ ≡ none
      → r.0 ≡ ok
      → Holds (handshake_pending_sweep s t₁) r.1 id (
          some (record {
            state = active;
            handshake_id = id;
            th_client_auth = th;
            deadline_ms = saturating_deadline t₂ s.ttl_ms;
            failure_count = 0;
          }))
      → Insertion s id th t₁ t₂ r

-- `handshake_pending_insert` refuses an id that is still held after the sweep, tombstones included;
-- it reports FULL only if every slot is held, and then evicts nothing; otherwise the new entry is
-- ACTIVE with no failure and its deadline, and all other entries are those that the sweep left.
pub insert_refines :
    (s : Store) (id th : List ℕ) (t₁ t₂ : ℕ)
    → IsLedger s
    → Insertion s id th t₁ t₂ (handshake_pending_insert s id th t₁ t₂)
insert_refines s id th t₁ t₂ l =
    let swept = handshake_pending_sweep s t₁ in
    let (l', after) = sweep_refines s t₁ l in
    let at : held swept.slots id ≡ surviving (held s.slots id) t₁ = after id in
    elim (find_slot-Found swept id) [
      | inl (h, f) ↦ elim (Option-cases (insert_loop swept.slots (fresh_entry s id th t₂))) [
        | inl n ↦
            no_room (sym at ∙ h) (insert_loop-none swept.slots (fresh_entry s id th t₂) n)
              (insert_full s id th t₁ t₂ l.usable f n)
        | inr (es, k) ↦
            let new =
              insert_loop-Inserted swept.slots (fresh_entry s id th t₂) es l'.distinct refl h k in
            rw (insert_ok s id th t₁ t₂ es l.usable f k) (
              inserted (sym at ∙ h) refl (record {
                home_same = refl;
                ttl_same = refl;
                capacity_same = new.size;
                ledger = record {
                  usable = store_usable-slots swept es new.size l'.usable;
                  distinct = new.distinct;
                };
                under = new.under;
              }))
      ]
      | inr (e, h, f, _, _) ↦ duplicate e (sym at ∙ h) (insert_duplicate s id th t₁ t₂ l.usable f)
    ]
