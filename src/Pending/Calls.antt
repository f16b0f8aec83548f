-- ===== src/Pending/Calls.antt =====
-- Sequences of calls on the ledger of src/protocol/handshake.c.
use mldsa_auth.Base.{
  Bool, Bool-cases, List, [], arith, false, inl, inr, length-replicate, le→leb, ltb, lt→ltb, none,
  not, refl, replicate, suc, true, zero, ℕ, ◌<◌, ◌==◌, ◌||◌, ◌∷◌, ◌≡◌, ◌≤◌, ◌⊎◌,
}
use mldsa_auth.Pending.{
  Home, Status, Store, cap_limit_for, handshake_pending_insert, handshake_pending_sweep,
  invalid_arg, ok, points_somewhere, store_init_common, store_usable, zero_entry,
}
use mldsa_auth.Pending.Cell.{Op, apply}
use mldsa_auth.Pending.Find.{Distinct, held}
use mldsa_auth.Pending.Insert.{
  Insertion, duplicate, insert_refines, inserted, no_room, sweep_refines,
}
use mldsa_auth.Pending.Refine.{IsLedger, apply_refines}

-- A call on a ledger in service, with what it is given and the clock readings that it makes; the
-- wipe and the inits, which replace the store, are not among them.
pub data Call : Type 0 where
  on : Op → List ℕ → ℕ → Call
  insert : List ℕ → List ℕ → ℕ → ℕ → Call
  sweep : ℕ → Call

unfoldable pub step : Store → Call → Status × Store
step s (on op id now) = apply op s id now
step s (insert id th t₁ t₂) = handshake_pending_insert s id th t₁ t₂
step s (sweep now) = (ok, handshake_pending_sweep s now)

unfoldable pub run : Store → List Call → Store
unfolding step
run s [] = s
run s (c ∷ cs) = run (step s c).1 cs

-- The clock readings that decide on expiry are below a time.
abbrev pub Before : ℕ → Call → Type 0
Before d (on op id now) = now < d
Before d (insert id th t₁ t₂) = t₁ < d
Before d (sweep now) = now < d

abbrev pub AllBefore : ℕ → List Call → Type 0
AllBefore d [] = Unit {0}
AllBefore d (c ∷ cs) = Before d c × AllBefore d cs

insert-IsLedger :
    (s : Store) (id th : List ℕ) (t₁ t₂ : ℕ) (r : Status × Store)
    → IsLedger s
    → Insertion s id th t₁ t₂ r
    → IsLedger r.1
insert-IsLedger s id th t₁ t₂ r l (duplicate e h q) = rw q (sweep_refines s t₁ l).0
insert-IsLedger s id th t₁ t₂ r l (no_room h a q) = rw q (sweep_refines s t₁ l).0
insert-IsLedger s id th t₁ t₂ r l (inserted h q k) = k.ledger

pub step-IsLedger : (s : Store) (c : Call) → IsLedger s → IsLedger (step s c).1
unfolding step
step-IsLedger s (on op id now) l = (apply_refines op s id now l).1.ledger
step-IsLedger s (insert id th t₁ t₂) l =
    insert-IsLedger s id th t₁ t₂ _ l (insert_refines s id th t₁ t₂ l)
step-IsLedger s (sweep now) l = (sweep_refines s now l).0

-- No sequence of these calls puts one handshake id into two slots, or makes the store unusable.
pub run-IsLedger : (s : Store) (cs : List Call) → IsLedger s → IsLedger (run s cs)
unfolding run
run-IsLedger s [] l = l
run-IsLedger s (c ∷ cs) l = run-IsLedger (step s c).1 cs (step-IsLedger s c l)

pub zero_slots-Distinct : (n : ℕ) → Distinct (replicate n zero_entry)
unfolding replicate
zero_slots-Distinct zero = tt
zero_slots-Distinct (suc n) = (λ h. cc, zero_slots-Distinct n)

zero_slots-held : (n : ℕ) (id : List ℕ) → held (replicate n zero_entry) id ≡ none
unfolding replicate held
zero_slots-held zero id = refl
zero_slots-held (suc n) id = zero_slots-held n id

abbrev fresh_store : Home → ℕ → ℕ → Store
fresh_store home capacity ttl_ms = record {
  home = home;
  slots = replicate capacity zero_entry;
  ttl_ms = ttl_ms;
  has_clock = true;
}

pub fresh_store-usable :
    (home : Home) (capacity ttl_ms : ℕ)
    → points_somewhere home ≡ true
    → 1 ≤ capacity
    → capacity ≤ cap_limit_for home
    → 0 < ttl_ms
    → store_usable (fresh_store home capacity ttl_ms) ≡ true
unfolding store_usable
fresh_store-usable home capacity ttl_ms p a b c = rw (
  length-replicate capacity zero_entry,
  p,
  le→leb 1 capacity a,
  le→leb capacity _ b,
  lt→ltb 0 ttl_ms c,
)

abbrev pub rejects : Home → ℕ → ℕ → Bool
rejects home capacity ttl_ms =
    not (points_somewhere home)
    || ltb capacity 1
    || ltb (cap_limit_for home) capacity
    || (ttl_ms == 0)

pub accepted :
    (home : Home) (capacity ttl_ms : ℕ)
    → rejects home capacity ttl_ms ≡ false
    → (points_somewhere home ≡ true)
      × (1 ≤ capacity)
      × (capacity ≤ cap_limit_for home)
      × (0 < ttl_ms)
accepted home capacity ttl_ms h = ground arith

rejected :
    (home : Home) (capacity ttl_ms : ℕ)
    → rejects home capacity ttl_ms ≡ true
    → (points_somewhere home ≡ false)
      ⊎ ((capacity < 1) ⊎ ((cap_limit_for home < capacity) ⊎ (ttl_ms ≡ 0)))
rejected home capacity ttl_ms h = ground arith

-- Both inits come down to `store_init_common`, which accepts exactly an array with a capacity from 1
-- to the array's limit and a ttl above 0, and then leaves an empty ledger; whatever it refuses
-- leaves a store that no operation accepts.
store_init_cases :
    (home : Home) (capacity ttl_ms : ℕ)
    → let r = store_init_common home capacity ttl_ms in
      ((r.0 ≡ ok)
        × (points_somewhere home ≡ true)
        × (1 ≤ capacity)
        × (capacity ≤ cap_limit_for home)
        × (0 < ttl_ms)
        × IsLedger r.1
        × ((id : List ℕ) → held r.1.slots id ≡ none))
      ⊎ ((r.0 ≡ invalid_arg)
          × (store_usable r.1 ≡ false)
          × ((points_somewhere home ≡ false)
              ⊎ ((capacity < 1) ⊎ ((cap_limit_for home < capacity) ⊎ (ttl_ms ≡ 0)))))
unfolding store_init_common store_usable
store_init_cases home capacity ttl_ms = elim (Bool-cases (rejects home capacity ttl_ms)) [
  | inl h ↦ rw h (inr (refl, refl, rejected home capacity ttl_ms h))
  | inr h ↦
      let (a, b, c, d) = accepted home capacity ttl_ms h in
      rw h (
        inl (
          refl,
          a,
          b,
          c,
          d,
          record {
            usable = fresh_store-usable home capacity ttl_ms a b c d;
            distinct = zero_slots-Distinct capacity;
          },
          zero_slots-held capacity,
        ))
]
