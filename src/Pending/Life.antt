-- ===== src/Pending/Life.antt =====
-- A store of src/protocol/handshake.c over its whole life: the operations of the ledger, and the
-- wipe and the two inits that replace it.
use mldsa_auth.Base.{
  Bool, Bool-cases, List, [], ap, arith, false, inl, inr, leb, ltb, not, refl, sym, true, ℕ, ◌&&◌,
  ◌∙◌, ◌∷◌, ◌≡◌,
}
use mldsa_auth.Pending.{
  Home, Store, cap_limit_for, external, handshake_pending_cancel, handshake_pending_consume_success,
  handshake_pending_ext_max, handshake_pending_get_digest, handshake_pending_insert,
  handshake_pending_max, handshake_pending_record_failure, handshake_pending_store_init,
  handshake_pending_store_init_ext, handshake_pending_store_wipe, handshake_pending_sweep, inline,
  nowhere, store_init_common, store_usable,
}
use mldsa_auth.Pending.Calls.{
  Call, accepted, fresh_store-usable, insert, on, rejects, step, step-IsLedger, sweep,
  zero_slots-Distinct,
}
use mldsa_auth.Pending.Cell.{apply, cancel, consume_success, get_digest, record_failure}
use mldsa_auth.Pending.Find.{Distinct}

pub data StoreCall : Type 0 where
  ledger_call : Call → StoreCall
  wipe_call : StoreCall
  init_call : (capacity ttl_ms : ℕ) → StoreCall
  init_ext_call : (given : Bool) (capacity ttl_ms : ℕ) → StoreCall

unfoldable pub life_step : Store → StoreCall → Store
life_step s (ledger_call c) = (step s c).1
life_step s wipe_call = (handshake_pending_store_wipe s).0
life_step s (init_call capacity ttl_ms) = (handshake_pending_store_init capacity ttl_ms).1
life_step s (init_ext_call given capacity ttl_ms) =
    (handshake_pending_store_init_ext given capacity ttl_ms).1

unfoldable pub life : Store → List StoreCall → Store
life s [] = s
life s (c ∷ cs) = life (life_step s c) cs

-- Whether a call leaves the store in service: an operation of the ledger as it was, a wipe never,
-- and an init if its capacity is from 1 to the limit of the array and its ttl is not 0.
abbrev pub in_service : Bool → StoreCall → Bool
in_service before (ledger_call c) = before
in_service before wipe_call = false
in_service before (init_call capacity ttl_ms) =
    leb 1 capacity && leb capacity handshake_pending_max && ltb 0 ttl_ms
in_service before (init_ext_call given capacity ttl_ms) =
    given && leb 1 capacity && leb capacity handshake_pending_ext_max && ltb 0 ttl_ms

abbrev pub in_service_after : Bool → List StoreCall → Bool
in_service_after before [] = before
in_service_after before (c ∷ cs) = in_service_after (in_service before c) cs

-- An operation on a store that is not in service leaves it as it is.
unusable_step : (s : Store) (c : Call) → store_usable s ≡ false → (step s c).1 ≡ s
unfolding step apply handshake_pending_get_digest handshake_pending_record_failure
    handshake_pending_consume_success handshake_pending_cancel handshake_pending_insert
    handshake_pending_sweep
unusable_step s (on get_digest id now) h = rw h refl
unusable_step s (on record_failure id now) h = rw h refl
unusable_step s (on consume_success id now) h = rw h refl
unusable_step s (on cancel id now) h = rw h refl
unusable_step s (insert id th t₁ t₂) h = rw h refl
unusable_step s (sweep now) h = rw h refl

-- What a call leaves: no id twice, and the store in service as the call says.
abbrev Leaves : Store → Bool → Type 0
Leaves s service = Distinct s.slots × (store_usable s ≡ service)

init-Leaves :
    (home : Home) (capacity ttl_ms : ℕ)
    → Leaves (store_init_common home capacity ttl_ms).1 (not (rejects home capacity ttl_ms))
unfolding store_init_common store_usable
init-Leaves home capacity ttl_ms = elim (Bool-cases (rejects home capacity ttl_ms)) [
  | inl h ↦ rw h (tt, refl)
  | inr h ↦
      let (a, b, c, d) = accepted home capacity ttl_ms h in
      rw h (zero_slots-Distinct capacity, fresh_store-usable home capacity ttl_ms a b c d)
]

ledger-Leaves : (s : Store) (c : Call) → Distinct s.slots → Leaves (step s c).1 (store_usable s)
ledger-Leaves s c d = elim (Bool-cases (store_usable s)) [
  | inl h ↦
      let l = step-IsLedger s c (record { usable = h; distinct = d }) in
      (l.distinct, l.usable ∙ sym h)
  | inr h ↦ rw (unusable_step s c h) (d, refl)
]

step-Leaves :
    (s : Store) (c : StoreCall)
    → Distinct s.slots
    → Leaves (life_step s c) (in_service (store_usable s) c)
unfolding life_step handshake_pending_store_wipe handshake_pending_store_init
    handshake_pending_store_init_ext store_usable cap_limit_for store_init_common
step-Leaves s (ledger_call c) d = ledger-Leaves s c d
step-Leaves s wipe_call d = (tt, refl)
step-Leaves s (init_call capacity ttl_ms) d =
    let (e, u) = init-Leaves inline capacity ttl_ms in (e, u ∙ ground arith)
step-Leaves s (init_ext_call true capacity ttl_ms) d =
    let (e, u) = init-Leaves external capacity ttl_ms in (e, u ∙ ground arith)
step-Leaves s (init_ext_call false capacity ttl_ms) d =
    let (e, u) = init-Leaves nowhere capacity ttl_ms in (e, u ∙ refl)

-- Over its whole life, wipes and re-inits included, a store never has one handshake id in two
-- slots; and it is in service exactly if the last wipe or init left it so, or, with neither among
-- the calls, if it was at first.
pub life_in_order :
    (s : Store) (cs : List StoreCall)
    → Distinct s.slots
    → Distinct (life s cs).slots × (store_usable (life s cs) ≡ in_service_after (store_usable s) cs)
unfolding life
life_in_order s [] d = (d, refl)
life_in_order s (c ∷ cs) d =
    let (d', u) = step-Leaves s c d in
    let (e, v) = life_in_order (life_step s c) cs d' in (e, v ∙ ap (λ b. in_service_after b cs) u)
