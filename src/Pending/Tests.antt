-- ===== src/Pending/Tests.antt =====
-- Concrete runs of the ledger of src/protocol/handshake.c, and its theorems at concrete inputs.
use mldsa_auth.Base.{List, [], arith, refl, some, true, ℕ, ◌∷◌, ◌≡◌}
use mldsa_auth.Base.Bytes.{bytes_eq}
use mldsa_auth.Pending.{
  Entry, Store, active, auth_limit, count_loop, err_consumed, err_expired, find_slot, free_slot,
  handshake_pending_active_count, handshake_pending_consume_success, handshake_pending_insert,
  handshake_pending_record_failure, handshake_pending_sweep, inline, insert_loop, invalid_arg, ok,
  put_slot, slot_at, store_usable, sweep_slots, zero_entry,
}
use mldsa_auth.Pending.Calls.{Call, insert, on, run, sweep}
use mldsa_auth.Pending.Cell.{apply, cancel, cell, consume_success, get_digest}
use mldsa_auth.Pending.Find.{Distinct, held}
use mldsa_auth.Pending.Insert.{Insertion, insert_refines}
use mldsa_auth.Pending.Life.{StoreCall, init_ext_call, ledger_call, life, life_in_order, wipe_call}
use mldsa_auth.Pending.Once.{consumed_once, locked_out}
use mldsa_auth.Pending.Refine.{Holds, IsLedger, apply_refines}

abbrev first_id : List ℕ
first_id = 1 ∷ 2 ∷ []

abbrev second_id : List ℕ
second_id = 1 ∷ 3 ∷ []

abbrev waiting : Entry
waiting = record {
  state = active;
  handshake_id = first_id;
  th_client_auth = 9 ∷ [];
  deadline_ms = 100;
  failure_count = 2;
}

abbrev two_slots : Store
two_slots = record {
  home = inline;
  slots = zero_entry ∷ waiting ∷ [];
  ttl_ms = 30;
  has_clock = true;
}

two_slots-IsLedger : IsLedger two_slots
unfolding store_usable held
two_slots-IsLedger = record { usable = refl; distinct = (λ h. cc, (λ h. refl, tt)) }

waiting-held : held two_slots.slots first_id ≡ some waiting
unfolding held bytes_eq
waiting-held = refl

consume_run : (handshake_pending_consume_success two_slots first_id 50).0 ≡ ok
unfolding handshake_pending_consume_success store_usable find_slot slot_at bytes_eq
consume_run = refl

-- At the deadline itself the entry has expired, and its slot is freed.
expired_run :
    handshake_pending_consume_success two_slots first_id 100
    ≡ (err_expired, record two_slots { slots = zero_entry ∷ zero_entry ∷ [] })
unfolding handshake_pending_consume_success store_usable find_slot slot_at bytes_eq put_slot
    free_slot
expired_run = refl

insert_run : (handshake_pending_insert two_slots second_id (7 ∷ []) 10 20).0 ≡ ok
unfolding handshake_pending_insert handshake_pending_sweep sweep_slots find_slot insert_loop
    bytes_eq
insert_run = refl

count_run : handshake_pending_active_count two_slots 99 ≡ 1
unfolding handshake_pending_active_count count_loop store_usable
count_run = refl

apply_refines_example :
    ((apply cancel two_slots first_id 50).0 ≡ (cell cancel (held two_slots.slots first_id) 50).0)
    × Holds two_slots
        (apply cancel two_slots first_id 50).1
        first_id
        (cell cancel (held two_slots.slots first_id) 50).1
apply_refines_example = apply_refines cancel two_slots first_id 50 two_slots-IsLedger

insert_refines_example :
    Insertion two_slots second_id
      (7 ∷ [])
      10
      20
      (handshake_pending_insert two_slots second_id (7 ∷ []) 10 20)
insert_refines_example = insert_refines two_slots second_id (7 ∷ []) 10 20 two_slots-IsLedger

abbrev traffic : List Call
traffic = on get_digest second_id 51 ∷ insert first_id [] 52 53 ∷ sweep 60 ∷ []

abbrev long_life : List StoreCall
long_life =
    ledger_call (insert first_id [] 52 53)
    ∷ wipe_call
    ∷ init_ext_call true 300 40
    ∷ ledger_call (insert second_id [] 62 63)
    ∷ []

life_in_order_example :
    Distinct (life two_slots long_life).slots × (store_usable (life two_slots long_life) ≡ true)
life_in_order_example = life_in_order two_slots long_life two_slots-IsLedger.distinct

consumed_once_example :
    let later = run (handshake_pending_consume_success two_slots first_id 50).1 traffic in
    ((apply consume_success later first_id 70).0 ≡ err_consumed)
    × ((handshake_pending_insert later first_id [] 71 72).0 ≡ invalid_arg)
consumed_once_example =
    consumed_once two_slots first_id [] waiting 50 71 72 70 consume_success traffic
      two_slots-IsLedger waiting-held consume_run (omega arith) (omega arith) (omega arith)

locked_out_example :
    ((handshake_pending_record_failure two_slots first_id 50).0 ≡ auth_limit)
    × ((apply get_digest
          (run (handshake_pending_record_failure two_slots first_id 50).1 traffic)
          first_id
          70).0
        ≡ auth_limit)
locked_out_example =
    locked_out two_slots first_id waiting 50 70 get_digest traffic two_slots-IsLedger waiting-held
      refl refl (omega arith) (omega arith) (omega arith)

abbrev young : Entry
young = record waiting { failure_count = 0 }

abbrev one_slot : Store
one_slot = record two_slots { slots = young ∷ [] }

one_slot-IsLedger : IsLedger one_slot
unfolding store_usable held
one_slot-IsLedger = record { usable = refl; distinct = (λ h. refl, tt) }

young-held : held one_slot.slots first_id ≡ some young
unfolding held bytes_eq
young-held = refl
