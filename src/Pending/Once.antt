-- ===== src/Pending/Once.antt =====
-- Replay protection and the failure limit of the ledger of src/protocol/handshake.c: what a
-- tombstone guarantees until its deadline.
use mldsa_auth.Base.{
  List, [], ap, arith, if◌then◌else◌, none, refl, replicate, some, sym, true, ℕ, ◌+◌, ◌-◌, ◌<◌,
  ◌||◌, ◌∙◌, ◌∷◌, ◌≡◌,
}
use mldsa_auth.Base.Bytes.{bytes_eq_refl, eq_of_bytes_eq}
use mldsa_auth.Pending.{
  Entry, Status, Store, active, auth_limit, auth_limited, consumed, err_consumed,
  handshake_auth_failure_limit, handshake_pending_consume_success, handshake_pending_insert,
  handshake_pending_record_failure, handshake_pending_sweep, in_use, invalid_arg, is_auth_limited,
  is_consumed, ok,
}
use mldsa_auth.Pending.Calls.{
  AllBefore, Before, Call, insert, on, run, run-IsLedger, step, step-IsLedger, sweep,
}
use mldsa_auth.Pending.Cell.{Op, apply, cell, consume_success, live, record_failure}
use mldsa_auth.Pending.Find.{held}
use mldsa_auth.Pending.Insert.{
  Insertion, duplicate, insert_refines, inserted, no_room, surviving, sweep_refines,
}
use mldsa_auth.Pending.Refine.{IsLedger, apply_refines}

abbrev pub IsTombstone : Entry → Type 0
IsTombstone e = (is_consumed e.state || is_auth_limited e.state) ≡ true

none-some : {e : Entry} → none ≡ some e → ⊥
none-some h = cc

-- The answer of every operation to a tombstone that has not expired.
abbrev pub refusal : Entry → Status
refusal e = if is_consumed e.state then err_consumed else auth_limit

cell_tombstone :
    (op : Op) (e : Entry) (now : ℕ)
    → IsTombstone e
    → now < e.deadline_ms
    → cell op (some e) now ≡ (refusal e, some e)
unfolding cell
cell_tombstone op e now t h = ground arith

tombstone-in_use : (e : Entry) → IsTombstone e → in_use e ≡ true
tombstone-in_use e t = ground arith

surviving_before : (e : Entry) (now : ℕ) → now < e.deadline_ms → surviving (some e) now ≡ some e
unfolding surviving
surviving_before e now h = ground arith

insert_keeps :
    (s : Store) (id j th : List ℕ) (t₁ t₂ : ℕ) (e : Entry) (r : Status × Store)
    → IsLedger s
    → held s.slots id ≡ some e
    → t₁ < e.deadline_ms
    → Insertion s j th t₁ t₂ r
    → held r.1.slots id ≡ some e
insert_keeps s id j th t₁ t₂ e r l h lt (duplicate x d q) =
    rw q ((sweep_refines s t₁ l).1 id ∙ ap (λ c. surviving c t₁) h ∙ surviving_before e t₁ lt)
insert_keeps s id j th t₁ t₂ e r l h lt (no_room d a q) =
    rw q ((sweep_refines s t₁ l).1 id ∙ ap (λ c. surviving c t₁) h ∙ surviving_before e t₁ lt)
insert_keeps s id j th t₁ t₂ e r l h lt (inserted d q k) =
    let swept : held (handshake_pending_sweep s t₁).slots id ≡ some e =
      (sweep_refines s t₁ l).1 id ∙ ap (λ c. surviving c t₁) h ∙ surviving_before e t₁ lt in
    ground (arith, k.under id, swept, d, h, eq_of_bytes_eq j id, surviving_before e t₁ lt)

step_keeps :
    (s : Store) (id : List ℕ) (e : Entry) (c : Call)
    → IsLedger s
    → held s.slots id ≡ some e
    → IsTombstone e
    → Before e.deadline_ms c
    → held (step s c).1.slots id ≡ some e
unfolding step
step_keeps s id e (on op j now) l h t b = ground (
  arith,
  (apply_refines op s j now l).1.under id,
  eq_of_bytes_eq j id,
  h,
  cell_tombstone op e now t b,
)
step_keeps s id e (insert j th t₁ t₂) l h t b =
    insert_keeps s id j th t₁ t₂ e _ l h b (insert_refines s j th t₁ t₂ l)
step_keeps s id e (sweep now) l h t b =
    (sweep_refines s now l).1 id ∙ ap (λ c. surviving c now) h ∙ surviving_before e now b

run_keeps :
    (s : Store) (id : List ℕ) (e : Entry) (cs : List Call)
    → IsLedger s
    → held s.slots id ≡ some e
    → IsTombstone e
    → AllBefore e.deadline_ms cs
    → held (run s cs).slots id ≡ some e
unfolding run
run_keeps s id e [] l h t b = h
run_keeps s id e (c ∷ cs) l h t b =
    run_keeps (step s c).1 id e cs (step-IsLedger s c l) (step_keeps s id e c l h t b.0) t b.1

-- A tombstone answers for itself after any calls, inserts of its own id included.
refused :
    (op : Op) (s : Store) (id : List ℕ) (e : Entry) (cs : List Call) (now : ℕ)
    → IsLedger s
    → held s.slots id ≡ some e
    → IsTombstone e
    → AllBefore e.deadline_ms cs
    → now < e.deadline_ms
    → (apply op (run s cs) id now).0 ≡ refusal e
refused op s id e cs now l h t b lt =
    (apply_refines op (run s cs) id now (run-IsLedger s cs l)).0
    ∙ ap (λ c. (cell op c now).0) (run_keeps s id e cs l h t b)
    ∙ ap (λ r. r.0) (cell_tombstone op e now t lt)

insert_refused :
    (s : Store) (id th : List ℕ) (t₁ t₂ : ℕ) (e : Entry) (r : Status × Store)
    → IsLedger s
    → held s.slots id ≡ some e
    → t₁ < e.deadline_ms
    → Insertion s id th t₁ t₂ r
    → r.0 ≡ invalid_arg
insert_refused s id th t₁ t₂ e r l h lt (duplicate x d q) = ap (λ p. p.0) q
insert_refused s id th t₁ t₂ e r l h lt (no_room d a q) =
    absurd (none-some (sym d ∙ ap (λ c. surviving c t₁) h ∙ surviving_before e t₁ lt))
insert_refused s id th t₁ t₂ e r l h lt (inserted d q k) =
    absurd (none-some (sym d ∙ ap (λ c. surviving c t₁) h ∙ surviving_before e t₁ lt))

cell-consume_ok :
    (e : Entry) (now : ℕ)
    → (cell consume_success (some e) now).0 ≡ ok
    → (now < e.deadline_ms)
      × ((cell consume_success (some e) now).1
          ≡ some (record e { state = consumed; th_client_auth = replicate 32 0 }))
unfolding cell live
cell-consume_ok e now h = ground arith

-- A handshake is consumed once. After a successful `consume_success`, and after whatever gets,
-- failures, consumes, cancels, inserts and sweeps follow (but no wipe and no init) whose clock
-- readings are before the entry's deadline, a get, a failure, a consume or a cancel of that id is
-- answered CONSUMED, and an insert of the id is refused.
pub consumed_once :
    (s : Store) (id th : List ℕ) (e : Entry) (t t₁ t₂ now : ℕ) (op : Op) (cs : List Call)
    → IsLedger s
    → held s.slots id ≡ some e
    → (handshake_pending_consume_success s id t).0 ≡ ok
    → AllBefore e.deadline_ms cs
    → now < e.deadline_ms
    → t₁ < e.deadline_ms
    → let later = run (handshake_pending_consume_success s id t).1 cs in
      ((apply op later id now).0 ≡ err_consumed)
      × ((handshake_pending_insert later id th t₁ t₂).0 ≡ invalid_arg)
unfolding apply
consumed_once s id th e t t₁ t₂ now op cs l h k b lt lt₁ =
    let (st, hs) = apply_refines consume_success s id t l in
    let spent : Entry = record e { state = consumed; th_client_auth = replicate 32 0 } in
    let done : (cell consume_success (some e) t).0 ≡ ok =
      ap (λ c. (cell consume_success c t).0) (sym h) ∙ sym st ∙ k in
    let left : held (handshake_pending_consume_success s id t).1.slots id ≡ some spent =
      ground (arith, hs.under id, bytes_eq_refl id, h, (cell-consume_ok e t done).1) in
    (
      refused op _ id spent cs now hs.ledger left refl b lt,
      insert_refused (run (handshake_pending_consume_success s id t).1 cs) id th t₁ t₂ spent _
          (run-IsLedger _ cs hs.ledger) (run_keeps _ id spent cs hs.ledger left refl b) lt₁
          (insert_refines _ id th t₁ t₂ (run-IsLedger _ cs hs.ledger)),
    )

cell-third_failure :
    (e : Entry) (now : ℕ)
    → e.state ≡ active
    → e.failure_count ≡ handshake_auth_failure_limit - 1
    → now < e.deadline_ms
    → cell record_failure (some e) now ≡ (
      auth_limit,
      some (record e { state = auth_limited; th_client_auth = replicate 32 0; failure_count = 3 }),
    )
unfolding cell live
cell-third_failure e now a f lt = ground arith

-- The third failure locks the handshake out. On an ACTIVE entry with two failures `record_failure`
-- answers AUTH_LIMIT; and after whatever gets, failures, consumes, cancels, inserts and sweeps
-- follow (but no wipe and no init) whose clock readings are before the entry's deadline, so does
-- each get, failure, consume or cancel of that id.
pub locked_out :
    (s : Store) (id : List ℕ) (e : Entry) (t now : ℕ) (op : Op) (cs : List Call)
    → IsLedger s
    → held s.slots id ≡ some e
    → e.state ≡ active
    → e.failure_count ≡ handshake_auth_failure_limit - 1
    → t < e.deadline_ms
    → AllBefore e.deadline_ms cs
    → now < e.deadline_ms
    → ((handshake_pending_record_failure s id t).0 ≡ auth_limit)
      × ((apply op (run (handshake_pending_record_failure s id t).1 cs) id now).0 ≡ auth_limit)
unfolding apply
locked_out s id e t now op cs l h a f lt b lt' =
    let (st, hs) = apply_refines record_failure s id t l in
    let locked : Entry = record e {
      state = auth_limited;
      th_client_auth = replicate 32 0;
      failure_count = 3;
    } in
    let third : cell record_failure (held s.slots id) t ≡ (auth_limit, some locked) =
      rw h (cell-third_failure e t a f lt) in
    let left : held (handshake_pending_record_failure s id t).1.slots id ≡ some locked =
      ground (arith, hs.under id, bytes_eq_refl id, third) in
    (st ∙ ap (λ r. r.0) third, refused op _ id locked cs now hs.ledger left refl b lt')

cell-early_failure :
    (e : Entry) (now : ℕ)
    → e.state ≡ active
    → e.failure_count + 1 < handshake_auth_failure_limit
    → now < e.deadline_ms
    → cell record_failure (some e) now
      ≡ (ok, some (record e { failure_count = e.failure_count + 1 }))
unfolding cell live
cell-early_failure e now a f lt = ground arith

-- Below the limit a failure is counted, and nothing else of the entry changes: its digest can still
-- be read, and its deadline is not extended.
pub early_failure :
    (s : Store) (id : List ℕ) (e : Entry) (t : ℕ)
    → IsLedger s
    → held s.slots id ≡ some e
    → e.state ≡ active
    → e.failure_count + 1 < handshake_auth_failure_limit
    → t < e.deadline_ms
    → ((handshake_pending_record_failure s id t).0 ≡ ok)
      × (held (handshake_pending_record_failure s id t).1.slots id
          ≡ some (record e { failure_count = e.failure_count + 1 }))
unfolding apply
early_failure s id e t l h a f lt =
    let (st, hs) = apply_refines record_failure s id t l in
    let counted : cell record_failure (held s.slots id) t
        ≡ (ok, some (record e { failure_count = e.failure_count + 1 })) =
      rw h (cell-early_failure e t a f lt) in
    (st ∙ ap (λ r. r.0) counted, ground (arith, hs.under id, bytes_eq_refl id, counted))
