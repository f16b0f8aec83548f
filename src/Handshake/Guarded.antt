-- ===== src/Handshake/Guarded.antt =====
-- Sequences of calls of src/protocol/handshake.c: where committed keys can be.
use mldsa_auth.Base.{
  List, [], ap, arith, false, if◌then◌else◌, inl, inr, refl, subst, sym, true, ℕ, ◌==◌, ◌∙◌, ◌∷◌,
  ◌≡◌, ◌≢◌, ◌⊎◌,
}
use mldsa_auth.Handshake.{
  Ctx, Primitives, State, Status, check_call, client_auth_created, client_auth_verified,
  client_hello_accepted, client_hello_created, established, failed, new, server_hello_created,
  server_hello_verified, state_code,
}
use mldsa_auth.Handshake.Machine.{
  HandshakeCall, call_from, call_next, call_role, calls_accept_client_hello,
  calls_create_client_auth, calls_create_client_hello, calls_create_server_hello,
  calls_initiator_finish, calls_responder_finish, calls_verify_client_auth,
  calls_verify_server_hello, handshake_apply, handshake_apply-Ends,
}
use mldsa_auth.Handshake.Outcomes.{EndsIn, HoldsKeys, advanced, gave_up, refused}
use mldsa_auth.Pending.{Store}
use mldsa_auth.Session.{Role}

-- A context keeps no committed key outside the states that may hold them.
abbrev pub IsGuarded : Ctx → Type 0
IsGuarded ctx = (ctx.keys_committed ≡ false) ⊎ HoldsKeys ctx.state

of_code : ℕ → State
of_code n =
    if n == 0
    then new
    else if n == 1
    then client_hello_created
    else if n == 2
    then server_hello_verified
    else if n == 3
    then client_auth_created
    else if n == 4
    then client_hello_accepted
    else if n == 5
    then server_hello_created
    else if n == 6
    then client_auth_verified
    else if n == 7
    then established
    else failed

of_state_code : (st : State) → of_code (state_code st) ≡ st
unfolding of_code
of_state_code new = refl
of_state_code client_hello_created = refl
of_state_code server_hello_verified = refl
of_state_code client_auth_created = refl
of_state_code client_hello_accepted = refl
of_state_code server_hello_created = refl
of_state_code client_auth_verified = refl
of_state_code established = refl
of_state_code failed = refl

-- A call goes through only in its own state.
check_call_state :
    (ctx : Ctx) (role : Role) (st : State) → check_call ctx role st ≡ true → ctx.state ≡ st
unfolding check_call
check_call_state ctx role st h =
    let same : state_code ctx.state ≡ state_code st = ground (arith, h) in
    sym (of_state_code ctx.state) ∙ ap of_code same ∙ of_state_code st

IsGuarded-step :
    (ctx : Ctx) (role : Role) (from next : State) (r : Status × Ctx × Store)
    → (HoldsKeys from → HoldsKeys next)
    → EndsIn ctx role from next r
    → IsGuarded ctx
    → IsGuarded r.1
IsGuarded-step ctx role from next r onto (refused a b d e) (inl g) = inl (d ∙ g)
IsGuarded-step ctx role from next r onto (refused a b d e) (inr (inl g)) = inr (inl (b ∙ g))
IsGuarded-step ctx role from next r onto (refused a b d e) (inr (inr g)) = inr (inr (b ∙ g))
IsGuarded-step ctx role from next r onto (advanced a b d (inl (inl e))) g = inr (inl (d ∙ e))
IsGuarded-step ctx role from next r onto (advanced a b d (inl (inr e))) g = inr (inr (d ∙ e))
IsGuarded-step ctx role from next r onto (advanced a b d (inr e)) (inl g) = inl (e ∙ g)
IsGuarded-step ctx role from next r onto (advanced a b d (inr e)) (inr g) =
    let at : ctx.state ≡ from = check_call_state ctx role from b in
    inr (subst HoldsKeys (sym d) (onto (subst HoldsKeys at g)))
IsGuarded-step ctx role from next r onto (gave_up a b) g = inl b.committed

onward : (call : HandshakeCall) → HoldsKeys (call_from call) → HoldsKeys (call_next call)
onward (calls_create_client_hello env room) (inl h) = absurd (cc)
onward (calls_create_client_hello env room) (inr h) = absurd (cc)
onward (calls_verify_server_hello env sh) (inl h) = absurd (cc)
onward (calls_verify_server_hello env sh) (inr h) = absurd (cc)
onward (calls_create_client_auth env room) (inl h) = absurd (cc)
onward (calls_create_client_auth env room) (inr h) = absurd (cc)
onward (calls_initiator_finish env) h = inr refl
onward (calls_accept_client_hello ch) (inl h) = absurd (cc)
onward (calls_accept_client_hello ch) (inr h) = absurd (cc)
onward (calls_create_server_hello env room) (inl h) = absurd (cc)
onward (calls_create_server_hello env room) (inr h) = absurd (cc)
onward (calls_verify_client_auth env ca) h = inl refl
onward calls_responder_finish h = inr refl

module _ (p : Primitives) where
  pub handshake_run : Ctx → Store → List HandshakeCall → Ctx
  handshake_run ctx pending [] = ctx
  handshake_run ctx pending (call ∷ calls) =
      let r = handshake_apply p ctx pending call in handshake_run r.1 r.2 calls

  -- From a context whose state and keys are in order, no sequence of calls of either role, on
  -- whatever ledger, leads to committed keys outside CLIENT_AUTH_VERIFIED and ESTABLISHED.
  pub handshake_run-IsGuarded :
      (ctx : Ctx) (pending : Store) (calls : List HandshakeCall)
      → IsGuarded ctx
      → IsGuarded (handshake_run ctx pending calls)
  unfolding handshake_run
  handshake_run-IsGuarded ctx pending [] g = g
  handshake_run-IsGuarded ctx pending (call ∷ calls) g =
      let r = handshake_apply p ctx pending call in
      handshake_run-IsGuarded r.1 r.2 calls (
        IsGuarded-step ctx (call_role call) (call_from call) (call_next call) r (onward call)
          (handshake_apply-Ends p ctx pending call) g)

  never_failed : (call : HandshakeCall) → call_from call ≢ failed
  never_failed (calls_create_client_hello env room) h = absurd (cc)
  never_failed (calls_verify_server_hello env sh) h = absurd (cc)
  never_failed (calls_create_client_auth env room) h = absurd (cc)
  never_failed (calls_initiator_finish env) h = absurd (cc)
  never_failed (calls_accept_client_hello ch) h = absurd (cc)
  never_failed (calls_create_server_hello env room) h = absurd (cc)
  never_failed (calls_verify_client_auth env ca) h = absurd (cc)
  never_failed calls_responder_finish h = absurd (cc)

  failed_step :
      (ctx : Ctx) (call : HandshakeCall) (r : Status × Ctx × Store)
      → EndsIn ctx (call_role call) (call_from call) (call_next call) r
      → ctx.state ≡ failed
      → ctx.keys_committed ≡ false
      → (r.1.state ≡ failed) × (r.1.keys_committed ≡ false)
  failed_step ctx call r (refused a b d e) h k = (b ∙ h, d ∙ k)
  failed_step ctx call r (gave_up a b) h k = (b.state, b.committed)
  failed_step ctx call r (advanced a b d e) h k =
      absurd (never_failed call (sym (check_call_state ctx _ (call_from call) b) ∙ h))

  -- A failed context stays failed and without committed keys, whatever is called on it.
  pub failed_forever :
      (ctx : Ctx) (pending : Store) (calls : List HandshakeCall)
      → ctx.state ≡ failed
      → ctx.keys_committed ≡ false
      → ((handshake_run ctx pending calls).state ≡ failed)
        × ((handshake_run ctx pending calls).keys_committed ≡ false)
  unfolding handshake_run
  failed_forever ctx pending [] h k = (h, k)
  failed_forever ctx pending (call ∷ calls) h k =
      let r = handshake_apply p ctx pending call in
      let (h', k') = failed_step ctx call r (handshake_apply-Ends p ctx pending call) h k in
      failed_forever r.1 r.2 calls h' k'
