-- ===== src/Handshake/Machine.antt =====
-- The calls of src/protocol/handshake.c on one context as a state machine: both roles, in any order.
use mldsa_auth.Base.{List, ℕ}
use mldsa_auth.Handshake.{
  Ctx, Env, Primitives, State, Status, client_auth_created, client_auth_verified,
  client_hello_accepted, client_hello_created, established, new, server_hello_created,
  server_hello_verified,
}
use mldsa_auth.Handshake.Initiator.{
  handshake_initiator_create_client_auth, handshake_initiator_create_client_hello,
  handshake_initiator_finish, handshake_initiator_verify_server_hello,
}
use mldsa_auth.Handshake.InitiatorEnds.{
  create_client_auth-Ends, create_client_hello-Ends, initiator_finish-Ends,
  verify_server_hello-Ends,
}
use mldsa_auth.Handshake.Outcomes.{Ends, EndsIn, advanced, gave_up, refused}
use mldsa_auth.Handshake.Responder.{
  handshake_responder_accept_client_hello, handshake_responder_create_server_hello,
  handshake_responder_finish, handshake_responder_verify_client_auth,
}
use mldsa_auth.Handshake.ResponderEnds.{
  accept_client_hello-Ends, responder_finish-Ends, verify_client_auth-Ends,
}
use mldsa_auth.Handshake.ServerHelloEnds.{create_server_hello-Ends}
use mldsa_auth.Pending.{Store}
use mldsa_auth.Session.{Role, initiator, responder}

-- A call with its arguments; the context and the ledger are those of the run.
pub data HandshakeCall : Type 0 where
  calls_create_client_hello : Env → ℕ → HandshakeCall
  calls_verify_server_hello : Env → List ℕ → HandshakeCall
  calls_create_client_auth : Env → ℕ → HandshakeCall
  calls_initiator_finish : Env → HandshakeCall
  calls_accept_client_hello : List ℕ → HandshakeCall
  calls_create_server_hello : Env → ℕ → HandshakeCall
  calls_verify_client_auth : Env → List ℕ → HandshakeCall
  calls_responder_finish : HandshakeCall

-- Whose call it is.
abbrev pub call_role : HandshakeCall → Role
call_role (calls_create_client_hello env room) = initiator
call_role (calls_verify_server_hello env sh) = initiator
call_role (calls_create_client_auth env room) = initiator
call_role (calls_initiator_finish env) = initiator
call_role (calls_accept_client_hello ch) = responder
call_role (calls_create_server_hello env room) = responder
call_role (calls_verify_client_auth env ca) = responder
call_role calls_responder_finish = responder

-- The state that it is made in.
abbrev pub call_from : HandshakeCall → State
call_from (calls_create_client_hello env room) = new
call_from (calls_verify_server_hello env sh) = client_hello_created
call_from (calls_create_client_auth env room) = server_hello_verified
call_from (calls_initiator_finish env) = client_auth_created
call_from (calls_accept_client_hello ch) = new
call_from (calls_create_server_hello env room) = client_hello_accepted
call_from (calls_verify_client_auth env ca) = server_hello_created
call_from calls_responder_finish = client_auth_verified

-- The state that it leads to.
abbrev pub call_next : HandshakeCall → State
call_next (calls_create_client_hello env room) = client_hello_created
call_next (calls_verify_server_hello env sh) = server_hello_verified
call_next (calls_create_client_auth env room) = client_auth_created
call_next (calls_initiator_finish env) = established
call_next (calls_accept_client_hello ch) = client_hello_accepted
call_next (calls_create_server_hello env room) = server_hello_created
call_next (calls_verify_client_auth env ca) = client_auth_verified
call_next calls_responder_finish = established

-- The result of a call among those that change the ledger.
in_machine :
    {R : Type 0} (s : R → Status) (c : R → Ctx) (ctx : Ctx) (role : Role) (from next : State)
    (r : R) (w : Store)
    → Ends s c ctx role from next r
    → EndsIn ctx role from next (s r, c r, w)
in_machine s c ctx role from next r w (refused a b d e) = refused a b d e
in_machine s c ctx role from next r w (advanced a b d e) = advanced a b d e
in_machine s c ctx role from next r w (gave_up a b) = gave_up a b

module _ (p : Primitives) where
  pub handshake_apply : Ctx → Store → HandshakeCall → Status × Ctx × Store
  handshake_apply ctx pending (calls_create_client_hello env room) =
      let r = handshake_initiator_create_client_hello p ctx env room in (r.0, r.1, pending)
  handshake_apply ctx pending (calls_verify_server_hello env sh) =
      let r = handshake_initiator_verify_server_hello p ctx env sh in (r.0, r.1, pending)
  handshake_apply ctx pending (calls_create_client_auth env room) =
      let r = handshake_initiator_create_client_auth p ctx env room in (r.0, r.1, pending)
  handshake_apply ctx pending (calls_initiator_finish env) =
      let r = handshake_initiator_finish p ctx env in (r.0, r.1, pending)
  handshake_apply ctx pending (calls_accept_client_hello ch) =
      let r = handshake_responder_accept_client_hello p ctx ch in (r.0, r.1, pending)
  handshake_apply ctx pending (calls_create_server_hello env room) =
      let r = handshake_responder_create_server_hello p ctx pending env room in (r.0, r.1, r.2)
  handshake_apply ctx pending (calls_verify_client_auth env ca) =
      handshake_responder_verify_client_auth p ctx pending env ca
  handshake_apply ctx pending calls_responder_finish =
      let r = handshake_responder_finish p ctx in (r.0, r.1, pending)

  -- Every call of either role, on any context and ledger, refuses and leaves the state and the keys as
  -- they were; or succeeds, from the one state that it is made in and on a context of its role, leads
  -- to the next state, and commits keys only if that is CLIENT_AUTH_VERIFIED or ESTABLISHED; or fails,
  -- reports no success, and leaves no secret and no committed key in the context.
  pub handshake_apply-Ends :
      (ctx : Ctx) (pending : Store) (call : HandshakeCall)
      → EndsIn ctx
          (call_role call)
          (call_from call)
          (call_next call)
          (handshake_apply ctx pending call)
  unfolding handshake_apply
  handshake_apply-Ends ctx pending (calls_create_client_hello env room) =
      in_machine _ _ ctx _ _ _ _ pending (create_client_hello-Ends p ctx env room)
  handshake_apply-Ends ctx pending (calls_verify_server_hello env sh) =
      in_machine _ _ ctx _ _ _ _ pending (verify_server_hello-Ends p ctx env sh)
  handshake_apply-Ends ctx pending (calls_create_client_auth env room) =
      in_machine _ _ ctx _ _ _ _ pending (create_client_auth-Ends p ctx env room)
  handshake_apply-Ends ctx pending (calls_initiator_finish env) =
      in_machine _ _ ctx _ _ _ _ pending (initiator_finish-Ends p ctx env)
  handshake_apply-Ends ctx pending (calls_accept_client_hello ch) =
      in_machine _ _ ctx _ _ _ _ pending (accept_client_hello-Ends p ctx ch)
  handshake_apply-Ends ctx pending (calls_create_server_hello env room) =
      in_machine _ _ ctx _ _ _ _ _ (create_server_hello-Ends p ctx pending env room)
  handshake_apply-Ends ctx pending (calls_verify_client_auth env ca) =
      verify_client_auth-Ends p ctx pending env ca
  handshake_apply-Ends ctx pending calls_responder_finish =
      in_machine _ _ ctx _ _ _ _ pending (responder_finish-Ends p ctx)
