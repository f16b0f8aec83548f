-- ===== src/Handshake/Authentic.antt =====
-- What the two verifying calls of src/protocol/handshake.c have checked when they report success.
use mldsa_auth.Pending
use mldsa_auth.Base.{
  Bool-cases, List, Option-cases, ap, arith, inl, inr, refl, some, take, true, ℕ, ◌≡◌,
}
use mldsa_auth.Base.Bytes.{bytes_eq, eq_of_bytes_eq}
use mldsa_auth.Crypto.Kex.{kex_shared_secret}
use mldsa_auth.Crypto.Mldsa.{mldsa_verify}
use mldsa_auth.Handshake.{
  Ctx, Env, Primitives, derive_traffic_keys, fail_ctx, map_pending_failure, ok, pending_ok,
  resolve_peer_pk, verify_with,
}
use mldsa_auth.Handshake.Initiator.{handshake_initiator_verify_server_hello}
use mldsa_auth.Handshake.Responder.{
  cancel_and_fail, client_auth_commit, client_auth_keys, handshake_responder_verify_client_auth,
}
use mldsa_auth.Pending.{
  Store, handshake_pending_consume_success, handshake_pending_get_digest,
  handshake_pending_record_failure,
}
use mldsa_auth.Transcript.{transcript_hash_server_auth}
use mldsa_auth.Wire.{
  ClientAuth, ServerHello, decode_client_auth, decode_server_hello,
  transcript_server_hello_unsigned_len,
}

-- A ServerHello that the initiator takes is signed by the key pinned for the peer that it dialed.
pub record ServerAuthentic (p : Primitives) (ctx : Ctx) (sh : List ℕ) : Type 0 where
  pub msg : ServerHello
  pub taken : ℕ
  pub pk : List ℕ
  pub digest : List ℕ
  pub decoded : decode_server_hello sh ≡ some (msg, taken)
  pub peer : take ctx.peer_id_len msg.id ≡ take ctx.peer_id_len ctx.peer_id
  pub peer_len : msg.id_len ≡ ctx.peer_id_len
  pub pinned : resolve_peer_pk ctx (take msg.id_len msg.id) ≡ some pk
  pub echo : msg.session_id_echo ≡ ctx.session_id
  pub hashed :
      transcript_hash_server_auth p.sha ctx.ch_bytes
        (take (transcript_server_hello_unsigned_len msg.id_len) sh)
      ≡ some digest
  pub signed : mldsa_verify p.sig digest (take msg.sig_len msg.sig) pk ≡ true

-- A ClientAuth that the responder takes is signed by the key pinned for the initiator, over the
-- digest that the ledger keeps for this handshake, and the ledger that is left is the one that
-- a successful `handshake_pending_consume_success` leaves.
pub record ClientAuthentic (p : Primitives) (ctx : Ctx) (pending : Store) (env : Env) (ca : List ℕ)
    : Type 0 where
  pub msg : ClientAuth
  pub taken : ℕ
  pub digest : List ℕ
  pub looked : Store
  pub decoded : decode_client_auth ca ≡ some (msg, taken)
  pub this_one : msg.handshake_id ≡ ctx.handshake_id
  pub held :
      handshake_pending_get_digest pending ctx.handshake_id env.now₀ ≡ (Pending.ok, digest, looked)
  pub signed : verify_with p ctx.peer_pk digest (take msg.sig_len msg.sig) ≡ true
  pub consumed_now :
      (handshake_pending_consume_success looked ctx.handshake_id env.now₁).0 ≡ Pending.ok
  pub left :
      (handshake_responder_verify_client_auth p ctx pending env ca).2
      ≡ (handshake_pending_consume_success looked ctx.handshake_id env.now₁).1

pending_ok_iff : (ps : Pending.Status) → pending_ok ps ≡ true → ps ≡ Pending.ok
pending_ok_iff Pending.ok h = refl
pending_ok_iff Pending.invalid_arg h = absurd (cc)
pending_ok_iff Pending.not_found h = absurd (cc)
pending_ok_iff Pending.err_expired h = absurd (cc)
pending_ok_iff Pending.err_consumed h = absurd (cc)
pending_ok_iff Pending.auth_limit h = absurd (cc)
pending_ok_iff Pending.full h = absurd (cc)

pub map_pending_failure-ok : (ps : Pending.Status) → map_pending_failure ps ≡ ok → ⊥
unfolding map_pending_failure
map_pending_failure-ok Pending.ok h = absurd (cc)
map_pending_failure-ok Pending.invalid_arg h = absurd (cc)
map_pending_failure-ok Pending.not_found h = absurd (cc)
map_pending_failure-ok Pending.err_expired h = absurd (cc)
map_pending_failure-ok Pending.err_consumed h = absurd (cc)
map_pending_failure-ok Pending.auth_limit h = absurd (cc)
map_pending_failure-ok Pending.full h = absurd (cc)

pub fail_ctx-pending :
    (ctx : Ctx) (ps : Pending.Status) → (fail_ctx ctx (map_pending_failure ps)).0 ≡ ok → ⊥
unfolding fail_ctx
fail_ctx-pending ctx ps h = map_pending_failure-ok ps h

client_auth_commit_ok :
    (p : Primitives) (ctx : Ctx) (pending : Store) (env : Env) (keys : List ℕ)
    → (client_auth_commit p ctx pending env keys).0 ≡ ok
    → ((handshake_pending_consume_success pending ctx.handshake_id env.now₁).0 ≡ Pending.ok)
      × ((client_auth_commit p ctx pending env keys).2
          ≡ (handshake_pending_consume_success pending ctx.handshake_id env.now₁).1)
unfolding client_auth_commit fail_ctx
client_auth_commit_ok p ctx pending env keys h =
    elim (Bool-cases
      (pending_ok (handshake_pending_consume_success pending ctx.handshake_id env.now₁).0)) [
        | inl e ↦ (pending_ok_iff _ e, rw e refl)
        | inr e ↦ absurd (map_pending_failure-ok _ (rw e at h))
      ]

client_auth_keys_ok :
    (p : Primitives) (ctx : Ctx) (pending : Store) (env : Env) (digest : List ℕ)
    → (client_auth_keys p ctx pending env digest).0 ≡ ok
    → ((handshake_pending_consume_success pending ctx.handshake_id env.now₁).0 ≡ Pending.ok)
      × ((client_auth_keys p ctx pending env digest).2
          ≡ (handshake_pending_consume_success pending ctx.handshake_id env.now₁).1)
unfolding client_auth_keys cancel_and_fail fail_ctx client_auth_commit
client_auth_keys_ok p ctx pending env digest h = elim (Bool-cases env.shared_memory) [
  | inr e ↦ absurd (ground arith)
  | inl e₁ ↦ elim (Option-cases (kex_shared_secret p.x25519 ctx.eph ctx.peer_eph_pub)) [
    | inl e ↦ absurd (ground arith)
    | inr (shared, e₂) ↦ elim (Option-cases ctx.ss_kem) [
      | inl e ↦ absurd (ground arith)
      | inr (ss_kem, e₃) ↦ elim (Bool-cases env.keys_memory) [
        | inr e ↦ absurd (ground arith)
        | inl e₄ ↦
            elim (Option-cases (
              derive_traffic_keys p shared ss_kem ctx.session_id ctx.peer_id ctx.peer_id_len
                ctx.local_id ctx.local_id_len digest)) [
                  | inl e ↦ absurd (ground arith)
                  | inr (keys, e₅) ↦
                      rw (e₁, e₂, e₃, e₄, e₅)
                        (client_auth_commit_ok p ctx pending env keys
                          (rw (e₁, e₂, e₃, e₄, e₅) at h))
                ]
      ]
    ]
  ]
]

-- When `handshake_responder_verify_client_auth` reports success, the ClientAuth carries this
-- context's handshake id and a signature that verifies, under the key pinned for the initiator,
-- over the digest that the ledger keeps; `handshake_pending_consume_success` has then answered OK for
-- that id, and the ledger that the call leaves is the one that it left.
pub verify_client_auth-ClientAuthentic :
    (p : Primitives) (ctx : Ctx) (pending : Store) (env : Env) (ca : List ℕ)
    → (handshake_responder_verify_client_auth p ctx pending env ca).0 ≡ ok
    → ClientAuthentic p ctx pending env ca
unfolding handshake_responder_verify_client_auth
verify_client_auth-ClientAuthentic p ctx pending env ca h =
    elim (Option-cases (decode_client_auth ca)) [
      | inl e ↦ absurd (ground (arith, e))
      | inr ((msg, taken), e) ↦
          let asked = handshake_pending_get_digest pending ctx.handshake_id env.now₀ in
          let same : bytes_eq msg.handshake_id ctx.handshake_id ≡ true = ground arith in
          let there : pending_ok asked.0 ≡ true = ground (arith, fail_ctx-pending ctx asked.0) in
          let counted = handshake_pending_record_failure asked.2 ctx.handshake_id env.now₁ in
          let good : verify_with p ctx.peer_pk asked.1 (take msg.sig_len msg.sig) ≡ true =
            ground (arith, fail_ctx-pending ctx counted.0) in
          let rest : (client_auth_keys p ctx asked.2 env asked.1).0 ≡ ok =
            ground (arith, fail_ctx-pending ctx counted.0, fail_ctx-pending ctx asked.0) in
          record {
            msg = msg;
            taken = taken;
            digest = asked.1;
            looked = asked.2;
            decoded = e;
            this_one = eq_of_bytes_eq msg.handshake_id ctx.handshake_id same;
            held = ap (λ st. (st, asked.1, asked.2)) (pending_ok_iff asked.0 there);
            signed = good;
            consumed_now = (client_auth_keys_ok p ctx asked.2 env asked.1 rest).0;
            left = ground (arith, (client_auth_keys_ok p ctx asked.2 env asked.1 rest).1);
          }
    ]

-- When `handshake_initiator_verify_server_hello` reports success, the ServerHello names the peer
-- that was dialed, echoes the session id, and carries a signature that verifies, under the key
-- pinned for that peer, over the hash of the ClientHello and of the unsigned part as it was received.
pub verify_server_hello-ServerAuthentic :
    (p : Primitives) (ctx : Ctx) (env : Env) (sh : List ℕ)
    → (handshake_initiator_verify_server_hello p ctx env sh).0 ≡ ok
    → ServerAuthentic p ctx sh
unfolding handshake_initiator_verify_server_hello fail_ctx
verify_server_hello-ServerAuthentic p ctx env sh h = elim (Option-cases (decode_server_hello sh)) [
  | inl e ↦ absurd (ground (arith, e))
  | inr ((msg, taken), e) ↦ elim (Option-cases (resolve_peer_pk ctx (take msg.id_len msg.id))) [
    | inl f ↦ absurd (ground (arith, e, f))
    | inr (pk, f) ↦
        elim (Option-cases (
          transcript_hash_server_auth p.sha ctx.ch_bytes
            (take (transcript_server_hello_unsigned_len msg.id_len) sh))) [
              | inl g ↦ absurd (ground (arith, e, f, g))
              | inr (digest, g) ↦ record {
                msg = msg;
                taken = taken;
                pk = pk;
                digest = digest;
                decoded = e;
                peer =
                    eq_of_bytes_eq (take ctx.peer_id_len msg.id) (take ctx.peer_id_len ctx.peer_id)
                      (ground (arith, e, f, g));
                peer_len = ground (arith, e, f, g);
                pinned = f;
                echo = eq_of_bytes_eq msg.session_id_echo ctx.session_id (ground (arith, e, f, g));
                hashed = g;
                signed = ground (arith, e, f, g);
              }
            ]
  ]
]
