-- ===== src/Handshake/Agreement.antt =====
-- The two ends of a handshake of src/protocol/handshake.c come to the same traffic keys.
use mldsa_auth.Base.{
  List, Option-cases, arith, inl, inr, refl, some, some_inj, sym, take, true, ℕ, ◌∙◌, ◌≡◌,
}
use mldsa_auth.Base.Bytes.{bytes_eq}
use mldsa_auth.Crypto.Kex.{kex_shared_secret}
use mldsa_auth.Crypto.Mlkem.{mlkem_decaps}
use mldsa_auth.Handshake.{
  Ctx, Env, Primitives, check_call, derive_traffic_keys, fail_ctx, ok, pending_ok,
  server_hello_created, verify_with,
}
use mldsa_auth.Handshake.Authentic.{fail_ctx-pending, map_pending_failure-ok}
use mldsa_auth.Handshake.Initiator.{handshake_initiator_finish}
use mldsa_auth.Handshake.Responder.{
  cancel_and_fail, client_auth_commit, client_auth_keys, handshake_responder_verify_client_auth,
}
use mldsa_auth.Pending.{
  Store, handshake_pending_consume_success, handshake_pending_get_digest,
  handshake_pending_record_failure,
}
use mldsa_auth.Session.{responder}
use mldsa_auth.Wire.{decode_client_auth}

-- The keys that the initiator commits.
initiator_keys :
    (p : Primitives) (ctx : Ctx) (env : Env)
    → (handshake_initiator_finish p ctx env).0 ≡ ok
    → (x : List ℕ) × (k : List ℕ) × (kex_shared_secret p.x25519 ctx.eph ctx.peer_eph_pub ≡ some x)
      × (mlkem_decaps p.kem ctx.peer_mlkem_ct ctx.kem ≡ some k)
      × ((handshake_initiator_finish p ctx env).1.session_keys
          ≡ derive_traffic_keys p x k ctx.session_id ctx.local_id ctx.local_id_len ctx.peer_id
              ctx.peer_id_len ctx.th_client_auth)
      × ((handshake_initiator_finish p ctx env).1.keys_committed ≡ true)
unfolding handshake_initiator_finish fail_ctx
initiator_keys p ctx env h =
    elim (Option-cases (kex_shared_secret p.x25519 ctx.eph ctx.peer_eph_pub)) [
      | inl e ↦ absurd (ground (arith, e))
      | inr (x, e) ↦ elim (Option-cases (mlkem_decaps p.kem ctx.peer_mlkem_ct ctx.kem)) [
        | inl f ↦ absurd (ground (arith, e, f))
        | inr (k, f) ↦
            elim (Option-cases (
              derive_traffic_keys p x k ctx.session_id ctx.local_id ctx.local_id_len ctx.peer_id
                ctx.peer_id_len ctx.th_client_auth)) [
                  | inl g ↦ absurd (ground (arith, e, f, g))
                  | inr (keys, g) ↦ (x, k, e, f, ground (arith, e, f, g), ground (arith, e, f, g))
                ]
      ]
    ]

-- The keys that the responder commits.
responder_keys :
    (p : Primitives) (ctx : Ctx) (pending : Store) (env : Env) (digest : List ℕ)
    → (client_auth_keys p ctx pending env digest).0 ≡ ok
    → (x : List ℕ) × (k : List ℕ) × (kex_shared_secret p.x25519 ctx.eph ctx.peer_eph_pub ≡ some x)
      × (ctx.ss_kem ≡ some k)
      × ((client_auth_keys p ctx pending env digest).1.session_keys
          ≡ derive_traffic_keys p x k ctx.session_id ctx.peer_id ctx.peer_id_len ctx.local_id
              ctx.local_id_len digest)
      × ((client_auth_keys p ctx pending env digest).1.keys_committed ≡ true)
unfolding client_auth_keys client_auth_commit cancel_and_fail fail_ctx
responder_keys p ctx pending env digest h =
    elim (Option-cases (kex_shared_secret p.x25519 ctx.eph ctx.peer_eph_pub)) [
      | inl e ↦ absurd (ground (arith, e))
      | inr (x, e) ↦ elim (Option-cases ctx.ss_kem) [
        | inl f ↦ absurd (ground (arith, e, f))
        | inr (k, f) ↦
            elim (Option-cases (
              derive_traffic_keys p x k ctx.session_id ctx.peer_id ctx.peer_id_len ctx.local_id
                ctx.local_id_len digest)) [
                  | inl g ↦ absurd (ground (arith, e, f, g))
                  | inr (keys, g) ↦
                      let bad =
                        map_pending_failure-ok
                          (handshake_pending_consume_success pending ctx.handshake_id env.now₁).0 in
                      (x, k, e, f, ground (arith, e, f, g, bad), ground (arith, e, f, g, bad))
                ]
      ]
    ]

-- A ClientAuth that is taken goes on to the keys.
verified :
    (p : Primitives) (ctx : Ctx) (pending : Store) (env : Env) (ca : List ℕ)
    → (handshake_responder_verify_client_auth p ctx pending env ca).0 ≡ ok
    → let asked = handshake_pending_get_digest pending ctx.handshake_id env.now₀ in
      handshake_responder_verify_client_auth p ctx pending env ca
      ≡ client_auth_keys p ctx asked.2 env asked.1
unfolding handshake_responder_verify_client_auth
verified p ctx pending env ca h = elim (Option-cases (decode_client_auth ca)) [
  | inl e ↦ absurd (ground (arith, e))
  | inr ((msg, taken), e) ↦
      let asked = handshake_pending_get_digest pending ctx.handshake_id env.now₀ in
      let counted = handshake_pending_record_failure asked.2 ctx.handshake_id env.now₁ in
      let called : check_call ctx responder server_hello_created ≡ true = ground arith in
      let same : bytes_eq msg.handshake_id ctx.handshake_id ≡ true = ground arith in
      let there : pending_ok asked.0 ≡ true = ground (arith, fail_ctx-pending ctx asked.0) in
      let good : verify_with p ctx.peer_pk asked.1 (take msg.sig_len msg.sig) ≡ true =
        ground (arith, fail_ctx-pending ctx counted.0) in
      rw (called, e, same, there, good) refl
]

derive_cong :
    (p : Primitives) {x x' k k' s s' a a' b b' t t' : List ℕ} {n n' m m' : ℕ}
    → x ≡ x'
    → k ≡ k'
    → s ≡ s'
    → a ≡ a'
    → n ≡ n'
    → b ≡ b'
    → m ≡ m'
    → t ≡ t'
    → derive_traffic_keys p x k s a n b m t ≡ derive_traffic_keys p x' k' s' a' n' b' m' t'
derive_cong p c d e f g h i j = rw (c, d, e, f, g, h, i, j) refl

-- When the initiator's finish and the responder's `verify_client_auth` both report success, and the
-- two contexts agree on the session id, on who is who, on the transcript digest (which the responder
-- keeps in the ledger) and on the two shared secrets, they commit the same keys.
pub finish-verify_client_auth :
    (p : Primitives) (i r : Ctx) (pending : Store) (env env' : Env) (ca : List ℕ)
    → (handshake_initiator_finish p i env).0 ≡ ok
    → (handshake_responder_verify_client_auth p r pending env' ca).0 ≡ ok
    → kex_shared_secret p.x25519 i.eph i.peer_eph_pub
      ≡ kex_shared_secret p.x25519 r.eph r.peer_eph_pub
    → mlkem_decaps p.kem i.peer_mlkem_ct i.kem ≡ r.ss_kem
    → i.th_client_auth ≡ (handshake_pending_get_digest pending r.handshake_id env'.now₀).1
    → i.session_id ≡ r.session_id
    → i.local_id ≡ r.peer_id
    → i.local_id_len ≡ r.peer_id_len
    → i.peer_id ≡ r.local_id
    → i.peer_id_len ≡ r.local_id_len
    → ((handshake_initiator_finish p i env).1.session_keys
        ≡ (handshake_responder_verify_client_auth p r pending env' ca).1.session_keys)
      × ((handshake_initiator_finish p i env).1.keys_committed ≡ true)
      × ((handshake_responder_verify_client_auth p r pending env' ca).1.keys_committed ≡ true)
finish-verify_client_auth p i r pending env env' ca h h' dh kem th sid a a_len b b_len =
    let asked = handshake_pending_get_digest pending r.handshake_id env'.now₀ in
    let whole = verified p r pending env' ca h' in
    let (x, k, e, f, keys, done) = initiator_keys p i env h in
    let (x', k', e', f', keys', done') = responder_keys p r asked.2 env' asked.1 (rw whole at h') in
    let same_x : x ≡ x' = some_inj (sym e ∙ (dh ∙ e')) in
    let same_k : k ≡ k' = some_inj (sym f ∙ (kem ∙ f')) in
    let chain = derive_cong p same_x same_k sid a a_len b b_len th in
    (keys ∙ (chain ∙ (sym keys' ∙ rw whole refl)), done, rw whole done')
