-- ===== src/Handshake/ResponderEnds.antt =====
-- How each call of the responder of src/protocol/handshake.c ends.
use mldsa_auth.Pending
use mldsa_auth.Base.{
  List, false, if_elim, inl, inr, length, ltb, none, not, refl, take, true, ℕ, ◌≡◌,
}
use mldsa_auth.Base.Bytes.{bytes_eq}
use mldsa_auth.Crypto.Kex.{kex_shared_secret}
use mldsa_auth.Handshake.{
  Ctx, Env, Primitives, Status, check_call, client_auth_verified, client_hello_accepted,
  derive_traffic_keys, established, internal, kex, malformed, map_pending_failure, new, pending_ok,
  resolve_peer_pk, resource_exhausted, server_hello_created, unknown_identity, verify_with,
}
use mldsa_auth.Handshake.Outcomes.{
  EndsAt, EndsIn, advanced, attempt_elim, gives_up-EndsAt, gives_up-EndsIn, is_ok, not_elim,
  refused,
}
use mldsa_auth.Handshake.Responder.{
  cancel_and_fail, client_auth_commit, client_auth_keys, handshake_responder_accept_client_hello,
  handshake_responder_finish, handshake_responder_verify_client_auth,
}
use mldsa_auth.Pending.{
  Store, handshake_pending_consume_success, handshake_pending_get_digest,
  handshake_pending_record_failure,
}
use mldsa_auth.Session.{responder}
use mldsa_auth.Wire.{
  ClientAuth, ClientHello, client_hello_max_encoded_len, decode_client_auth, decode_client_hello,
}

module _ (p : Primitives) where
  pub accept_client_hello-Ends :
      (ctx : Ctx) (ch : List ℕ)
      → EndsAt ctx responder new client_hello_accepted
          (handshake_responder_accept_client_hello p ctx ch)
  unfolding handshake_responder_accept_client_hello
  accept_client_hello-Ends ctx ch =
      let E = EndsAt ctx responder new client_hello_accepted in
      let stop = λ (c : Ctx) (why : Status) (h : is_ok why ≡ false).
        gives_up-EndsAt ctx c why h {role = responder} {from = new}
          {next = client_hello_accepted} in
      if_elim E (not (check_call ctx responder new)) (λ h. refused (inr (inl refl)) refl refl refl)
        (λ c.
          attempt_elim {A = ClientHello × ℕ} E (decode_client_hello ch) (stop ctx malformed refl)
            (λ m e.
              if_elim E (ltb client_hello_max_encoded_len (length ch))
                (λ h. stop ctx malformed refl)
                (λ h.
                  attempt_elim {A = List ℕ} E (resolve_peer_pk ctx (take m.0.id_len m.0.id))
                    (stop (record ctx { peer_pk = none }) unknown_identity refl)
                    (λ pk e. advanced refl (not_elim _ c) refl (inr refl)))))

  pub responder_finish-Ends :
      (ctx : Ctx)
      → EndsAt ctx responder client_auth_verified established (handshake_responder_finish p ctx)
  unfolding handshake_responder_finish
  responder_finish-Ends ctx =
      let E = EndsAt ctx responder client_auth_verified established in
      if_elim E (not (check_call ctx responder client_auth_verified))
        (λ h. refused (inr (inl refl)) refl refl refl)
        (λ c. advanced refl (not_elim _ c) refl (inl (inr refl)))

  cancel-Ends :
      (ctx : Ctx) (pending : Store) (env : Env) (why : Status)
      → is_ok why ≡ false
      → EndsIn ctx responder server_hello_created client_auth_verified
          (cancel_and_fail p ctx pending env why)
  unfolding cancel_and_fail
  cancel-Ends ctx pending env why h = gives_up-EndsIn ctx ctx why h _

  map_pending_failure-is_ok : (ps : Pending.Status) → is_ok (map_pending_failure ps) ≡ false
  unfolding map_pending_failure
  map_pending_failure-is_ok Pending.ok = refl
  map_pending_failure-is_ok Pending.invalid_arg = refl
  map_pending_failure-is_ok Pending.not_found = refl
  map_pending_failure-is_ok Pending.err_expired = refl
  map_pending_failure-is_ok Pending.err_consumed = refl
  map_pending_failure-is_ok Pending.auth_limit = refl
  map_pending_failure-is_ok Pending.full = refl

  client_auth_keys-Ends :
      (ctx : Ctx) (pending : Store) (env : Env) (digest : List ℕ)
      → check_call ctx responder server_hello_created ≡ true
      → EndsIn ctx responder server_hello_created client_auth_verified
          (client_auth_keys p ctx pending env digest)
  unfolding client_auth_keys client_auth_commit
  client_auth_keys-Ends ctx pending env digest c =
      let E = EndsIn ctx responder server_hello_created client_auth_verified in
      let r = handshake_pending_consume_success pending ctx.handshake_id env.now₁ in
      if_elim E (not env.shared_memory) (λ h. cancel-Ends ctx pending env resource_exhausted refl)
        (λ h.
          attempt_elim {A = List ℕ} E (kex_shared_secret p.x25519 ctx.eph ctx.peer_eph_pub)
            (cancel-Ends ctx pending env kex refl)
            (λ shared e.
              attempt_elim {A = List ℕ} E ctx.ss_kem (cancel-Ends ctx pending env internal refl)
                (λ ss e.
                  if_elim E (not env.keys_memory)
                    (λ h. cancel-Ends ctx pending env resource_exhausted refl)
                    (λ h.
                      attempt_elim {A = List ℕ} E
                        (derive_traffic_keys p shared ss ctx.session_id ctx.peer_id ctx.peer_id_len
                          ctx.local_id ctx.local_id_len digest)
                        (cancel-Ends ctx pending env internal refl)
                        (λ keys e.
                          if_elim E (not (pending_ok r.0))
                            (λ h.
                              gives_up-EndsIn ctx ctx (map_pending_failure r.0)
                                (map_pending_failure-is_ok r.0) r.1)
                            (λ h. advanced refl c refl (inl (inl refl))))))))

  pub verify_client_auth-Ends :
      (ctx : Ctx) (pending : Store) (env : Env) (ca : List ℕ)
      → EndsIn ctx responder server_hello_created client_auth_verified
          (handshake_responder_verify_client_auth p ctx pending env ca)
  unfolding handshake_responder_verify_client_auth
  verify_client_auth-Ends ctx pending env ca =
      let E = EndsIn ctx responder server_hello_created client_auth_verified in
      let d = handshake_pending_get_digest pending ctx.handshake_id env.now₀ in
      let f = handshake_pending_record_failure d.2 ctx.handshake_id env.now₁ in
      if_elim E (not (check_call ctx responder server_hello_created))
        (λ h. refused (inr (inl refl)) refl refl refl)
        (λ c.
          attempt_elim {A = ClientAuth × ℕ} E (decode_client_auth ca)
            (refused (inr (inr (inl refl))) refl refl refl)
            (λ m e.
              if_elim E (not (bytes_eq m.0.handshake_id ctx.handshake_id))
                (λ h. refused (inr (inr (inr (inl refl)))) refl refl refl)
                (λ h.
                  if_elim E (not (pending_ok d.0))
                    (λ h.
                      gives_up-EndsIn ctx ctx (map_pending_failure d.0)
                        (map_pending_failure-is_ok d.0) d.2)
                    (λ h.
                      if_elim E (not (verify_with p ctx.peer_pk d.1 (take m.0.sig_len m.0.sig)))
                        (λ h.
                          if_elim E (pending_ok f.0)
                            (λ h. refused (inr (inr (inr (inr refl)))) refl refl refl)
                            (λ h.
                              gives_up-EndsIn ctx ctx (map_pending_failure f.0)
                                (map_pending_failure-is_ok f.0) f.1))
                        (λ h. client_auth_keys-Ends ctx d.2 env d.1 (not_elim _ c))))))
