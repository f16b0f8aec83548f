-- ===== src/Handshake/InitiatorEnds.antt =====
-- How each call of the initiator of src/protocol/handshake.c ends.
use mldsa_auth.Base.{
  List, Option, [], false, if_elim, inl, inr, leb, length, ltb, none, not, refl, some, take, true,
  ℕ, ◌%◌, ◌==◌, ◌^◌, ◌||◌, ◌≡◌,
}
use mldsa_auth.Base.Bytes.{blit, bytes_eq, zeros}
use mldsa_auth.Crypto.Kex.{KexKeypair, kex_keypair_generate, kex_shared_secret}
use mldsa_auth.Crypto.Mldsa.{mldsa_sign, mldsa_verify}
use mldsa_auth.Crypto.Mlkem.{MlkemKeypair, mlkem_decaps, mlkem_keypair_generate}
use mldsa_auth.Handshake.{
  Ctx, Env, Primitives, Status, check_call, client_auth_created, client_hello_created,
  derive_traffic_keys, established, fail_ctx, internal, kex, malformed, new, peer_identity_mismatch,
  resolve_peer_pk, resource_exhausted, server_hello_verified, session_id_mismatch, signature,
  unknown_identity,
}
use mldsa_auth.Handshake.Initiator.{
  client_hello_encoded, handshake_initiator_create_client_auth,
  handshake_initiator_create_client_hello, handshake_initiator_finish,
  handshake_initiator_verify_server_hello,
}
use mldsa_auth.Handshake.Outcomes.{
  EndsAt, EndsWith, advanced, attempt_elim, gives_up-EndsAt, gives_up-EndsWith, is_ok, not_elim,
  refused,
}
use mldsa_auth.Session.{initiator}
use mldsa_auth.Transcript.{
  transcript_handshake_id, transcript_hash_client_auth, transcript_hash_server_auth,
}
use mldsa_auth.Wire.{
  ServerHello, client_auth_max_encoded_len, decode_server_hello, encode_client_auth,
  mldsa_signature_max_bytes, transcript_server_hello_unsigned_len,
}

abbrev HelloEnds : Ctx → Status × Ctx × List ℕ → Type 0
HelloEnds ctx = EndsWith ctx initiator new client_hello_created

client_hello_encoded-Ends :
    (ctx : Ctx) (env : Env) (room : ℕ) (eph : KexKeypair) (kem : MlkemKeypair) (o : Option (List ℕ))
    → check_call ctx initiator new ≡ true
    → HelloEnds ctx (client_hello_encoded ctx env room eph kem o)
unfolding client_hello_encoded
client_hello_encoded-Ends ctx env room eph kem none c = gives_up-EndsWith ctx ctx internal refl
client_hello_encoded-Ends ctx env room eph kem (some ch_bytes) c =
    if_elim (HelloEnds ctx) (ltb room (length ch_bytes)) (λ h. refused (inl refl) refl refl refl)
      (λ h. advanced refl c refl (inr refl))

module _ (p : Primitives) where
  pub create_client_hello-Ends :
      (ctx : Ctx) (env : Env) (room : ℕ)
      → HelloEnds ctx (handshake_initiator_create_client_hello p ctx env room)
  unfolding handshake_initiator_create_client_hello
  create_client_hello-Ends ctx env room =
      if_elim (HelloEnds ctx) (not (check_call ctx initiator new))
        (λ h. refused (inr (inl refl)) refl refl refl)
        (λ c.
          if_elim (HelloEnds ctx)
            (not (kex_keypair_generate p.x25519 env.kex_sk).0
              || not (mlkem_keypair_generate p.kem env.kem_memory env.kem_coins).0)
            (λ h. gives_up-EndsWith ctx ctx internal refl)
            (λ h. client_hello_encoded-Ends ctx env room _ _ _ (not_elim _ c)))

  pub verify_server_hello-Ends :
      (ctx : Ctx) (env : Env) (sh : List ℕ)
      → EndsAt ctx initiator client_hello_created server_hello_verified
          (handshake_initiator_verify_server_hello p ctx env sh)
  unfolding handshake_initiator_verify_server_hello
  verify_server_hello-Ends ctx env sh =
      let E = EndsAt ctx initiator client_hello_created server_hello_verified in
      let stop = λ (c : Ctx) (why : Status) (h : is_ok why ≡ false).
        gives_up-EndsAt ctx c why h {role = initiator} {from = client_hello_created}
          {next = server_hello_verified} in
      if_elim E (not (check_call ctx initiator client_hello_created))
        (λ h. refused (inr (inl refl)) refl refl refl)
        (λ c.
          attempt_elim {A = ServerHello × ℕ} E (decode_server_hello sh) (stop ctx malformed refl)
            (λ m e.
              if_elim E
                (not (m.0.id_len == ctx.peer_id_len)
                  || not
                      (bytes_eq (take ctx.peer_id_len m.0.id) (take ctx.peer_id_len ctx.peer_id)))
                (λ h. stop ctx peer_identity_mismatch refl)
                (λ h.
                  let known = λ (pk : List ℕ). record ctx { peer_pk = some pk } in
                  let len = transcript_server_hello_unsigned_len m.0.id_len in
                  attempt_elim {A = List ℕ} E (resolve_peer_pk ctx (take m.0.id_len m.0.id))
                    (stop (record ctx { peer_pk = none }) unknown_identity refl)
                    (λ pk e.
                      if_elim E (not (bytes_eq m.0.session_id_echo ctx.session_id))
                        (λ h. stop (known pk) session_id_mismatch refl)
                        (λ h.
                          if_elim E (len == 0 || leb (length sh) len)
                            (λ h. stop (known pk) internal refl)
                            (λ h.
                              attempt_elim {A = List ℕ} E
                                (transcript_hash_server_auth p.sha ctx.ch_bytes (take len sh))
                                (stop (known pk) internal refl)
                                (λ th e.
                                  if_elim E
                                    (not (mldsa_verify p.sig th (take m.0.sig_len m.0.sig) pk))
                                    (λ h. stop (known pk) signature refl)
                                    (λ h.
                                      if_elim E (not env.shared_memory)
                                        (λ h. stop (known pk) resource_exhausted refl)
                                        (λ h.
                                          attempt_elim {A = List ℕ} E
                                            (kex_shared_secret p.x25519 ctx.eph m.0.ephemeral_pub)
                                            (stop (known pk) kex refl)
                                            (λ probe e.
                                              attempt_elim {A = List ℕ} E
                                                (transcript_hash_client_auth p.sha ctx.ch_bytes sh)
                                                (stop (known pk) internal refl)
                                                (λ th' e.
                                                  attempt_elim {A = List ℕ} E
                                                    (transcript_handshake_id p.sha ctx.ch_bytes sh)
                                                    (stop (known pk) internal refl)
                                                    (λ id e.
                                                      advanced refl (not_elim _ c) refl
                                                        (inr refl)))))))))))))

  pub create_client_auth-Ends :
      (ctx : Ctx) (env : Env) (room : ℕ)
      → EndsWith ctx initiator server_hello_verified client_auth_created
          (handshake_initiator_create_client_auth p ctx env room)
  unfolding handshake_initiator_create_client_auth
  create_client_auth-Ends ctx env room =
      let E = EndsWith ctx initiator server_hello_verified client_auth_created in
      let stop : E ((fail_ctx ctx internal).0, (fail_ctx ctx internal).1, []) =
        gives_up-EndsWith ctx ctx internal refl in
      if_elim E (not (check_call ctx initiator server_hello_verified))
        (λ h. refused (inr (inl refl)) refl refl refl)
        (λ c.
          attempt_elim {A = List ℕ} E
            (mldsa_sign p.sig env.sign_coins ctx.th_client_auth ctx.local_keypair) stop
            (λ sig e.
              if_elim E (length sig == 0 || ltb mldsa_signature_max_bytes (length sig)) (λ h. stop)
                (λ h.
                  attempt_elim {A = List ℕ} E
                    (encode_client_auth
                      (record {
                        handshake_id = ctx.handshake_id;
                        sig = blit (zeros mldsa_signature_max_bytes) sig;
                        sig_len = length sig % 2 ^ 16;
                      })
                      client_auth_max_encoded_len)
                    stop
                    (λ buf e.
                      if_elim E (ltb room (length buf)) (λ h. refused (inl refl) refl refl refl)
                        (λ h. advanced refl (not_elim _ c) refl (inr refl))))))

  pub initiator_finish-Ends :
      (ctx : Ctx) (env : Env)
      → EndsAt ctx initiator client_auth_created established (handshake_initiator_finish p ctx env)
  unfolding handshake_initiator_finish
  initiator_finish-Ends ctx env =
      let E = EndsAt ctx initiator client_auth_created established in
      let stop = λ (why : Status) (h : is_ok why ≡ false).
        gives_up-EndsAt ctx ctx why h {role = initiator} {from = client_auth_created}
          {next = established} in
      if_elim E (not (check_call ctx initiator client_auth_created))
        (λ h. refused (inr (inl refl)) refl refl refl)
        (λ c.
          if_elim E (not env.shared_memory) (λ h. stop resource_exhausted refl)
            (λ h.
              attempt_elim {A = List ℕ} E (kex_shared_secret p.x25519 ctx.eph ctx.peer_eph_pub)
                (stop kex refl)
                (λ shared e.
                  if_elim E (not env.ss_kem_memory) (λ h. stop resource_exhausted refl)
                    (λ h.
                      attempt_elim {A = List ℕ} E (mlkem_decaps p.kem ctx.peer_mlkem_ct ctx.kem)
                        (stop internal refl)
                        (λ ss e.
                          if_elim E (not env.keys_memory) (λ h. stop resource_exhausted refl)
                            (λ h.
                              attempt_elim {A = List ℕ} E
                                (derive_traffic_keys p shared ss ctx.session_id ctx.local_id
                                  ctx.local_id_len ctx.peer_id ctx.peer_id_len ctx.th_client_auth)
                                (stop internal refl)
                                (λ keys e. advanced refl (not_elim _ c) refl (inl (inr refl)))))))))
