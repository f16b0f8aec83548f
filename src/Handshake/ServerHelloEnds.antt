-- ===== src/Handshake/ServerHelloEnds.antt =====
-- How the creation of a ServerHello in src/protocol/handshake.c ends.
use mldsa_auth.Pending
use mldsa_auth.Base.{
  List, [], if_elim, inl, inr, leb, length, ltb, not, refl, take, true, ℕ, ◌%◌, ◌==◌, ◌^◌, ◌||◌,
  ◌≡◌,
}
use mldsa_auth.Base.Bytes.{blit, bytes_eq, zeros}
use mldsa_auth.Crypto.Kex.{kex_keypair_generate}
use mldsa_auth.Crypto.Mldsa.{mldsa_sign}
use mldsa_auth.Crypto.Mlkem.{mlkem_encaps}
use mldsa_auth.Handshake.{
  Ctx, Env, Primitives, check_call, client_hello_accepted, fail_ctx, internal, kex, ok,
  resource_exhausted, server_hello_created,
}
use mldsa_auth.Handshake.Outcomes.{
  EndsBoth, advanced, attempt_elim, gives_up-EndsBoth, not_elim, refused,
}
use mldsa_auth.Handshake.Responder.{
  handshake_responder_create_server_hello, server_hello_commit, server_hello_sign,
}
use mldsa_auth.Pending.{Store, handshake_pending_insert}
use mldsa_auth.Session.{responder}
use mldsa_auth.Transcript.{
  transcript_handshake_id, transcript_hash_client_auth, transcript_hash_server_auth,
}
use mldsa_auth.Wire.{
  ClientHello, ServerHello, decode_client_hello, encode_server_hello, encode_server_hello_unsigned,
  mldsa_signature_max_bytes, server_hello_max_encoded_len, server_hello_unsigned_max_encoded_len,
}

module _ (p : Primitives) where
  -- After the insertion into the ledger, by its answer.
  inserted-Ends :
      (ctx begun : Ctx) (after : Store) (id sh_full : List ℕ) (ps : Pending.Status)
      → check_call ctx responder client_hello_accepted ≡ true
      → begun.keys_committed ≡ ctx.keys_committed
      → EndsBoth ctx responder client_hello_accepted server_hello_created (elim ps [
        | Pending.ok ↦ (
          ok,
          record begun { handshake_id = id; ch_bytes = []; state = server_hello_created },
          after,
          sh_full,
        )
        | Pending.full ↦ (
          (fail_ctx begun resource_exhausted).0,
          (fail_ctx begun resource_exhausted).1,
          after,
          [],
        )
        | Pending.invalid_arg ↦
            ((fail_ctx begun internal).0, (fail_ctx begun internal).1, after, [])
        | Pending.not_found ↦ ((fail_ctx begun internal).0, (fail_ctx begun internal).1, after, [])
        | Pending.err_expired ↦
            ((fail_ctx begun internal).0, (fail_ctx begun internal).1, after, [])
        | Pending.err_consumed ↦
            ((fail_ctx begun internal).0, (fail_ctx begun internal).1, after, [])
        | Pending.auth_limit ↦ ((fail_ctx begun internal).0, (fail_ctx begun internal).1, after, [])
      ])
  inserted-Ends ctx begun after id sh_full Pending.ok c k = advanced refl c refl (inr k)
  inserted-Ends ctx begun after id sh_full Pending.full c k =
      gives_up-EndsBoth ctx begun resource_exhausted refl after
  inserted-Ends ctx begun after id sh_full Pending.invalid_arg c k =
      gives_up-EndsBoth ctx begun internal refl after
  inserted-Ends ctx begun after id sh_full Pending.not_found c k =
      gives_up-EndsBoth ctx begun internal refl after
  inserted-Ends ctx begun after id sh_full Pending.err_expired c k =
      gives_up-EndsBoth ctx begun internal refl after
  inserted-Ends ctx begun after id sh_full Pending.err_consumed c k =
      gives_up-EndsBoth ctx begun internal refl after
  inserted-Ends ctx begun after id sh_full Pending.auth_limit c k =
      gives_up-EndsBoth ctx begun internal refl after

  -- `begun` is the context with the ephemeral key and the shared secret of the call.
  commit-Ends :
      (ctx begun : Ctx) (pending : Store) (env : Env) (sh_full : List ℕ)
      → check_call ctx responder client_hello_accepted ≡ true
      → begun.keys_committed ≡ ctx.keys_committed
      → EndsBoth ctx responder client_hello_accepted server_hello_created
          (server_hello_commit p begun pending env sh_full)
  unfolding server_hello_commit
  commit-Ends ctx begun pending env sh_full c k =
      let E = EndsBoth ctx responder client_hello_accepted server_hello_created in
      attempt_elim {A = List ℕ} E (transcript_hash_client_auth p.sha begun.ch_bytes sh_full)
        (gives_up-EndsBoth ctx begun internal refl pending)
        (λ th e.
          attempt_elim {A = List ℕ} E (transcript_handshake_id p.sha begun.ch_bytes sh_full)
            (gives_up-EndsBoth ctx begun internal refl pending)
            (λ id e.
              let r = handshake_pending_insert pending id th env.now₀ env.now₁ in
              inserted-Ends ctx begun r.1 id sh_full r.0 c k))

  sign-Ends :
      (ctx begun : Ctx) (pending : Store) (env : Env) (sh : ServerHello) (room : ℕ)
      → check_call ctx responder client_hello_accepted ≡ true
      → begun.state ≡ ctx.state
      → begun.keys_committed ≡ ctx.keys_committed
      → begun.session_keys ≡ ctx.session_keys
      → EndsBoth ctx responder client_hello_accepted server_hello_created
          (server_hello_sign p begun pending env sh room)
  unfolding server_hello_sign
  sign-Ends ctx begun pending env sh room c st k sk =
      let E = EndsBoth ctx responder client_hello_accepted server_hello_created in
      let stop : E ((fail_ctx begun internal).0, (fail_ctx begun internal).1, pending, []) =
        gives_up-EndsBoth ctx begun internal refl pending in
      attempt_elim {A = List ℕ} E
        (encode_server_hello_unsigned sh server_hello_unsigned_max_encoded_len) stop
        (λ unsigned e.
          attempt_elim {A = List ℕ} E (transcript_hash_server_auth p.sha begun.ch_bytes unsigned)
            stop
            (λ th e.
              attempt_elim {A = List ℕ} E (mldsa_sign p.sig env.sign_coins th begun.local_keypair)
                stop
                (λ sig e.
                  if_elim E (length sig == 0 || ltb mldsa_signature_max_bytes (length sig))
                    (λ h. stop)
                    (λ h.
                      attempt_elim {A = List ℕ} E
                        (encode_server_hello
                          (record sh {
                            sig = blit (zeros mldsa_signature_max_bytes) sig;
                            sig_len = length sig % 2 ^ 16;
                          })
                          server_hello_max_encoded_len)
                        stop
                        (λ whole e.
                          if_elim E
                            (leb (length whole) (length unsigned)
                              || not (bytes_eq (take (length unsigned) whole) unsigned))
                            (λ h. stop)
                            (λ h.
                              if_elim E (ltb room (length whole)) (λ h. refused (inl refl) st k sk)
                                (λ h. commit-Ends ctx begun pending env whole c k)))))))

  pub create_server_hello-Ends :
      (ctx : Ctx) (pending : Store) (env : Env) (room : ℕ)
      → EndsBoth ctx responder client_hello_accepted server_hello_created
          (handshake_responder_create_server_hello p ctx pending env room)
  unfolding handshake_responder_create_server_hello
  create_server_hello-Ends ctx pending env room =
      let E = EndsBoth ctx responder client_hello_accepted server_hello_created in
      if_elim E (not (check_call ctx responder client_hello_accepted))
        (λ h. refused (inr (inl refl)) refl refl refl)
        (λ c.
          if_elim E (not (kex_keypair_generate p.x25519 env.kex_sk).0)
            (λ h. gives_up-EndsBoth ctx ctx internal refl pending)
            (λ h.
              attempt_elim {A = ClientHello × ℕ} E (decode_client_hello ctx.ch_bytes)
                (gives_up-EndsBoth ctx ctx internal refl pending)
                (λ m e.
                  if_elim E (not env.ss_kem_memory)
                    (λ h. gives_up-EndsBoth ctx ctx resource_exhausted refl pending)
                    (λ h.
                      attempt_elim {A = List ℕ × List ℕ} E
                        (mlkem_encaps p.kem env.kem_coins m.0.mlkem_ek)
                        (gives_up-EndsBoth ctx ctx kex refl pending)
                        (λ ct e.
                          sign-Ends ctx _ pending env _ room (not_elim _ c) refl refl refl)))))
