-- ===== src/Handshake/Responder.antt =====
-- src/protocol/handshake.c: the responder. The ledger is shared by all responder contexts of a
-- process, so that each call takes it and gives it back.
use mldsa_auth.Pending
use mldsa_auth.Base.{
  List, [], if◌then◌else◌, leb, length, ltb, none, not, replicate, some, take, true, ℕ, ◌%◌, ◌==◌,
  ◌^◌, ◌||◌,
}
use mldsa_auth.Base.Bytes.{blit, bytes_eq, zeros}
use mldsa_auth.Crypto.Kex.{
  kex_keypair_free, kex_keypair_generate, kex_public_key_bytes, kex_shared_secret,
}
use mldsa_auth.Crypto.Mldsa.{mldsa_sign}
use mldsa_auth.Crypto.Mlkem.{mlkem_encaps}
use mldsa_auth.Handshake.{
  Ctx, Env, Primitives, Status, attempt, check_call, client_auth_verified, client_hello_accepted,
  derive_traffic_keys, established, fail_ctx, handshake_id_mismatch, internal, invalid_arg, kex,
  malformed, map_pending_failure, new, ok, pending_ok, resolve_peer_pk, resource_exhausted,
  server_hello_created, signature, unexpected_state, unknown_identity, verify_with,
}
use mldsa_auth.Pending.{
  Store, handshake_pending_cancel, handshake_pending_consume_success, handshake_pending_get_digest,
  handshake_pending_insert, handshake_pending_record_failure,
}
use mldsa_auth.Ratelimit.Calls.{counted}
use mldsa_auth.Session.{responder}
use mldsa_auth.Transcript.{
  transcript_handshake_id, transcript_hash_client_auth, transcript_hash_server_auth,
}
use mldsa_auth.Wire.{
  ServerHello, client_hello_max_encoded_len, decode_client_auth, decode_client_hello,
  encode_server_hello, encode_server_hello_unsigned, mldsa_signature_max_bytes,
  server_hello_max_encoded_len, server_hello_unsigned_max_encoded_len, wire_id_max_len,
}

module _ (p : Primitives) where
  unfoldable pub handshake_responder_accept_client_hello : Ctx → List ℕ → Status × Ctx
  handshake_responder_accept_client_hello ctx ch =
      if not (check_call ctx responder new)
      then (unexpected_state, ctx)
      else attempt (decode_client_hello ch) (fail_ctx ctx malformed) (λ (msg, taken).
        if ltb client_hello_max_encoded_len (length ch)
        then fail_ctx ctx malformed
        else attempt (resolve_peer_pk ctx (take msg.id_len msg.id))
            (fail_ctx (record ctx { peer_pk = none }) unknown_identity)
            (λ pk. (
              ok,
              record ctx {
                peer_pk = some pk;
                peer_id = blit ctx.peer_id (take msg.id_len msg.id);
                peer_id_len = msg.id_len;
                session_id = msg.session_id;
                peer_eph_pub = msg.ephemeral_pub;
                ch_bytes = ch;
                state = client_hello_accepted;
              },
            )))

  -- The two transcript digests and the insertion into the ledger, with the whole ServerHello built.
  unfoldable pub server_hello_commit : Ctx → Store → Env → List ℕ → Status × Ctx × Store × List ℕ
  server_hello_commit ctx pending env sh_full =
      let bad = fail_ctx ctx internal in
      attempt (transcript_hash_client_auth p.sha ctx.ch_bytes sh_full) (bad.0, bad.1, pending, [])
        (λ th_client_auth.
          attempt (transcript_handshake_id p.sha ctx.ch_bytes sh_full) (bad.0, bad.1, pending, [])
            (λ handshake_id.
              let (ps, after) =
                handshake_pending_insert pending handshake_id th_client_auth env.now₀ env.now₁ in
              elim ps [
                | Pending.ok ↦ (
                  ok,
                  record ctx {
                    handshake_id = handshake_id;
                    ch_bytes = [];
                    state = server_hello_created;
                  },
                  after,
                  sh_full,
                )
                | Pending.full ↦
                    let out_of_room = fail_ctx ctx resource_exhausted in
                    (out_of_room.0, out_of_room.1, after, [])
                | Pending.invalid_arg ↦ (bad.0, bad.1, after, [])
                | Pending.not_found ↦ (bad.0, bad.1, after, [])
                | Pending.err_expired ↦ (bad.0, bad.1, after, [])
                | Pending.err_consumed ↦ (bad.0, bad.1, after, [])
                | Pending.auth_limit ↦ (bad.0, bad.1, after, [])
              ]))

  -- The signature and the encoding, with the message but for its signature built.
  unfoldable pub server_hello_sign :
      Ctx → Store → Env → ServerHello → ℕ → Status × Ctx × Store × List ℕ
  server_hello_sign ctx pending env sh out_cap =
      let bad = fail_ctx ctx internal in
      attempt (encode_server_hello_unsigned sh server_hello_unsigned_max_encoded_len)
        (bad.0, bad.1, pending, [])
        (λ sh_unsigned.
          attempt (transcript_hash_server_auth p.sha ctx.ch_bytes sh_unsigned)
            (bad.0, bad.1, pending, [])
            (λ th_server_auth.
              attempt (mldsa_sign p.sig env.sign_coins th_server_auth ctx.local_keypair)
                (bad.0, bad.1, pending, [])
                (λ sig.
                  if length sig == 0 || ltb mldsa_signature_max_bytes (length sig)
                  then (bad.0, bad.1, pending, [])
                  else let signed : ServerHello = record sh {
                    sig = blit (zeros mldsa_signature_max_bytes) sig;
                    sig_len = length sig % 2 ^ 16;
                  } in
                    attempt (encode_server_hello signed server_hello_max_encoded_len)
                      (bad.0, bad.1, pending, [])
                      (λ sh_full.
                        if leb (length sh_full) (length sh_unsigned)
                          || not (bytes_eq (take (length sh_unsigned) sh_full) sh_unsigned)
                        then (bad.0, bad.1, pending, [])
                        else if ltb out_cap (length sh_full)
                        then (
                          invalid_arg,
                          record ctx { eph = kex_keypair_free ctx.eph; ss_kem = none },
                          pending,
                          [],
                        )
                        else server_hello_commit ctx pending env sh_full))))

  unfoldable pub handshake_responder_create_server_hello :
      Ctx → Store → Env → ℕ → Status × Ctx × Store × List ℕ
  handshake_responder_create_server_hello ctx pending env out_cap =
      let bad = fail_ctx ctx internal in
      let no_memory = fail_ctx ctx resource_exhausted in
      let no_kem = fail_ctx ctx kex in
      let (eph_ok, eph) = kex_keypair_generate p.x25519 env.kex_sk in
      if not (check_call ctx responder client_hello_accepted)
      then (unexpected_state, ctx, pending, [])
      else if not eph_ok
      then (bad.0, bad.1, pending, [])
      else attempt (decode_client_hello ctx.ch_bytes) (bad.0, bad.1, pending, [])
          (λ (ch, taken).
            if not env.ss_kem_memory
            then (no_memory.0, no_memory.1, pending, [])
            else attempt (mlkem_encaps p.kem env.kem_coins ch.mlkem_ek)
                (no_kem.0, no_kem.1, pending, [])
                (λ (ct, ss).
                  server_hello_sign (record ctx { eph = eph; ss_kem = some ss }) pending env
                    (record {
                      id = blit (zeros wire_id_max_len) (take ctx.local_id_len ctx.local_id);
                      id_len = ctx.local_id_len;
                      ephemeral_pub = eph.public_key;
                      mlkem_ct = ct;
                      nonce = env.nonce;
                      session_id_echo = ctx.session_id;
                      sig = zeros mldsa_signature_max_bytes;
                      sig_len = 0;
                    })
                    out_cap))

  -- From the commit point on: the ledger's answer decides.
  unfoldable pub client_auth_commit : Ctx → Store → Env → List ℕ → Status × Ctx × Store
  client_auth_commit ctx pending env keys =
      let (ps, after) = handshake_pending_consume_success pending ctx.handshake_id env.now₁ in
      let bad = fail_ctx ctx (map_pending_failure ps) in
      if not (pending_ok ps) then (bad.0, bad.1, after) else (
        ok,
        record ctx {
          session_keys = some keys;
          keys_committed = true;
          ss_kem = none;
          state = client_auth_verified;
        },
        after,
      )

  -- `cancel_and_fail`
  unfoldable pub cancel_and_fail : Ctx → Store → Env → Status → Status × Ctx × Store
  cancel_and_fail ctx pending env why =
      let bad = fail_ctx ctx why in
      (bad.0, bad.1, (handshake_pending_cancel pending ctx.handshake_id env.now₁).1)

  -- With sig_A verified.
  unfoldable pub client_auth_keys : Ctx → Store → Env → List ℕ → Status × Ctx × Store
  client_auth_keys ctx pending env digest =
      if not env.shared_memory
      then cancel_and_fail ctx pending env resource_exhausted
      else attempt (kex_shared_secret p.x25519 ctx.eph ctx.peer_eph_pub)
          (cancel_and_fail ctx pending env kex)
          (λ shared. attempt ctx.ss_kem (cancel_and_fail ctx pending env internal) (λ ss_kem.
            if not env.keys_memory
            then cancel_and_fail ctx pending env resource_exhausted
            else attempt
                (derive_traffic_keys p shared ss_kem ctx.session_id ctx.peer_id ctx.peer_id_len
                  ctx.local_id ctx.local_id_len digest)
                (cancel_and_fail ctx pending env internal)
                (λ keys. client_auth_commit ctx pending env keys)))

  unfoldable pub handshake_responder_verify_client_auth :
      Ctx → Store → Env → List ℕ → Status × Ctx × Store
  handshake_responder_verify_client_auth ctx pending env ca =
      if not (check_call ctx responder server_hello_created)
      then (unexpected_state, ctx, pending)
      else attempt (decode_client_auth ca) (malformed, ctx, pending)
          (λ (msg, taken).
            let (ps, digest, looked) =
              handshake_pending_get_digest pending ctx.handshake_id env.now₀ in
            let absent = fail_ctx ctx (map_pending_failure ps) in
            let (fs, counted) = handshake_pending_record_failure looked ctx.handshake_id env.now₁ in
            let locked = fail_ctx ctx (map_pending_failure fs) in
            if not (bytes_eq msg.handshake_id ctx.handshake_id)
            then (handshake_id_mismatch, ctx, pending)
            else if not (pending_ok ps)
            then (absent.0, absent.1, looked)
            else if not (verify_with p ctx.peer_pk digest (take msg.sig_len msg.sig))
            then if pending_ok fs then (signature, ctx, counted) else (locked.0, locked.1, counted)
            else client_auth_keys ctx looked env digest)

  unfoldable pub handshake_responder_finish : Ctx → Status × Ctx
  handshake_responder_finish ctx =
      if not (check_call ctx responder client_auth_verified) then (unexpected_state, ctx) else (
        ok,
        record ctx {
          eph = kex_keypair_free ctx.eph;
          peer_eph_pub = replicate kex_public_key_bytes 0;
          state = established;
        },
      )
