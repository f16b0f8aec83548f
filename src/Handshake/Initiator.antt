-- ===== src/Handshake/Initiator.antt =====
-- src/protocol/handshake.c: the initiator.
use mldsa_auth.Base.{
  List, Option, [], if◌then◌else◌, leb, length, ltb, none, not, replicate, some, take, true, ℕ, ◌%◌,
  ◌==◌, ◌^◌, ◌||◌,
}
use mldsa_auth.Base.Bytes.{blit, bytes_eq, zeros}
use mldsa_auth.Crypto.Kex.{
  KexKeypair, kex_keypair_free, kex_keypair_generate, kex_public_key_bytes, kex_shared_secret,
}
use mldsa_auth.Crypto.Mldsa.{mldsa_sign, mldsa_verify}
use mldsa_auth.Crypto.Mlkem.{MlkemKeypair, mlkem_decaps, mlkem_keypair_free, mlkem_keypair_generate}
use mldsa_auth.Handshake.{
  Ctx, Env, Primitives, Status, attempt, check_call, client_auth_created, client_hello_created,
  derive_traffic_keys, established, fail_ctx, internal, invalid_arg, kex, malformed, new, ok,
  peer_identity_mismatch, resolve_peer_pk, resource_exhausted, server_hello_verified,
  session_id_mismatch, signature, unexpected_state, unknown_identity,
}
use mldsa_auth.Session.{initiator}
use mldsa_auth.Transcript.{
  transcript_handshake_id, transcript_hash_client_auth, transcript_hash_server_auth,
}
use mldsa_auth.Wire.{
  ClientAuth, ClientHello, client_auth_max_encoded_len, client_hello_max_encoded_len,
  decode_server_hello, encode_client_auth, encode_client_hello, mldsa_signature_max_bytes,
  transcript_server_hello_unsigned_len, wire_id_max_len, wire_mlkem_ct_len,
}

-- With the ClientHello encoded, or not. Too little room rolls both key pairs back.
unfoldable pub client_hello_encoded :
    Ctx → Env → ℕ → KexKeypair → MlkemKeypair → Option (List ℕ) → Status × Ctx × List ℕ
client_hello_encoded ctx env out_cap eph kem none =
    let bad = fail_ctx ctx internal in (bad.0, bad.1, [])
client_hello_encoded ctx env out_cap eph kem (some ch_bytes) =
    if ltb out_cap (length ch_bytes)
    then (
      invalid_arg,
      record ctx { eph = kex_keypair_free eph; kem = mlkem_keypair_free kem; ch_bytes = [] },
      [],
    )
    else (
      ok,
      record ctx {
        eph = eph;
        kem = kem;
        session_id = env.session_id;
        ch_bytes = ch_bytes;
        state = client_hello_created;
      },
      ch_bytes,
    )

module _ (p : Primitives) where
  -- The status, the context, and the bytes in `out`.
  unfoldable pub handshake_initiator_create_client_hello : Ctx → Env → ℕ → Status × Ctx × List ℕ
  handshake_initiator_create_client_hello ctx env out_cap =
      let bad = fail_ctx ctx internal in
      let (eph_ok, eph) = kex_keypair_generate p.x25519 env.kex_sk in
      let (kem_ok, kem) = mlkem_keypair_generate p.kem env.kem_memory env.kem_coins in
      let ch : ClientHello = record {
        id = blit (zeros wire_id_max_len) (take ctx.local_id_len ctx.local_id);
        id_len = ctx.local_id_len;
        ephemeral_pub = eph.public_key;
        mlkem_ek = kem.public_key;
        session_id = env.session_id;
        nonce = env.nonce;
      } in
      if not (check_call ctx initiator new)
      then (unexpected_state, ctx, [])
      else if not eph_ok || not kem_ok
      then (bad.0, bad.1, [])
      else client_hello_encoded ctx env out_cap eph kem
          (encode_client_hello ch client_hello_max_encoded_len)

  unfoldable pub handshake_initiator_verify_server_hello : Ctx → Env → List ℕ → Status × Ctx
  handshake_initiator_verify_server_hello ctx env sh =
      if not (check_call ctx initiator client_hello_created)
      then (unexpected_state, ctx)
      else attempt (decode_server_hello sh) (fail_ctx ctx malformed) (λ (msg, taken).
        let unsigned_len = transcript_server_hello_unsigned_len msg.id_len in
        if not (msg.id_len == ctx.peer_id_len)
          || not (bytes_eq (take ctx.peer_id_len msg.id) (take ctx.peer_id_len ctx.peer_id))
        then fail_ctx ctx peer_identity_mismatch
        else attempt (resolve_peer_pk ctx (take msg.id_len msg.id))
            (fail_ctx (record ctx { peer_pk = none }) unknown_identity)
            (λ pk.
              let known : Ctx = record ctx { peer_pk = some pk } in
              if not (bytes_eq msg.session_id_echo ctx.session_id)
              then fail_ctx known session_id_mismatch
              else if unsigned_len == 0 || leb (length sh) unsigned_len
              then fail_ctx known internal
              else attempt (transcript_hash_server_auth p.sha ctx.ch_bytes (take unsigned_len sh))
                  (fail_ctx known internal)
                  (λ th_server_auth.
                    if not (mldsa_verify p.sig th_server_auth (take msg.sig_len msg.sig) pk)
                    then fail_ctx known signature
                    else if not env.shared_memory
                    then fail_ctx known resource_exhausted
                    else attempt (kex_shared_secret p.x25519 ctx.eph msg.ephemeral_pub)
                        (fail_ctx known kex)
                        (λ probe.
                          attempt (transcript_hash_client_auth p.sha ctx.ch_bytes sh)
                            (fail_ctx known internal)
                            (λ th_client_auth.
                              attempt (transcript_handshake_id p.sha ctx.ch_bytes sh)
                                (fail_ctx known internal)
                                (λ handshake_id. (
                                  ok,
                                  record known {
                                    peer_eph_pub = msg.ephemeral_pub;
                                    peer_mlkem_ct = msg.mlkem_ct;
                                    th_client_auth = th_client_auth;
                                    handshake_id = handshake_id;
                                    ch_bytes = [];
                                    state = server_hello_verified;
                                  },
                                )))))))

  unfoldable pub handshake_initiator_create_client_auth : Ctx → Env → ℕ → Status × Ctx × List ℕ
  handshake_initiator_create_client_auth ctx env out_cap =
      let bad = fail_ctx ctx internal in
      if not (check_call ctx initiator server_hello_verified)
      then (unexpected_state, ctx, [])
      else attempt (mldsa_sign p.sig env.sign_coins ctx.th_client_auth ctx.local_keypair)
          (bad.0, bad.1, [])
          (λ sig.
            if length sig == 0 || ltb mldsa_signature_max_bytes (length sig)
            then (bad.0, bad.1, [])
            else let ca : ClientAuth = record {
              handshake_id = ctx.handshake_id;
              sig = blit (zeros mldsa_signature_max_bytes) sig;
              sig_len = length sig % 2 ^ 16;
            } in
              attempt (encode_client_auth ca client_auth_max_encoded_len) (bad.0, bad.1, [])
                (λ buf.
                  if ltb out_cap (length buf)
                  then (invalid_arg, ctx, [])
                  else (ok, record ctx { state = client_auth_created }, buf)))

  unfoldable pub handshake_initiator_finish : Ctx → Env → Status × Ctx
  handshake_initiator_finish ctx env =
      if not (check_call ctx initiator client_auth_created)
      then (unexpected_state, ctx)
      else if not env.shared_memory
      then fail_ctx ctx resource_exhausted
      else attempt (kex_shared_secret p.x25519 ctx.eph ctx.peer_eph_pub) (fail_ctx ctx kex)
          (λ shared.
            if not env.ss_kem_memory
            then fail_ctx ctx resource_exhausted
            else attempt (mlkem_decaps p.kem ctx.peer_mlkem_ct ctx.kem) (fail_ctx ctx internal)
                (λ ss_kem.
                  if not env.keys_memory
                  then fail_ctx ctx resource_exhausted
                  else attempt
                      (derive_traffic_keys p shared ss_kem ctx.session_id ctx.local_id
                        ctx.local_id_len ctx.peer_id ctx.peer_id_len ctx.th_client_auth)
                      (fail_ctx ctx internal)
                      (λ keys. (
                        ok,
                        record ctx {
                          session_keys = some keys;
                          keys_committed = true;
                          eph = kex_keypair_free ctx.eph;
                          kem = mlkem_keypair_free ctx.kem;
                          th_client_auth = replicate 32 0;
                          peer_eph_pub = replicate kex_public_key_bytes 0;
                          peer_mlkem_ct = replicate wire_mlkem_ct_len 0;
                          state = established;
                        },
                      ))))
