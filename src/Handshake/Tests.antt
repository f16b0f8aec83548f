-- ===== src/Handshake/Tests.antt =====
-- Tests of the handshake contexts, with primitives that take part in a run but protect nothing.
use mldsa_auth.Pending
use mldsa_auth.Base.{
  List, [], drop, inl, length, refl, replicate, some, take, true, ℕ, ◌%◌, ◌++◌, ◌∷◌, ◌≡◌,
}
use mldsa_auth.Base.Bytes.{blit, bytes_eq}
use mldsa_auth.Crypto.Kex.{
  kex_build_kdf_info_v2, kex_derive_session_key_v2, kex_hkdf_sha256, kex_shared_secret,
}
use mldsa_auth.Crypto.Mldsa.{mldsa_verify}
use mldsa_auth.Crypto.Mlkem.{kem_new_checked, mlkem_decaps}
use mldsa_auth.Handshake.{
  Ctx, Env, Primitives, check_call, client_auth_created, client_hello_created, derive_traffic_keys,
  established, ok, resolve_peer_pk, server_hello_created, zero_ctx,
}
use mldsa_auth.Handshake.Agreement.{finish-verify_client_auth}
use mldsa_auth.Handshake.Authentic.{
  ClientAuthentic, ServerAuthentic, verify_client_auth-ClientAuthentic,
  verify_server_hello-ServerAuthentic,
}
use mldsa_auth.Handshake.Guarded.{IsGuarded, handshake_run, handshake_run-IsGuarded}
use mldsa_auth.Handshake.Initiator.{
  handshake_initiator_finish, handshake_initiator_verify_server_hello,
}
use mldsa_auth.Handshake.Machine.{
  HandshakeCall, calls_create_client_hello, calls_initiator_finish, calls_responder_finish,
  handshake_apply, handshake_apply-Ends,
}
use mldsa_auth.Handshake.Outcomes.{EndsIn}
use mldsa_auth.Handshake.Responder.{
  client_auth_commit, client_auth_keys, handshake_responder_verify_client_auth,
}
use mldsa_auth.Pending.{
  Store, cap_limit_for, find_loop, find_slot, handshake_pending_consume_success,
  handshake_pending_get_digest, inline, slot_at, store_usable, zero_store,
}
use mldsa_auth.Session.{initiator, responder}
use mldsa_auth.Transcript.{
  Sha256, hash_label_and_two_buffers, transcript_handshake_id, transcript_hash_client_auth,
  transcript_hash_server_auth,
}
use mldsa_auth.Wire.{
  decode_client_auth, decode_server_hello, next_field, next_u16, next_u8,
  server_hello_unsigned_encoded_len, transcript_server_hello_unsigned_len,
}
use mldsa_auth.WireInt.{wire_int_read_u16, wire_int_read_u8}

abbrev toy_sha : Sha256
toy_sha = record {
  State = List ℕ;
  init = some [];
  update = λ s bytes. some (s ++ bytes);
  final = λ s. some (replicate 32 (length s % 256));
}

abbrev toy : Primitives
toy = record {
  sha = toy_sha;
  x25519 = record { base = λ sk. some sk; scalarmult = λ sk pk. some (replicate 32 5) };
  hkdf = record { extract = λ salt ikm. some ikm; expand = λ n info prk. some (replicate n 4) };
  kem = record {
    new =
        some
          (record { public_key = 1184; secret_key = 2400; ciphertext = 1088; shared_secret = 32 });
    keypair = λ coins. some (replicate 1184 1, replicate 2400 1);
    encaps = λ coins ek. some (replicate 1088 2, replicate 32 6);
    decaps = λ ct dk. some (replicate 32 6);
  };
  sig = record {
    new = some (record { public_key = 1952; secret_key = 4032; signature = 3309 });
    keypair = λ coins. some (replicate 1952 1, replicate 4032 1);
    sign = λ coins msg sk. some (8 ∷ []);
    verify = λ msg sig pk. true;
  };
}

abbrev env : Env
env = record {
  kex_sk = some (replicate 32 3);
  kem_memory = true;
  kem_coins = [];
  session_id = replicate 16 9;
  nonce = replicate 32 9;
  sign_coins = [];
  shared_memory = true;
  ss_kem_memory = true;
  keys_memory = true;
  now₀ = 10;
  now₁ = 11;
}

abbrev hs_id : List ℕ
hs_id = replicate 16 7

abbrev entry : Pending.Entry
entry = record {
  state = Pending.active;
  handshake_id = hs_id;
  th_client_auth = replicate 32 1;
  deadline_ms = 100;
  failure_count = 0;
}

abbrev ledger : Store
ledger = record { home = inline; slots = entry ∷ []; ttl_ms = 90; has_clock = true }

abbrev waiting : Ctx
waiting = record zero_ctx {
  role = some responder;
  state = server_hello_created;
  local_id_len = 1;
  peer_id_len = 1;
  peer_pk = some (1 ∷ []);
  handshake_id = hs_id;
  eph = record { public_key = replicate 32 3; private_key = some (replicate 32 3) };
  ss_kem = some (replicate 32 6);
  session_keys = some (replicate 64 0);
}

abbrev client_auth_bytes : List ℕ
client_auth_bytes = 3 ∷ (replicate 16 7 ++ (0 ∷ 1 ∷ 8 ∷ []))

verifies : (handshake_responder_verify_client_auth toy waiting ledger env client_auth_bytes).0 ≡ ok
unfolding handshake_responder_verify_client_auth client_auth_keys client_auth_commit check_call
    decode_client_auth next_u8 next_u16 next_field wire_int_read_u8 wire_int_read_u16
    handshake_pending_get_digest handshake_pending_consume_success find_slot find_loop slot_at
    store_usable cap_limit_for bytes_eq mldsa_verify kex_shared_secret derive_traffic_keys
    kex_derive_session_key_v2 kex_build_kdf_info_v2 kex_hkdf_sha256 take drop replicate
verifies = refl

verify_client_auth-ClientAuthentic_example :
    ClientAuthentic toy waiting ledger env client_auth_bytes
verify_client_auth-ClientAuthentic_example =
    verify_client_auth-ClientAuthentic toy waiting ledger env client_auth_bytes verifies

abbrev signing : Ctx
signing = record zero_ctx {
  th_client_auth = replicate 32 1;
  role = some initiator;
  state = client_auth_created;
  local_id_len = 1;
  peer_id_len = 1;
  eph = record { public_key = replicate 32 3; private_key = some (replicate 32 3) };
  kem = record { public_key = replicate 1184 1; secret_key = some (replicate 2400 1) };
  session_keys = some (replicate 64 0);
}

abbrev dialing : Ctx
dialing = record zero_ctx {
  role = some initiator;
  state = client_hello_created;
  local_id_len = 1;
  peer_id = 66 ∷ replicate 63 0;
  peer_id_len = 1;
  lookup_fn = some (λ id. some (1 ∷ []));
  session_id = replicate 16 9;
  ch_bytes = 1 ∷ 2 ∷ [];
  eph = record { public_key = replicate 32 3; private_key = some (replicate 32 3) };
  kem = record { public_key = replicate 1184 1; secret_key = some (replicate 2400 1) };
  session_keys = some (replicate 64 0);
}

abbrev server_hello_bytes : List ℕ
server_hello_bytes =
    2
    ∷ 1
    ∷ 66
    ∷ (replicate 32 4
        ++ (replicate 1088 2 ++ (replicate 32 8 ++ (replicate 16 9 ++ (0 ∷ 1 ∷ 8 ∷ [])))))

server_verifies :
    (handshake_initiator_verify_server_hello toy dialing env server_hello_bytes).0 ≡ ok
unfolding handshake_initiator_verify_server_hello check_call decode_server_hello next_u8 next_u16
    next_field wire_int_read_u8 wire_int_read_u16 bytes_eq mldsa_verify kex_shared_secret
    resolve_peer_pk transcript_server_hello_unsigned_len server_hello_unsigned_encoded_len
    hash_label_and_two_buffers transcript_hash_server_auth transcript_hash_client_auth
    transcript_handshake_id take drop replicate blit
server_verifies = refl

verify_server_hello-ServerAuthentic_example : ServerAuthentic toy dialing server_hello_bytes
verify_server_hello-ServerAuthentic_example =
    verify_server_hello-ServerAuthentic toy dialing env server_hello_bytes server_verifies

abbrev starting : Ctx
starting = record zero_ctx {
  role = some initiator;
  local_id = 65 ∷ replicate 63 0;
  local_id_len = 1;
  peer_id_len = 1;
  session_keys = some (replicate 64 0);
}

finishes : (handshake_initiator_finish toy signing env).0 ≡ ok
unfolding handshake_initiator_finish check_call kex_shared_secret mlkem_decaps kem_new_checked
    derive_traffic_keys kex_derive_session_key_v2 kex_build_kdf_info_v2 kex_hkdf_sha256 take drop
    replicate
finishes = refl

same_kem : mlkem_decaps toy.kem signing.peer_mlkem_ct signing.kem ≡ waiting.ss_kem
unfolding mlkem_decaps kem_new_checked
same_kem = refl

same_digest :
    signing.th_client_auth ≡ (handshake_pending_get_digest ledger waiting.handshake_id env.now₀).1
unfolding handshake_pending_get_digest find_slot find_loop slot_at store_usable cap_limit_for
    bytes_eq replicate
same_digest = refl

finish-verify_client_auth_example :
    ((handshake_initiator_finish toy signing env).1.session_keys
      ≡ (handshake_responder_verify_client_auth toy waiting ledger env
          client_auth_bytes).1.session_keys)
    × ((handshake_initiator_finish toy signing env).1.keys_committed ≡ true)
    × ((handshake_responder_verify_client_auth toy waiting ledger env
          client_auth_bytes).1.keys_committed
        ≡ true)
unfolding kex_shared_secret
finish-verify_client_auth_example =
    finish-verify_client_auth toy signing waiting ledger env env client_auth_bytes finishes verifies
      refl same_kem same_digest refl refl refl refl refl

handshake_apply-Ends_example :
    EndsIn signing initiator client_auth_created established
      (handshake_apply toy signing zero_store (calls_initiator_finish env))
handshake_apply-Ends_example =
    handshake_apply-Ends toy signing zero_store (calls_initiator_finish env)

abbrev mixed_calls : List HandshakeCall
mixed_calls =
    calls_responder_finish ∷ calls_create_client_hello env 2000 ∷ calls_initiator_finish env ∷ []

handshake_run-IsGuarded_example : IsGuarded (handshake_run toy starting zero_store mixed_calls)
handshake_run-IsGuarded_example =
    handshake_run-IsGuarded toy starting zero_store mixed_calls (inl refl)
