-- ===== src/Session/Tests.antt =====
-- Tests of src/protocol/session.c, with an AEAD that copies the text and appends a tag of zeros.
use mldsa_auth.Base.{
  List, Option, [], ap, arith, drop, false, if◌then◌else◌, inr, length, length-append,
  length-replicate, ltb, map, none, refl, replicate, some, some_inj, take, take-append, true, ℕ,
  ◌++◌, ◌-◌, ◌∷◌, ◌≡◌, ◌≤◌,
}
use mldsa_auth.Crypto.Aead.{Aead, IsAead, aead_encrypt}
use mldsa_auth.Handshake.{Ctx, established, zero_ctx}
use mldsa_auth.Handshake.Keys.{
  handshake_get_handshake_id, handshake_is_peer_confirmed, handshake_session_key_c2s,
  handshake_session_key_s2c, key_at,
}
use mldsa_auth.Pending.{Store, nowhere}
use mldsa_auth.Session.{
  Limits, Session, active, build_ad, build_nonce, failed, initiator, inner_len_for, limits_valid,
  load_be64, ok, pad_bucket_valid, ranges_overlap, responder, send_key, session_age_ms,
  session_max_plaintext_bytes, session_max_record_bytes, session_min_record_bytes,
  session_sealed_len, store_be16, store_be64,
}
use mldsa_auth.Session.Ended.{
  AllRefused, LayerCall, ended_forever, init_call, layer_run, record_call,
}
use mldsa_auth.Session.Init.{session_init-InSync, session_init_from_handshake}
use mldsa_auth.Session.Nonces.{AllApart, SealedUnder, run_nonces}
use mldsa_auth.Session.Padding.{Padded, inner_len_for-Padded}
use mldsa_auth.Session.Records.{padded_inner, seal_finish, session_open, session_seal, zero_session}
use mldsa_auth.Session.RoundTrip.{InSync, open-seal, seal_succeeds}
use mldsa_auth.Session.Sequence.{
  Ascend, Call, Consecutive, accepted, open_call, perform, seal_call, sent, sent_by,
}
use mldsa_auth.Session.Terminal.{Left, open-Left, seal-Left}

abbrev toy_encrypt : List ℕ → List ℕ → List ℕ → List ℕ → Option (List ℕ)
toy_encrypt key nonce ad msg = some (msg ++ replicate 16 0)

abbrev toy_decrypt : List ℕ → List ℕ → List ℕ → List ℕ → Option (List ℕ)
toy_decrypt key nonce ad ct = some (take (length ct - 16) ct)

abbrev toy_aead : Aead
toy_aead = record { encrypt = toy_encrypt; decrypt = toy_decrypt }

toy_decrypts :
    (msg : List ℕ) → take (length (msg ++ replicate 16 0) - 16) (msg ++ replicate 16 0) ≡ msg
toy_decrypts msg =
    rw
      (take-append (length (msg ++ replicate 16 0) - 16) msg (replicate 16 0)
        (omega (arith, length-append msg (replicate 16 0), length-replicate {A = ℕ} 16 0)))
      refl

toy_aead-IsAead : IsAead toy_aead
unfolding replicate
toy_aead-IsAead = record {
  encrypts = λ key nonce ad msg. (msg ++ replicate 16 0, refl, length-append msg (replicate 16 0));
  decrypts = λ key nonce ad msg ct e. rw (← some_inj e) (ap some (toy_decrypts msg));
}

abbrev sample_limits : Limits
sample_limits = record {
  rekey_after_messages = 4;
  reject_after_messages = 8;
  rekey_after_ms = 1000;
  reject_after_ms = 2000;
  pad_bucket = 16;
}

abbrev sender : Session
sender = record {
  state = active;
  role = initiator;
  peer_confirmed = false;
  keys = some (replicate 32 1 ++ replicate 32 2);
  send_dir = 1;
  recv_dir = 2;
  handshake_id = replicate 16 7;
  send_seq = 0;
  recv_seq = 0;
  start_ms = 100;
  limits = sample_limits;
}

abbrev receiver : Session
receiver = record {
  state = active;
  role = responder;
  peer_confirmed = true;
  keys = some (replicate 32 2 ++ replicate 32 1);
  send_dir = 2;
  recv_dir = 1;
  handshake_id = replicate 16 7;
  send_seq = 0;
  recv_seq = 0;
  start_ms = 100;
  limits = sample_limits;
}

sample_limits_valid : limits_valid sample_limits ≡ true
unfolding limits_valid
sample_limits_valid = refl

abbrev calls : List Call
calls =
    seal_call 150 (5 ∷ 6 ∷ []) 1000 2000 100
    ∷ seal_call 160 (7 ∷ []) 1000 2000 100
    ∷ open_call 170 (4 ∷ replicate 40 0) 3000 4000 100
    ∷ []

sent_twice : sent toy_aead sender calls ≡ 0 ∷ 1 ∷ []
unfolding sent sent_by perform session_seal session_open session_age_ms ranges_overlap inner_len_for
    padded_inner seal_finish build_ad build_nonce store_be64 store_be16 pad_bucket_valid
    aead_encrypt load_be64 take drop replicate
sent_twice = refl

run_nonces_example :
    Ascend 0 (sent toy_aead sender calls)
    × Consecutive 0 (accepted toy_aead sender calls)
    × SealedUnder toy_aead
        (send_key sender)
        sender
        calls
        (map build_nonce (sent toy_aead sender calls))
    × AllApart (map build_nonce (sent toy_aead sender calls))
run_nonces_example = run_nonces toy_aead sender calls sample_limits_valid

seal-Left_example : Left sender (session_seal toy_aead sender 150 (5 ∷ []) 1000 2000 100)
seal-Left_example = seal-Left toy_aead sender 150 (5 ∷ []) 1000 2000 100 sample_limits_valid

open-Left_example : Left sender (session_open toy_aead sender 150 (replicate 41 4) 1000 2000 100)
open-Left_example = open-Left toy_aead sender 150 (replicate 41 4) 1000 2000 100

inner_len_for-Padded_example : Padded 100 256 (inner_len_for 100 256)
unfolding pad_bucket_valid
inner_len_for-Padded_example = inner_len_for-Padded 100 256 (omega arith) refl

in_sync : InSync sender receiver
unfolding take drop replicate
in_sync = record { key = refl; handshake = refl; direction = refl; seq = refl }

sealed_ok : (session_seal toy_aead sender 150 (5 ∷ 6 ∷ []) 1000 2000 100).status ≡ ok
unfolding session_seal session_age_ms ranges_overlap inner_len_for padded_inner seal_finish build_ad
    build_nonce store_be64 store_be16 pad_bucket_valid aead_encrypt take drop replicate
sealed_ok = refl

sealed_apart :
    ranges_overlap 5000
      (length (session_seal toy_aead sender 150 (5 ∷ 6 ∷ []) 1000 2000 100).out)
      7000
      (if ltb 64 session_max_plaintext_bytes then 64 else session_max_plaintext_bytes)
    ≡ false
unfolding session_seal session_age_ms ranges_overlap inner_len_for padded_inner seal_finish build_ad
    build_nonce store_be64 store_be16 pad_bucket_valid aead_encrypt take drop replicate
sealed_apart = refl

open-seal_example :
    let sealing = session_seal toy_aead sender 150 (5 ∷ 6 ∷ []) 1000 2000 100 in
    let got = session_open toy_aead receiver 160 sealing.out 5000 7000 64 in
    (got.status ≡ ok)
    × (got.len ≡ 2)
    × (got.out ≡ (5 ∷ 6 ∷ []) ++ replicate (inner_len_for 2 16 - 2) 0)
    × InSync sealing.session got.session
unfolding session_age_ms inner_len_for
open-seal_example =
    open-seal toy_aead sender receiver 150 160 (5 ∷ 6 ∷ []) 1000 2000 100 5000 7000 64
      toy_aead-IsAead in_sync sample_limits_valid sealed_ok refl (omega arith) (omega arith)
      (omega arith) sealed_apart

seal_succeeds_example :
    ((session_seal toy_aead sender 150 (5 ∷ 6 ∷ []) 1000 2000 100).status ≡ ok)
    × (length (session_seal toy_aead sender 150 (5 ∷ 6 ∷ []) 1000 2000 100).out
        ≡ session_sealed_len sender 2)
    × ((session_seal toy_aead sender 150 (5 ∷ 6 ∷ []) 1000 2000 100).len
        ≡ session_sealed_len sender 2)
    × (session_sealed_len sender 2 ≤ session_max_record_bytes)
    × (session_min_record_bytes ≤ session_sealed_len sender 2)
unfolding session_age_ms session_sealed_len pad_bucket_valid inner_len_for ranges_overlap
seal_succeeds_example =
    seal_succeeds toy_aead sender 150 (5 ∷ 6 ∷ []) 1000 2000 100 toy_aead-IsAead sample_limits_valid
      (omega arith) refl (omega arith) (omega arith) (omega arith) refl

-- The two contexts of one handshake, at its end.
abbrev initiator_end : Ctx
initiator_end = record zero_ctx {
  role = some initiator;
  state = established;
  handshake_id = replicate 16 7;
  session_keys = some (replicate 64 3);
  keys_committed = true;
}

abbrev responder_end : Ctx
responder_end = record zero_ctx {
  role = some responder;
  state = established;
  handshake_id = replicate 16 7;
  session_keys = some (replicate 64 3);
  keys_committed = true;
}

abbrev no_ledger : Store
no_ledger = record { home = nowhere; slots = []; ttl_ms = 0; has_clock = false }

initiator_init :
    (session_init_from_handshake zero_session initiator_end none 5 true no_ledger 6).0 ≡ ok
unfolding session_init_from_handshake handshake_session_key_c2s handshake_session_key_s2c
    handshake_get_handshake_id key_at handshake_is_peer_confirmed
initiator_init = refl

responder_init :
    (session_init_from_handshake zero_session responder_end
      (some sample_limits)
      7
      true
      no_ledger
      8).0
    ≡ ok
unfolding session_init_from_handshake handshake_session_key_c2s handshake_session_key_s2c
    handshake_get_handshake_id key_at handshake_is_peer_confirmed limits_valid
responder_init = refl

session_init-InSync_example :
    let mine = (session_init_from_handshake zero_session initiator_end none 5 true no_ledger 6).1 in
    let theirs =
      (session_init_from_handshake zero_session responder_end
        (some sample_limits)
        7
        true
        no_ledger
        8).1 in
    InSync mine theirs × InSync theirs mine
session_init-InSync_example =
    session_init-InSync zero_session zero_session initiator_end responder_end none
      (some sample_limits) 5 7 true true no_ledger no_ledger 6 8 (replicate 64 3) refl refl refl
      refl (length-replicate {A = ℕ} 64 3) refl initiator_init responder_init

abbrev failed_sender : Session
failed_sender = record sender { state = failed }

abbrev late_calls : List LayerCall
late_calls =
    record_call (seal_call 150 (5 ∷ []) 1000 2000 100)
    ∷ init_call initiator_end none 5 true no_ledger 6
    ∷ []

ended_forever_example :
    AllRefused (layer_run toy_aead failed_sender late_calls).0
    × ((layer_run toy_aead failed_sender late_calls).1 ≡ failed_sender)
ended_forever_example = ended_forever toy_aead failed_sender late_calls (inr refl)
