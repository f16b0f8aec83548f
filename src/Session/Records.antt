-- ===== src/Session/Records.antt =====
-- Sealing and opening a record, and the small calls, of src/protocol/session.c. Behind the result
-- of the AEAD a call goes on in `seal_finish` and `open_finish`.
use mldsa_auth.Base.{
  Bool, List, Option, [], drop, false, if◌then◌else◌, leb, length, ltb, none, not, replicate, some,
  take, true, ℕ, ◌%◌, ◌&&◌, ◌++◌, ◌+◌, ◌-◌, ◌==◌, ◌^◌, ◌||◌, ◌∷◌,
}
use mldsa_auth.Base.Bytes.{all_zero, bytes_eq}
use mldsa_auth.Crypto.Aead.{Aead, aead_decrypt, aead_encrypt}
use mldsa_auth.Session.{
  Outcome, Session, State, auth, build_ad, build_nonce, empty, end_session, err_expired, expired,
  failed, initiator, inner_len_for, internal, invalid_arg, is_active, is_initiator, limit,
  load_be16, load_be64, malformed, ok, out_of_order, pad_bucket_valid, ranges_overlap, recv_key,
  refuse, replay, send_key, session_age_ms, session_content_len_bytes, session_header_bytes,
  session_max_content_bytes, session_max_plaintext_bytes, session_max_record_bytes,
  session_min_record_bytes, session_overhead_bytes, session_record_type, store_be16, store_be64,
  unexpected_state,
}

-- content_len || content || zeros
unfoldable pub padded_inner : List ℕ → ℕ → List ℕ
padded_inner pt padded_len =
    store_be16 (length pt)
    ++ (pt ++ replicate (padded_len - (session_content_len_bytes + length pt)) 0)

-- The ciphertext goes behind the header, if it has the length that it must.
unfoldable pub seal_finish : Session → ℕ → ℕ → Option (List ℕ) → Outcome
seal_finish s seq need none = end_session s failed internal (replicate need 0)
seal_finish s seq need (some ct) =
    if length ct + session_header_bytes == need
    then record {
      status = ok;
      session = s;
      out = (session_record_type ∷ store_be64 seq) ++ ct;
      len = need;
    }
    else end_session s failed internal (replicate need 0)

-- After the AEAD: the inner must be well formed, and only the content is handed back.
unfoldable pub open_inner : Session → ℕ → ℕ → List ℕ → Outcome
open_inner s seq body_len inner =
    let content_len = load_be16 inner in
    let pad_len = body_len - session_content_len_bytes - content_len in
    if ltb (body_len - session_content_len_bytes) content_len
    then end_session s failed malformed (replicate body_len 0)
    else if not (pad_len == 0)
        && not (all_zero (drop (session_content_len_bytes + content_len) inner))
    then end_session s failed malformed (replicate body_len 0)
    else record {
      status = ok;
      session = record s {
        recv_seq = (seq + 1) % 2 ^ 64;
        peer_confirmed = if is_initiator s.role then true else s.peer_confirmed;
      };
      out =
          take content_len (drop session_content_len_bytes inner)
          ++ replicate (body_len - content_len) 0;
      len = content_len;
    }

unfoldable pub open_finish : Session → ℕ → ℕ → Option (List ℕ) → Outcome
open_finish s seq body_len none = end_session s failed auth (replicate body_len 0)
open_finish s seq body_len (some inner) =
    if length inner == body_len
    then open_inner s seq body_len inner
    else end_session s failed auth (replicate body_len 0)

module _ (a : Aead) where
  -- The sequence number is taken before the encryption.
  unfoldable pub session_seal : Session → ℕ → List ℕ → ℕ → ℕ → ℕ → Outcome
  session_seal s now pt pt_at out_at out_cap =
      let padded_len = inner_len_for (length pt) s.limits.pad_bucket in
      let need = padded_len + session_overhead_bytes in
      let seq = s.send_seq in
      let advanced : Session = record s { send_seq = (seq + 1) % 2 ^ 64 } in
      if ltb session_max_content_bytes (length pt)
      then refuse s invalid_arg
      else if not (is_active s.state)
      then refuse s unexpected_state
      else if not (pad_bucket_valid s.limits.pad_bucket)
      then refuse s internal
      else if ltb out_cap need || ranges_overlap pt_at (length pt) out_at need
      then refuse s invalid_arg
      else if leb s.limits.reject_after_ms (session_age_ms s now)
          || leb s.limits.reject_after_messages s.send_seq
      then end_session s expired err_expired []
      else seal_finish advanced seq need (
          aead_encrypt a (padded_inner pt padded_len) (build_ad s s.send_dir seq) (build_nonce seq)
            (send_key s))

  unfoldable pub session_open : Session → ℕ → List ℕ → ℕ → ℕ → ℕ → Outcome
  session_open s now rec rec_at pt_at pt_cap =
      let writable =
        if ltb pt_cap session_max_plaintext_bytes then pt_cap else session_max_plaintext_bytes in
      let body_len = length rec - session_overhead_bytes in
      let seq = load_be64 (drop 1 rec) in
      if ranges_overlap rec_at (length rec) pt_at writable
      then refuse s invalid_arg
      else if not (is_active s.state)
      then refuse s unexpected_state
      else if leb s.limits.reject_after_ms (session_age_ms s now)
      then end_session s expired err_expired []
      else if ltb (length rec) session_min_record_bytes
          || ltb session_max_record_bytes (length rec)
          || not (bytes_eq (take 1 rec) (session_record_type ∷ []))
      then end_session s failed malformed []
      else if ltb pt_cap body_len
      then refuse s invalid_arg
      else if ltb seq s.recv_seq
      then end_session s failed replay []
      else if ltb s.recv_seq seq
      then end_session s failed out_of_order []
      else if leb s.limits.reject_after_messages seq
      then end_session s failed limit []
      else open_finish s seq body_len (
          aead_decrypt a (drop session_header_bytes rec) (build_ad s s.recv_dir seq)
            (build_nonce seq) (recv_key s))

-- A session of zeros. (The role 0 is neither role; what reads the role checks the state first.)
abbrev pub zero_session : Session
zero_session = record {
  state = empty;
  role = initiator;
  peer_confirmed = false;
  keys = none;
  send_dir = 0;
  recv_dir = 0;
  handshake_id = replicate 16 0;
  send_seq = 0;
  recv_seq = 0;
  start_ms = 0;
  limits = record {
    rekey_after_messages = 0;
    reject_after_messages = 0;
    rekey_after_ms = 0;
    reject_after_ms = 0;
    pad_bucket = 0;
  };
}

unfoldable pub session_wipe : Session → Session
session_wipe s = zero_session

unfoldable pub session_get_state : Session → State
session_get_state s = s.state

unfoldable pub session_is_peer_confirmed : Session → Bool
session_is_peer_confirmed s = is_active s.state && s.peer_confirmed

unfoldable pub session_rekey_due : Session → ℕ → Bool
unfolding session_age_ms
session_rekey_due s now =
    if not (is_active s.state)
    then true
    else leb s.limits.rekey_after_messages s.send_seq
      || leb s.limits.rekey_after_messages s.recv_seq
      || leb s.limits.rekey_after_ms (session_age_ms s now)
