-- ===== src/Session/Open.antt =====
-- What `session_open` of src/protocol/session.c checks before and after the AEAD.
use mldsa_auth.Base.{
  List, Option, [], arith, drop, false, if◌then◌else◌, length, ltb, take, true, ℕ, ◌-◌, ◌<◌, ◌∷◌,
  ◌≡◌, ◌≤◌,
}
use mldsa_auth.Base.Bytes.{bytes_eq}
use mldsa_auth.Crypto.Aead.{Aead, aead_decrypt}
use mldsa_auth.Session.{
  Session, build_ad, build_nonce, is_active, load_be64, ok, ranges_overlap, recv_key,
  session_age_ms, session_header_bytes, session_max_plaintext_bytes, session_max_record_bytes,
  session_min_record_bytes, session_overhead_bytes, session_record_type,
}
use mldsa_auth.Session.Records.{open_finish, session_open}

module _ (a : Aead) (s : Session) (now : ℕ) (rec : List ℕ) (rec_at pt_at room : ℕ) where
  abbrev pub body : ℕ
  body = length rec - session_overhead_bytes

  abbrev pub writable : ℕ
  writable = if ltb room session_max_plaintext_bytes then room else session_max_plaintext_bytes

  abbrev pub seq_of : ℕ
  seq_of = load_be64 (drop 1 rec)

  abbrev pub opened_text : Option (List ℕ)
  opened_text =
      aead_decrypt a (drop session_header_bytes rec) (build_ad s s.recv_dir seq_of)
        (build_nonce seq_of) (recv_key s)

  -- The checks that a record passes before any AEAD work.
  pub record OpenChecks : Type 0 where
    pub apart : ranges_overlap rec_at (length rec) pt_at writable ≡ false
    pub live : is_active s.state ≡ true
    pub young : session_age_ms s now < s.limits.reject_after_ms
    pub long : session_min_record_bytes ≤ length rec
    pub short : length rec ≤ session_max_record_bytes
    pub type_ok : bytes_eq (take 1 rec) (session_record_type ∷ []) ≡ true
    pub fits : body ≤ room
    pub in_order : seq_of ≡ s.recv_seq
    pub below : s.recv_seq < s.limits.reject_after_messages

  pub open_checked :
      OpenChecks
      → session_open a s now rec rec_at pt_at room ≡ open_finish s seq_of body opened_text
  unfolding session_open
  open_checked c = ground arith

  pub open_checks :
      (session_open a s now rec rec_at pt_at room).status ≡ ok
      → OpenChecks
        × (session_open a s now rec rec_at pt_at room ≡ open_finish s seq_of body opened_text)
  unfolding session_open
  open_checks h = ground arith
