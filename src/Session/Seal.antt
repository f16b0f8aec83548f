-- ===== src/Session/Seal.antt =====
-- What a successful `session_seal` of src/protocol/session.c has checked and written.
use mldsa_auth.Base.{
  List, Option, arith, false, length, none, refl, some, true, ℕ, ◌%◌, ◌++◌, ◌+◌, ◌<◌, ◌^◌, ◌∷◌, ◌≡◌,
  ◌≤◌,
}
use mldsa_auth.Crypto.Aead.{Aead, aead_encrypt}
use mldsa_auth.Session.{
  Session, build_ad, build_nonce, inner_len_for, is_active, ok, pad_bucket_valid, ranges_overlap,
  send_key, session_age_ms, session_header_bytes, session_max_content_bytes, session_overhead_bytes,
  session_record_type, session_sealed_len, store_be64,
}
use mldsa_auth.Session.Records.{padded_inner, seal_finish, session_seal}

pub seal_finish_ok :
    (s : Session) (seq need : ℕ) (o : Option (List ℕ))
    → (seal_finish s seq need o).status ≡ ok
    → (ct : List ℕ) × (o ≡ some ct)
      × (length ct + session_header_bytes ≡ need)
      × (seal_finish s seq need o ≡ record {
        status = ok;
        session = s;
        out = (session_record_type ∷ store_be64 seq) ++ ct;
        len = need;
      })
unfolding seal_finish
seal_finish_ok s seq need none h = absurd (cc)
seal_finish_ok s seq need (some ct) h = (ct, refl, ground arith, ground arith)

module _ (a : Aead) (s : Session) (now : ℕ) (pt : List ℕ) (pt_at out_at room : ℕ) where
  abbrev pub inner_len : ℕ
  inner_len = inner_len_for (length pt) s.limits.pad_bucket

  abbrev pub reserved : Session
  reserved = record s { send_seq = (s.send_seq + 1) % 2 ^ 64 }

  abbrev pub sealed_text : Option (List ℕ)
  sealed_text =
      aead_encrypt a (padded_inner pt inner_len) (build_ad s s.send_dir s.send_seq)
        (build_nonce s.send_seq) (send_key s)

  -- The checks that a seal has passed.
  pub record SealChecks : Type 0 where
    pub content : length pt ≤ session_max_content_bytes
    pub live : is_active s.state ≡ true
    pub bucket : pad_bucket_valid s.limits.pad_bucket ≡ true
    pub fits : inner_len + session_overhead_bytes ≤ room
    pub young : session_age_ms s now < s.limits.reject_after_ms
    pub below : s.send_seq < s.limits.reject_after_messages

  pub seal_checks :
      (session_seal a s now pt pt_at out_at room).status ≡ ok
      → SealChecks
        × (session_seal a s now pt pt_at out_at room
            ≡ seal_finish reserved s.send_seq (inner_len + session_overhead_bytes) sealed_text)
  unfolding session_seal
  seal_checks h = ground arith

  pub seal_checked :
      SealChecks
      → ranges_overlap pt_at (length pt) out_at (inner_len + session_overhead_bytes) ≡ false
      → session_seal a s now pt pt_at out_at room
        ≡ seal_finish reserved s.send_seq (inner_len + session_overhead_bytes) sealed_text
  unfolding session_seal
  seal_checked c apart = ground arith

pub sealed_len_lem :
    (s : Session) (n : ℕ)
    → n ≤ session_max_content_bytes
    → pad_bucket_valid s.limits.pad_bucket ≡ true
    → session_sealed_len s n ≡ inner_len_for n s.limits.pad_bucket + session_overhead_bytes
unfolding session_sealed_len
sealed_len_lem s n h v = ground arith

pub seal_finish_done :
    (s : Session) (seq need : ℕ) (ct : List ℕ)
    → length ct + session_header_bytes ≡ need
    → seal_finish s seq need (some ct) ≡ record {
      status = ok;
      session = s;
      out = (session_record_type ∷ store_be64 seq) ++ ct;
      len = need;
    }
unfolding seal_finish
seal_finish_done s seq need ct h = ground arith
