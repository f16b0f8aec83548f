-- ===== src/Session/Terminal.antt =====
-- How each call of src/protocol/session.c leaves the session: as it was, one message further, or
-- at an end with its keys wiped.
use mathlib.Core.Option
use mldsa_auth.Base.{
  Bool, List, Option, [], arith, drop, false, if_elim, inl, inr, leb, length, ltb, none, not, refl,
  replicate, some, take, true, ℕ, ◌&&◌, ◌+◌, ◌-◌, ◌==◌, ◌||◌, ◌∷◌, ◌≡◌, ◌⊎◌,
}
use mldsa_auth.Base.Bytes.{all_zero, bytes_eq}
use mldsa_auth.Crypto.Aead.{Aead}
use mldsa_auth.Session.{
  Outcome, Session, State, Status, active, auth, empty, err_expired, expired, failed, internal,
  invalid_arg, is_active, key_block_len, limit, limits_valid, load_be16, malformed, ok,
  out_of_order, pad_bucket_valid, ranges_overlap, replay, resource_exhausted, session_age_ms,
  session_content_len_bytes, session_header_bytes, session_max_content_bytes,
  session_max_record_bytes, session_min_record_bytes, session_record_type, terminate,
  unexpected_state,
}
use mldsa_auth.Session.Open.{body}
use mldsa_auth.Session.Padding.{limits_bound}
use mldsa_auth.Session.Records.{open_finish, open_inner, seal_finish, session_open, session_seal}

-- `session_terminate` has run: no key is left, no peer counts as confirmed, and no later call works.
pub record IsEnded (before after : Session) : Type 0 where
  pub state : (after.state ≡ expired) ⊎ (after.state ≡ failed)
  pub keys : after.keys ≡ Option.map (λ block. replicate key_block_len 0) before.keys
  pub confirmed : after.peer_confirmed ≡ false
  pub limits : after.limits ≡ before.limits

abbrev pub is_ok : Status → Bool
is_ok ok = true
is_ok invalid_arg = false
is_ok unexpected_state = false
is_ok malformed = false
is_ok replay = false
is_ok out_of_order = false
is_ok auth = false
is_ok limit = false
is_ok err_expired = false
is_ok resource_exhausted = false
is_ok internal = false

-- The three ways in which a call ends: the status says which.
pub data Left (s : Session) : Outcome → Type 0 where
  refused :
      {o : Outcome}
      → (o.status ≡ invalid_arg) ⊎ (o.status ≡ unexpected_state)
      → o.session ≡ s
      → Left s o
  went_on :
      {o : Outcome}
      → o.status ≡ ok
      → o.session.state ≡ active
      → o.session.keys ≡ s.keys
      → o.session.limits ≡ s.limits
      → Left s o
  ended : {o : Outcome} → is_ok o.status ≡ false → IsEnded s o.session → Left s o

active_of : (x : State) → is_active x ≡ true → x ≡ active
active_of active h = refl
active_of empty h = absurd (cc)
active_of expired h = absurd (cc)
active_of failed h = absurd (cc)

terminate-IsEnded :
    (s : Session) (x : State) → (x ≡ expired) ⊎ (x ≡ failed) → IsEnded s (terminate s x)
unfolding terminate
terminate-IsEnded s x h = record { state = h; keys = refl; confirmed = refl; limits = refl }

-- An end of the session that a call reports.
ending :
    (s : Session) (x : State) (why : Status) (out : List ℕ)
    → is_ok why ≡ false
    → (x ≡ expired) ⊎ (x ≡ failed)
    → Left s (record { status = why; session = terminate s x; out = out; len = 0 })
ending s x why out not_ok h = ended not_ok (terminate-IsEnded s x h)

seal_finish-Left :
    (s : Session) (next seq need : ℕ) (o : Option (List ℕ))
    → is_active s.state ≡ true
    → Left s (seal_finish (record s { send_seq = next }) seq need o)
unfolding seal_finish terminate
seal_finish-Left s next seq need none up =
    ended refl (record { state = inr refl; keys = refl; confirmed = refl; limits = refl })
seal_finish-Left s next seq need (some ct) up =
    if_elim (Left s) (length ct + session_header_bytes == need)
      (λ h. went_on refl (active_of s.state up) refl refl)
      (λ h. ended refl (record { state = inr refl; keys = refl; confirmed = refl; limits = refl }))

open_inner-Left :
    (s : Session) (seq body : ℕ) (inner : List ℕ)
    → is_active s.state ≡ true
    → Left s (open_inner s seq body inner)
unfolding open_inner
open_inner-Left s seq body inner up =
    if_elim (Left s) (ltb (body - session_content_len_bytes) (load_be16 inner))
      (λ h. ending s failed malformed (replicate body 0) refl (inr refl))
      (λ h.
        if_elim (Left s)
          (not (body - session_content_len_bytes - load_be16 inner == 0)
            && not (all_zero (drop (session_content_len_bytes + load_be16 inner) inner)))
          (λ h. ending s failed malformed (replicate body 0) refl (inr refl))
          (λ h. went_on refl (active_of s.state up) refl refl))

open_finish-Left :
    (s : Session) (seq body : ℕ) (o : Option (List ℕ))
    → is_active s.state ≡ true
    → Left s (open_finish s seq body o)
unfolding open_finish
open_finish-Left s seq body none up = ending s failed auth (replicate body 0) refl (inr refl)
open_finish-Left s seq body (some inner) up =
    if_elim (Left s) (length inner == body) (λ h. open_inner-Left s seq body inner up)
      (λ h. ending s failed auth (replicate body 0) refl (inr refl))

-- With valid limits, `session_seal` leaves the session as it was and reports misuse, or succeeds and
-- leaves it active with the same keys and limits, or fails and ends it with the keys wiped and no
-- peer confirmed.
pub seal-Left :
    (a : Aead) (s : Session) (now : ℕ) (pt : List ℕ) (pt_at out_at room : ℕ)
    → limits_valid s.limits ≡ true
    → Left s (session_seal a s now pt pt_at out_at room)
unfolding session_seal
seal-Left a s now pt pt_at out_at room valid =
    if_elim (Left s) (ltb session_max_content_bytes (length pt)) (λ h. refused (inl refl) refl)
      (λ h0.
        if_elim (Left s) (not (is_active s.state)) (λ h. refused (inr refl) refl)
          (λ up.
            if_elim (Left s) (not (pad_bucket_valid s.limits.pad_bucket))
              (λ h. absurd (ground (arith, limits_bound s.limits valid)))
              (λ h1.
                if_elim (Left s) (ltb room _ || ranges_overlap pt_at (length pt) out_at _)
                  (λ h. refused (inl refl) refl)
                  (λ h2.
                    if_elim (Left s)
                      (leb s.limits.reject_after_ms (session_age_ms s now)
                        || leb s.limits.reject_after_messages s.send_seq)
                      (λ h. ending s expired err_expired [] refl (inl refl))
                      (λ h3. seal_finish-Left s _ _ _ _ (ground arith))))))

-- `session_open` leaves the session as it was and reports misuse, or succeeds and leaves it active
-- with the same keys and limits, or fails and ends it with the keys wiped and no peer confirmed.
pub open-Left :
    (a : Aead) (s : Session) (now : ℕ) (rec : List ℕ) (rec_at pt_at room : ℕ)
    → Left s (session_open a s now rec rec_at pt_at room)
unfolding session_open
open-Left a s now rec rec_at pt_at room =
    if_elim (Left s) (ranges_overlap rec_at (length rec) pt_at _) (λ h. refused (inl refl) refl)
      (λ h0.
        if_elim (Left s) (not (is_active s.state)) (λ h. refused (inr refl) refl)
          (λ up.
            if_elim (Left s) (leb s.limits.reject_after_ms (session_age_ms s now))
              (λ h. ending s expired err_expired [] refl (inl refl))
              (λ h1.
                if_elim (Left s)
                  (ltb (length rec) session_min_record_bytes
                    || ltb session_max_record_bytes (length rec)
                    || not (bytes_eq (take 1 rec) (session_record_type ∷ [])))
                  (λ h. ending s failed malformed [] refl (inr refl))
                  (λ h2.
                    if_elim (Left s) (ltb room _) (λ h. refused (inl refl) refl)
                      (λ h3.
                        if_elim (Left s) (ltb _ s.recv_seq)
                          (λ h. ending s failed replay [] refl (inr refl))
                          (λ h4.
                            if_elim (Left s) (ltb s.recv_seq _)
                              (λ h. ending s failed out_of_order [] refl (inr refl))
                              (λ h5.
                                if_elim (Left s) (leb s.limits.reject_after_messages _)
                                  (λ h. ending s failed limit [] refl (inr refl))
                                  (λ h6. open_finish-Left s _ _ _ (ground arith)))))))))
