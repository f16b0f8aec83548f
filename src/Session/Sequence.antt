-- ===== src/Session/Sequence.antt =====
-- Runs of calls on one session of src/protocol/session.c: the numbers of the records that it sends
-- and of those that it accepts.
use mldsa_auth.Base.{
  List, Option, [], arith, drop, false, if◌then◌else◌, inl, inr, none, refl, some, true, ℕ, ◌%◌,
  ◌++◌, ◌+◌, ◌<◌, ◌^◌, ◌∙◌, ◌∷◌, ◌≡◌, ◌≤◌, ◌⊎◌,
}
use mldsa_auth.Crypto.Aead.{Aead}
use mldsa_auth.Session.{
  Outcome, Session, State, expired, failed, is_active, limits_valid, load_be64, ok,
}
use mldsa_auth.Session.Open.{body, open_checks, opened_text}
use mldsa_auth.Session.Padding.{limits_bound}
use mldsa_auth.Session.Records.{open_finish, open_inner, session_open, session_seal}
use mldsa_auth.Session.RoundTrip.{record_parts}
use mldsa_auth.Session.Seal.{reserved, seal_checks, seal_finish_ok, sealed_text}
use mldsa_auth.Session.Terminal.{Left, ended, is_ok, open-Left, refused, seal-Left, went_on}

-- A call, with its clock reading and buffers.
pub data Call : Type 0 where
  seal_call : (now : ℕ) (pt : List ℕ) (pt_at out_at room : ℕ) → Call
  open_call : (now : ℕ) (rec : List ℕ) (rec_at pt_at room : ℕ) → Call

unfoldable pub perform : Aead → Session → Call → Outcome
perform a s (seal_call now pt pt_at out_at room) = session_seal a s now pt pt_at out_at room
perform a s (open_call now rec rec_at pt_at room) = session_open a s now rec rec_at pt_at room

-- The sequence number in a record's header.
abbrev number_of : List ℕ → ℕ
number_of rec = load_be64 (drop 1 rec)

-- The number of the record that the call has handed to its caller, if it has.
unfoldable pub sent_by : Call → Outcome → List ℕ
sent_by (seal_call now pt pt_at out_at room) o = if is_ok o.status then number_of o.out ∷ [] else []
sent_by (open_call now rec rec_at pt_at room) o = []

-- The number of the record whose content the call has handed to its caller, if it has.
unfoldable pub accepted_by : Call → Outcome → List ℕ
accepted_by (seal_call now pt pt_at out_at room) o = []
accepted_by (open_call now rec rec_at pt_at room) o =
    if is_ok o.status then number_of rec ∷ [] else []

unfoldable pub sent : Aead → Session → List Call → List ℕ
sent a s [] = []
sent a s (c ∷ cs) = sent_by c (perform a s c) ++ sent a (perform a s c).session cs

unfoldable pub accepted : Aead → Session → List Call → List ℕ
accepted a s [] = []
accepted a s (c ∷ cs) = accepted_by c (perform a s c) ++ accepted a (perform a s c).session cs

-- Each number of the list is at least the bound, and greater than the one before it.
unfoldable pub Ascend : ℕ → List ℕ → Type 0
Ascend low [] = Unit
Ascend low (x ∷ xs) = (low ≤ x) × Ascend (x + 1) xs

-- The list is n, n + 1, and so on.
pub Consecutive : ℕ → List ℕ → Type 0
Consecutive n [] = Unit
Consecutive n (x ∷ xs) = (x ≡ n) × Consecutive (n + 1) xs

pub seal_ok :
    (a : Aead) (s : Session) (now : ℕ) (pt : List ℕ) (pt_at out_at room : ℕ)
    → limits_valid s.limits ≡ true
    → (session_seal a s now pt pt_at out_at room).status ≡ ok
    → (number_of (session_seal a s now pt pt_at out_at room).out ≡ s.send_seq)
      × ((session_seal a s now pt pt_at out_at room).session.send_seq ≡ s.send_seq + 1)
      × ((session_seal a s now pt pt_at out_at room).session.recv_seq ≡ s.recv_seq)
seal_ok a s now pt pt_at out_at room valid h =
    let (c, e) = seal_checks a s now pt pt_at out_at room h in
    let (ct, enc, size, fin) =
      seal_finish_ok (reserved a s now pt pt_at out_at room) s.send_seq _
        (sealed_text a s now pt pt_at out_at room) (rw e at h) in
    let small : s.send_seq < 2 ^ 33 = omega (arith, (limits_bound s.limits valid).0, c.below) in
    rw (e ∙ fin) ((record_parts s.send_seq ct (omega (arith, small))).1, omega (arith, small), refl)

open_inner_ok :
    (s : Session) (seq body : ℕ) (inner : List ℕ)
    → (open_inner s seq body inner).status ≡ ok
    → ((open_inner s seq body inner).session.send_seq ≡ s.send_seq)
      × ((open_inner s seq body inner).session.recv_seq ≡ (seq + 1) % 2 ^ 64)
unfolding open_inner
open_inner_ok s seq body inner h = ground arith

open_finish_seq :
    (s : Session) (seq body : ℕ) (o : Option (List ℕ))
    → (open_finish s seq body o).status ≡ ok
    → ((open_finish s seq body o).session.send_seq ≡ s.send_seq)
      × ((open_finish s seq body o).session.recv_seq ≡ (seq + 1) % 2 ^ 64)
unfolding open_finish
open_finish_seq s seq body none h = absurd (cc)
open_finish_seq s seq body (some inner) h = ground (arith, open_inner_ok s seq body inner)

open_ok :
    (a : Aead) (s : Session) (now : ℕ) (rec : List ℕ) (rec_at pt_at room : ℕ)
    → limits_valid s.limits ≡ true
    → (session_open a s now rec rec_at pt_at room).status ≡ ok
    → (number_of rec ≡ s.recv_seq)
      × ((session_open a s now rec rec_at pt_at room).session.send_seq ≡ s.send_seq)
      × ((session_open a s now rec rec_at pt_at room).session.recv_seq ≡ s.recv_seq + 1)
open_ok a s now rec rec_at pt_at room valid h =
    let (c, e) = open_checks a s now rec rec_at pt_at room h in
    let (send, recv) =
      open_finish_seq s _ (body a s now rec rec_at pt_at room)
        (opened_text a s now rec rec_at pt_at room) (rw e at h) in
    let small : s.recv_seq < 2 ^ 33 = omega (arith, (limits_bound s.limits valid).0, c.below) in
    rw e (c.in_order, send, recv ∙ rw c.in_order (omega (arith, small)))

-- What a call does to a session, over all of its calls.
pub perform-Left :
    (a : Aead) (s : Session) (c : Call) → limits_valid s.limits ≡ true → Left s (perform a s c)
unfolding perform
perform-Left a s (seal_call now pt pt_at out_at room) valid =
    seal-Left a s now pt pt_at out_at room valid
perform-Left a s (open_call now rec rec_at pt_at room) valid =
    open-Left a s now rec rec_at pt_at room

pub quiet :
    (c : Call) (o : Outcome) → is_ok o.status ≡ false → (sent_by c o ≡ []) × (accepted_by c o ≡ [])
unfolding sent_by accepted_by
quiet (seal_call now pt pt_at out_at room) o h = rw h (refl, refl)
quiet (open_call now rec rec_at pt_at room) o h = rw h (refl, refl)

-- A session that is not active refuses each call and is left as it is.
pub perform_dead :
    (a : Aead) (s : Session) (c : Call)
    → is_active s.state ≡ false
    → (is_ok (perform a s c).status ≡ false) × ((perform a s c).session ≡ s)
unfolding perform session_seal session_open
perform_dead a s (seal_call now pt pt_at out_at room) dead = ground arith
perform_dead a s (open_call now rec rec_at pt_at room) dead = ground arith

unfoldable pub run : Aead → Session → List Call → Session
unfolding perform
run a s [] = s
run a s (c ∷ cs) = run a (perform a s c).session cs

-- Seals and opens on a session that is not active hand out no record and no content, and leave it
-- as it is.
pub dead_forever :
    (a : Aead) (s : Session) (cs : List Call)
    → is_active s.state ≡ false
    → (sent a s cs ≡ []) × (accepted a s cs ≡ []) × (run a s cs ≡ s)
unfolding sent accepted run
dead_forever a s [] dead = (refl, refl, refl)
dead_forever a s (c ∷ cs) dead =
    let (bad, same) = perform_dead a s c dead in
    let (none_sent, none_accepted) = quiet c (perform a s c) bad in
    rw (none_sent, none_accepted, same) (dead_forever a s cs dead)

pub not_active : (x : State) → (x ≡ expired) ⊎ (x ≡ failed) → is_active x ≡ false
not_active x (inl e) = rw e refl
not_active x (inr e) = rw e refl

-- One step of the numbers: what the call hands out, and from where the session goes on.
data Numbers (a : Aead) (s : Session) (c : Call) : Type 0 where
  nothing :
      sent_by c (perform a s c) ≡ []
      → accepted_by c (perform a s c) ≡ []
      → (perform a s c).session ≡ s
      → Numbers a s c
  sends :
      sent_by c (perform a s c) ≡ s.send_seq ∷ []
      → accepted_by c (perform a s c) ≡ []
      → (perform a s c).session.send_seq ≡ s.send_seq + 1
      → (perform a s c).session.recv_seq ≡ s.recv_seq
      → (perform a s c).session.limits ≡ s.limits
      → Numbers a s c
  accepts :
      sent_by c (perform a s c) ≡ []
      → accepted_by c (perform a s c) ≡ s.recv_seq ∷ []
      → (perform a s c).session.send_seq ≡ s.send_seq
      → (perform a s c).session.recv_seq ≡ s.recv_seq + 1
      → (perform a s c).session.limits ≡ s.limits
      → Numbers a s c
  ends :
      sent_by c (perform a s c) ≡ []
      → accepted_by c (perform a s c) ≡ []
      → is_active (perform a s c).session.state ≡ false
      → Numbers a s c

Numbers-ok :
    (a : Aead) (s : Session) (c : Call)
    → limits_valid s.limits ≡ true
    → (perform a s c).status ≡ ok
    → (perform a s c).session.limits ≡ s.limits
    → Numbers a s c
unfolding perform sent_by accepted_by
Numbers-ok a s (seal_call now pt pt_at out_at room) valid h l =
    let (n, send, recv) = seal_ok a s now pt pt_at out_at room valid h in
    sends (rw (h, n) refl) refl send recv l
Numbers-ok a s (open_call now rec rec_at pt_at room) valid h l =
    let (n, send, recv) = open_ok a s now rec rec_at pt_at room valid h in
    accepts refl (rw (h, n) refl) send recv l

Numbers-of :
    (a : Aead) (s : Session) (c : Call)
    → limits_valid s.limits ≡ true
    → Left s (perform a s c)
    → Numbers a s c
Numbers-of a s c valid (refused why same) =
    let bad : is_ok (perform a s c).status ≡ false = elim why [
      | inl e ↦ rw e refl
      | inr e ↦ rw e refl
    ] in
    nothing (quiet c (perform a s c) bad).0 (quiet c (perform a s c) bad).1 same
Numbers-of a s c valid (went_on h up keys l) = Numbers-ok a s c valid h l
Numbers-of a s c valid (ended bad e) =
    ends (quiet c (perform a s c) bad).0 (quiet c (perform a s c) bad).1 (not_active _ e.state)

-- The numbers of a run from those of its first call and of the rest.
Numbers-cons :
    (a : Aead) (s : Session) (c : Call) (cs : List Call)
    → limits_valid s.limits ≡ true
    → Numbers a s c
    → (limits_valid (perform a s c).session.limits ≡ true
        → Ascend (perform a s c).session.send_seq (sent a (perform a s c).session cs)
          × Consecutive (perform a s c).session.recv_seq (accepted a (perform a s c).session cs))
    → Ascend s.send_seq (sent a s (c ∷ cs)) × Consecutive s.recv_seq (accepted a s (c ∷ cs))
unfolding sent accepted Ascend Consecutive
Numbers-cons a s c cs valid (nothing e f same) rest =
    rw (e, f, same) (rw same at (rest (rw same valid)))
Numbers-cons a s c cs valid (sends e f send recv l) rest =
    let (up, seq) = rest (rw l valid) in rw (e, f) ((omega arith, rw send at up), rw recv at seq)
Numbers-cons a s c cs valid (accepts e f send recv l) rest =
    let (up, seq) = rest (rw l valid) in rw (e, f) (rw send at up, (refl, rw recv at seq))
Numbers-cons a s c cs valid (ends e f dead) rest =
    let (no_more, no_content, same) = dead_forever a (perform a s c).session cs dead in
    rw (e, f, no_more, no_content) (tt, tt)

-- Over any seal and open calls, the records that a session hands out carry greater and greater
-- numbers, from its `send_seq` on, and the records that it accepts are numbered by its `recv_seq`
-- and so on, without a gap.
pub run_numbers :
    (a : Aead) (s : Session) (cs : List Call)
    → limits_valid s.limits ≡ true
    → Ascend s.send_seq (sent a s cs) × Consecutive s.recv_seq (accepted a s cs)
unfolding sent accepted Ascend Consecutive
run_numbers a s [] valid = (tt, tt)
run_numbers a s (c ∷ cs) valid =
    Numbers-cons a s c cs valid (Numbers-of a s c valid (perform-Left a s c valid))
      (run_numbers a (perform a s c).session cs)
