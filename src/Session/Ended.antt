-- ===== src/Session/Ended.antt =====
-- A session of src/protocol/session.c that has ended stays ended: whatever is called on it except
-- `session_wipe`, which clears it.
use mldsa_auth.Base.{Bool, List, Option, [], arith, false, inl, inr, refl, ℕ, ◌∙◌, ◌∷◌, ◌≡◌, ◌⊎◌}
use mldsa_auth.Crypto.Aead.{Aead}
use mldsa_auth.Handshake.{Ctx}
use mldsa_auth.Pending.{Store}
use mldsa_auth.Session.{Limits, Session, State, Status, expired, failed, is_active, is_empty}
use mldsa_auth.Session.Init.{session_init_from_handshake}
use mldsa_auth.Session.Records.{session_open, session_seal}
use mldsa_auth.Session.Sequence.{Call, not_active, open_call, perform, perform_dead, seal_call}
use mldsa_auth.Session.Terminal.{is_ok}

-- A call of the session layer on one session; the init with the other arguments that it takes.
pub data LayerCall : Type 0 where
  record_call : Call → LayerCall
  init_call :
      (hs : Ctx) (limits : Option Limits) (now : ℕ) (memory : Bool) (pending : Store) (now_wipe : ℕ)
      → LayerCall

-- The status with what was written to the caller's buffer, and the session after the call.
unfoldable pub layer_step : Aead → Session → LayerCall → (Status × List ℕ) × Session
layer_step a s (record_call c) = let o = perform a s c in ((o.status, o.out), o.session)
layer_step a s (init_call hs limits now memory pending now_wipe) =
    let r = session_init_from_handshake s hs limits now memory pending now_wipe in ((r.0, []), r.1)

unfoldable pub layer_run : Aead → Session → List LayerCall → List (Status × List ℕ) × Session
unfolding layer_step
layer_run a s [] = ([], s)
layer_run a s (c ∷ cs) =
    let rest = layer_run a (layer_step a s c).1 cs in ((layer_step a s c).0 ∷ rest.0, rest.1)

-- None of the calls reports success, and none has written a byte.
pub AllRefused : List (Status × List ℕ) → Type 0
AllRefused [] = Unit
AllRefused ((why, out) ∷ rest) = (is_ok why ≡ false) × (out ≡ []) × AllRefused rest

perform_silent :
    (a : Aead) (s : Session) (c : Call) → is_active s.state ≡ false → (perform a s c).out ≡ []
unfolding perform session_seal session_open
perform_silent a s (seal_call now pt pt_at out_at room) dead = ground arith
perform_silent a s (open_call now rec rec_at pt_at room) dead = ground arith

ended_not_empty : (x : State) → (x ≡ expired) ⊎ (x ≡ failed) → is_empty x ≡ false
ended_not_empty x (inl e) = rw e refl
ended_not_empty x (inr e) = rw e refl

ended_step :
    (a : Aead) (s : Session) (c : LayerCall)
    → (s.state ≡ expired) ⊎ (s.state ≡ failed)
    → (is_ok (layer_step a s c).0.0 ≡ false)
      × ((layer_step a s c).0.1 ≡ [])
      × ((layer_step a s c).1 ≡ s)
unfolding layer_step session_init_from_handshake
ended_step a s (record_call c) over =
    let dead = not_active s.state over in
    let (bad, same) = perform_dead a s c dead in (bad, perform_silent a s c dead, same)
ended_step a s (init_call hs limits now memory pending now_wipe) over =
    rw (ended_not_empty s.state over) (refl, refl, refl)

-- On a session that has expired or failed, no sequence of `session_seal`, `session_open` and
-- `session_init_from_handshake` calls has one that
-- succeeds or writes a byte, and none changes the session.
pub ended_forever :
    (a : Aead) (s : Session) (cs : List LayerCall)
    → (s.state ≡ expired) ⊎ (s.state ≡ failed)
    → AllRefused (layer_run a s cs).0 × ((layer_run a s cs).1 ≡ s)
unfolding layer_run AllRefused
ended_forever a s [] over = (tt, refl)
ended_forever a s (c ∷ cs) over =
    let (bad, silent, same) = ended_step a s c over in
    let (refusals, kept) = ended_forever a (layer_step a s c).1 cs (rw same over) in
    ((bad, silent, refusals), kept ∙ same)
