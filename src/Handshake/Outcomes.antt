-- ===== src/Handshake/Outcomes.antt =====
-- How each call of src/protocol/handshake.c on a context ends.
use mldsa_auth.Base.{
  Bool, List, Option, Option-cases, [], arith, false, inl, inr, none, not, refl, replicate, some,
  true, ℕ, ◌≡◌, ◌⊎◌,
}
use mldsa_auth.Crypto.Kex.{kex_keypair_free}
use mldsa_auth.Crypto.Mlkem.{mlkem_keypair_free}
use mldsa_auth.Handshake.{
  Ctx, State, Status, attempt, auth_failure_limit, check_call, client_auth_verified, err_expired,
  established, fail_ctx, failed, handshake_id_mismatch, identity_key_mismatch, internal,
  invalid_arg, kex, malformed, ok, peer_identity_mismatch, replay, resource_exhausted,
  session_id_mismatch, session_keys_len, signature, unexpected_state, unknown_identity,
}
use mldsa_auth.Pending.{Store}
use mldsa_auth.Session.{Role}

-- An attempt is decided by giving both of its branches.
pub attempt_elim {ℓ ℓ' ℓ''} :
    {A : Type ℓ} {B : Type ℓ'} (P : B → Type ℓ'') (o : Option A) {fail : B} {go : A → B}
    → P fail
    → ((a : A) → o ≡ some a → P (go a))
    → P (attempt o fail go)
attempt_elim P none f g = f
attempt_elim P (some a) f g = g a refl

abbrev pub is_ok : Status → Bool
is_ok ok = true
is_ok invalid_arg = false
is_ok unexpected_state = false
is_ok malformed = false
is_ok unknown_identity = false
is_ok identity_key_mismatch = false
is_ok peer_identity_mismatch = false
is_ok session_id_mismatch = false
is_ok handshake_id_mismatch = false
is_ok replay = false
is_ok err_expired = false
is_ok signature = false
is_ok auth_failure_limit = false
is_ok kex = false
is_ok resource_exhausted = false
is_ok internal = false

-- `fail_ctx` has run: no secret is left and no key is committed.
pub record IsWiped (ctx : Ctx) : Type 0 where
  pub state : ctx.state ≡ failed
  pub eph : ctx.eph.private_key ≡ none
  pub kem : ctx.kem.secret_key ≡ none
  pub ss_kem : ctx.ss_kem ≡ none
  pub keys : (ctx.session_keys ≡ none) ⊎ (ctx.session_keys ≡ some (replicate session_keys_len 0))
  pub committed : ctx.keys_committed ≡ false

-- The status does not report success and may be tried again.
abbrev pub Retryable : Status → Type 0
Retryable st =
    (st ≡ invalid_arg)
    ⊎ ((st ≡ unexpected_state)
        ⊎ ((st ≡ malformed) ⊎ ((st ≡ handshake_id_mismatch) ⊎ (st ≡ signature))))

-- The states in which a context may hold committed keys.
abbrev pub HoldsKeys : State → Type 0
HoldsKeys st = (st ≡ client_auth_verified) ⊎ (st ≡ established)

-- A call of `role` that leads from the state `from` to `next` either leaves the state and the keys
-- alone, or leads there, and commits keys only on the way to a state that may hold them, or wipes the
-- context. The status and the context stand in its result.
pub data Ends {R : Type 0} (status : R → Status) (ctx_of : R → Ctx) (ctx : Ctx) (role : Role)
    (from next : State) : R → Type 0 where
  refused :
      {r : R}
      → Retryable (status r)
      → (ctx_of r).state ≡ ctx.state
      → (ctx_of r).keys_committed ≡ ctx.keys_committed
      → (ctx_of r).session_keys ≡ ctx.session_keys
      → Ends status ctx_of ctx role from next r
  advanced :
      {r : R}
      → status r ≡ ok
      → check_call ctx role from ≡ true
      → (ctx_of r).state ≡ next
      → HoldsKeys next ⊎ ((ctx_of r).keys_committed ≡ ctx.keys_committed)
      → Ends status ctx_of ctx role from next r
  gave_up :
      {r : R}
      → is_ok (status r) ≡ false
      → IsWiped (ctx_of r)
      → Ends status ctx_of ctx role from next r

pub fail_ctx-is_ok :
    (ctx : Ctx) (why : Status) → is_ok why ≡ false → is_ok (fail_ctx ctx why).0 ≡ false
unfolding fail_ctx
fail_ctx-is_ok ctx why h = h

pub fail_ctx-IsWiped : (ctx : Ctx) (why : Status) → IsWiped (fail_ctx ctx why).1
unfolding fail_ctx kex_keypair_free mlkem_keypair_free
fail_ctx-IsWiped ctx why = record {
  state = refl;
  eph = refl;
  kem = refl;
  ss_kem = refl;
  keys = elim (Option-cases ctx.session_keys) [
    | inl e ↦ inl (rw e refl)
    | inr (k, e) ↦ inr (rw e refl)
  ];
  committed = refl;
}

-- The result of a call that only changes the context.
abbrev pub EndsAt : Ctx → Role → State → State → Status × Ctx → Type 0
EndsAt = Ends (λ (r : Status × Ctx). r.0) (λ (r : Status × Ctx). r.1)

-- The result of a call that also writes a message.
abbrev pub EndsWith : Ctx → Role → State → State → Status × Ctx × List ℕ → Type 0
EndsWith = Ends (λ (r : Status × Ctx × List ℕ). r.0) (λ (r : Status × Ctx × List ℕ). r.1)

-- The result of a call that also changes the ledger.
abbrev pub EndsIn : Ctx → Role → State → State → Status × Ctx × Store → Type 0
EndsIn = Ends (λ (r : Status × Ctx × Store). r.0) (λ (r : Status × Ctx × Store). r.1)

-- The result of a call that does both.
abbrev pub EndsBoth : Ctx → Role → State → State → Status × Ctx × Store × List ℕ → Type 0
EndsBoth =
    Ends (λ (r : Status × Ctx × Store × List ℕ). r.0) (λ (r : Status × Ctx × Store × List ℕ). r.1)

pub not_elim : (b : Bool) → not b ≡ false → b ≡ true
not_elim b h = ground arith

-- The two results of `fail_ctx`, as the calls of the initiator hand them out.
module _ (ctx c : Ctx) (why : Status) (h : is_ok why ≡ false) {role : Role}
    {from next : State} where
  pub gives_up-EndsAt : EndsAt ctx role from next (fail_ctx c why)
  gives_up-EndsAt = gave_up (fail_ctx-is_ok c why h) (fail_ctx-IsWiped c why)

  pub gives_up-EndsWith : EndsWith ctx role from next ((fail_ctx c why).0, (fail_ctx c why).1, [])
  gives_up-EndsWith = gave_up (fail_ctx-is_ok c why h) (fail_ctx-IsWiped c why)

  pub gives_up-EndsIn :
      (s : Store) → EndsIn ctx role from next ((fail_ctx c why).0, (fail_ctx c why).1, s)
  gives_up-EndsIn s = gave_up (fail_ctx-is_ok c why h) (fail_ctx-IsWiped c why)

  pub gives_up-EndsBoth :
      (s : Store) → EndsBoth ctx role from next ((fail_ctx c why).0, (fail_ctx c why).1, s, [])
  gives_up-EndsBoth s = gave_up (fail_ctx-is_ok c why h) (fail_ctx-IsWiped c why)
