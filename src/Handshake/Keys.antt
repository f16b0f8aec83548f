-- ===== src/Handshake/Keys.antt =====
-- src/protocol/handshake.c: what a context tells of itself.
use mldsa_auth.Base.{
  Bool, List, Option, drop, if◌then◌else◌, none, not, replicate, some, take, ℕ, ◌&&◌, ◌==◌,
}
use mldsa_auth.Crypto.Kex.{kex_session_key_bytes}
use mldsa_auth.Handshake.{
  Ctx, State, Status, established, ok, same_role, state_code, unexpected_state,
}
use mldsa_auth.Session.{Role, responder}
use mldsa_auth.Wire.{wire_handshake_id_len}

abbrev pub is_established : Ctx → Bool
is_established ctx = state_code ctx.state == state_code established && ctx.keys_committed

unfoldable pub handshake_get_state : Ctx → State
handshake_get_state ctx = ctx.state

unfoldable pub handshake_get_role : Ctx → Status × Option Role
handshake_get_role ctx = elim ctx.role [
  | none ↦ (unexpected_state, none)
  | some role ↦ (ok, some role)
]

-- The status, and what is left in `handshake_id_out`.
unfoldable pub handshake_get_handshake_id : Ctx → Status × List ℕ
handshake_get_handshake_id ctx =
    if not (is_established ctx)
    then (unexpected_state, replicate wire_handshake_id_len 0)
    else (ok, ctx.handshake_id)

-- The status, and the key behind `*key_out`.
unfoldable pub key_at : Ctx → ℕ → Status × Option (List ℕ)
key_at ctx offset =
    if not (is_established ctx) then (unexpected_state, none) else elim ctx.session_keys [
      | none ↦ (unexpected_state, none)
      | some keys ↦ (ok, some (take kex_session_key_bytes (drop offset keys)))
    ]

unfoldable pub handshake_session_key_c2s : Ctx → Status × Option (List ℕ)
unfolding key_at
handshake_session_key_c2s ctx = key_at ctx 0

unfoldable pub handshake_session_key_s2c : Ctx → Status × Option (List ℕ)
unfolding key_at
handshake_session_key_s2c ctx = key_at ctx kex_session_key_bytes

unfoldable pub handshake_is_peer_confirmed : Ctx → Bool
handshake_is_peer_confirmed ctx = same_role ctx.role responder && is_established ctx
