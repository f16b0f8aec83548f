-- ===== src/Session/Init.antt =====
-- src/protocol/session.c: `session_init_from_handshake`, and the two sessions of one handshake.
use mldsa_auth.Base.{
  Bool, Bool-cases, List, Option, arith, drop, drop-append, if◌then◌else◌, inl, inr, length,
  length-drop, length-take, none, not, refl, some, sym, take, take-append, true, ℕ, ◌&&◌, ◌++◌,
  ◌==◌, ◌||◌, ◌∙◌, ◌≡◌,
}
use mldsa_auth.Crypto.Kex.{kex_dir_c2s, kex_dir_s2c}
use mldsa_auth.Handshake.{Ctx, session_keys_len}
use mldsa_auth.Handshake.Init.{handshake_ctx_wipe}
use mldsa_auth.Handshake.Keys.{
  handshake_get_handshake_id, handshake_is_peer_confirmed, handshake_session_key_c2s,
  handshake_session_key_s2c, is_established, key_at,
}
use mldsa_auth.Pending.{Store}
use mldsa_auth.Session.{
  Limits, Role, Session, Status, active, err_expired, has_block, initiator, invalid_arg, is_empty,
  is_initiator, limits_valid, ok, resource_exhausted, responder, session_default_limits, uint64_max,
  unexpected_state,
}
use mldsa_auth.Session.RoundTrip.{InSync}

-- The status, the session and the handshake context. `limits` is none for NULL, `memory` whether
-- `secure_mem_alloc` gives the key block. The handshake is consumed: its context is wiped, which
-- in the state it is in leaves the ledger alone.
unfoldable pub session_init_from_handshake :
    Session → Ctx → Option Limits → ℕ → Bool → Store → ℕ → Status × Session × Ctx × Store
session_init_from_handshake s hs limits now memory pending now_wipe =
    let eff : Limits = elim limits [ none ↦ session_default_limits | some l ↦ l ] in
    let c2s = (handshake_session_key_c2s hs).1 in
    let s2c = (handshake_session_key_s2c hs).1 in
    let hs_id = (handshake_get_handshake_id hs).1 in
    if not (is_empty s.state) || has_block s.keys
    then (unexpected_state, s, hs, pending)
    else if not (elim limits [ none ↦ true | some l ↦ limits_valid l ])
    then (invalid_arg, s, hs, pending)
    else elim hs.role [
      | none ↦ (unexpected_state, s, hs, pending)
      | some role ↦ elim c2s [
        | none ↦ (unexpected_state, s, hs, pending)
        | some key_c2s ↦ elim s2c [
          | none ↦ (unexpected_state, s, hs, pending)
          | some key_s2c ↦
              if not (is_established hs)
              then (unexpected_state, s, hs, pending)
              else if not (is_initiator role) && not (handshake_is_peer_confirmed hs)
              then (unexpected_state, s, hs, pending)
              else if now == uint64_max
              then (err_expired, s, hs, pending)
              else if not memory
              then (resource_exhausted, s, hs, pending)
              else let (wiped, pending') = handshake_ctx_wipe hs pending now_wipe in
                (
                  ok,
                  record {
                    state = active;
                    role = role;
                    peer_confirmed = not (is_initiator role);
                    keys =
                        some (if is_initiator role then key_c2s ++ key_s2c else key_s2c ++ key_c2s);
                    send_dir = if is_initiator role then kex_dir_c2s else kex_dir_s2c;
                    recv_dir = if is_initiator role then kex_dir_s2c else kex_dir_c2s;
                    handshake_id = hs_id;
                    send_seq = 0;
                    recv_seq = 0;
                    start_ms = now;
                    limits = eff;
                  },
                  wiped,
                  pending',
                )
        ]
      ]
    ]

-- The session that a successful init makes of a context with its two keys.
abbrev made : Ctx → Role → Option Limits → ℕ → List ℕ → List ℕ → Session
made hs role limits now key_c2s key_s2c = record {
  state = active;
  role = role;
  peer_confirmed = not (is_initiator role);
  keys = some (if is_initiator role then key_c2s ++ key_s2c else key_s2c ++ key_c2s);
  send_dir = if is_initiator role then kex_dir_c2s else kex_dir_s2c;
  recv_dir = if is_initiator role then kex_dir_s2c else kex_dir_c2s;
  handshake_id = hs.handshake_id;
  send_seq = 0;
  recv_seq = 0;
  start_ms = now;
  limits = elim limits [ none ↦ session_default_limits | some l ↦ l ];
}

init_made :
    (s : Session) (hs : Ctx) (limits : Option Limits) (now : ℕ) (memory : Bool) (pending : Store)
    (t : ℕ) (role : Role) (keys : List ℕ)
    → hs.role ≡ some role
    → hs.session_keys ≡ some keys
    → (session_init_from_handshake s hs limits now memory pending t).0 ≡ ok
    → (session_init_from_handshake s hs limits now memory pending t).1
      ≡ made hs role limits now (take 32 (drop 0 keys)) (take 32 (drop 32 keys))
unfolding session_init_from_handshake handshake_session_key_c2s handshake_session_key_s2c
    handshake_get_handshake_id key_at
init_made s hs limits now memory pending t role keys e f h = elim (Bool-cases (is_established hs)) [
  | inr est ↦ absurd (ground (arith, e, f, est))
  | inl est ↦ ground (arith, e, f, est)
]

-- The two key blocks of one handshake are each other's halves in the other order.
halves :
    (keys : List ℕ)
    → length keys ≡ session_keys_len
    → (take 32 (take 32 (drop 0 keys) ++ take 32 (drop 32 keys)) ≡ take 32 (drop 0 keys))
      × (drop 32 (take 32 (drop 32 keys) ++ take 32 (drop 0 keys)) ≡ take 32 (drop 0 keys))
      × (take 32 (take 32 (drop 32 keys) ++ take 32 (drop 0 keys)) ≡ take 32 (drop 32 keys))
      × (drop 32 (take 32 (drop 0 keys) ++ take 32 (drop 32 keys)) ≡ take 32 (drop 32 keys))
halves keys h =
    let a : length (take 32 (drop 0 keys)) ≡ 32 =
      omega (arith, h, length-take 32 (drop 0 keys), length-drop 0 keys) in
    let b : length (take 32 (drop 32 keys)) ≡ 32 =
      omega (arith, h, length-take 32 (drop 32 keys), length-drop 32 keys) in
    (
      take-append 32 (take 32 (drop 0 keys)) (take 32 (drop 32 keys)) a,
      drop-append 32 (take 32 (drop 32 keys)) (take 32 (drop 0 keys)) b,
      take-append 32 (take 32 (drop 32 keys)) (take 32 (drop 0 keys)) b,
      drop-append 32 (take 32 (drop 0 keys)) (take 32 (drop 32 keys)) a,
    )

-- The sessions that the two sides make of one handshake, whose contexts hold the same keys and the
-- same handshake id, are in step in both directions, whatever limits each side asked for.
pub session_init-InSync :
    (s r : Session) (hs peer : Ctx) (limits limits' : Option Limits) (now now' : ℕ)
    (memory memory' : Bool) (pending pending' : Store) (t t' : ℕ) (keys : List ℕ)
    → hs.role ≡ some initiator
    → peer.role ≡ some responder
    → hs.session_keys ≡ some keys
    → peer.session_keys ≡ some keys
    → length keys ≡ session_keys_len
    → hs.handshake_id ≡ peer.handshake_id
    → (session_init_from_handshake s hs limits now memory pending t).0 ≡ ok
    → (session_init_from_handshake r peer limits' now' memory' pending' t').0 ≡ ok
    → let mine = (session_init_from_handshake s hs limits now memory pending t).1 in
      let theirs = (session_init_from_handshake r peer limits' now' memory' pending' t').1 in
      InSync mine theirs × InSync theirs mine
session_init-InSync s r hs peer limits limits' now now' memory memory' pending pending' t t' keys i
      j k k' size id h h' =
    let (a, b, c, d) = halves keys size in
    rw
      (
        init_made s hs limits now memory pending t initiator keys i k h,
        init_made r peer limits' now' memory' pending' t' responder keys j k' h',
      )
      (
        record { key = a ∙ sym b; handshake = id; direction = refl; seq = refl },
        record { key = c ∙ sym d; handshake = sym id; direction = refl; seq = refl },
      )
