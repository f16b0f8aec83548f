-- ===== src/Handshake.antt =====
-- src/protocol/handshake.h and handshake.c: the handshake contexts. The primitives are a parameter;
-- what a call takes from the system (random bytes, memory, the clock) is its argument `env`. The
-- ledger that responder contexts point at is an argument of the calls and a part of their result.
-- A context of all zeros has no role; the pointers that the code compares with NULL are taken to be
-- there.
pub mod Init
pub mod Initiator
pub mod Responder
pub mod Keys
pub mod Outcomes
pub mod InitiatorEnds
pub mod ResponderEnds
pub mod ServerHelloEnds
pub mod Machine
pub mod Guarded
pub mod Authentic
pub mod Agreement
mod Tests
use mathlib.Core.Option
use mldsa_auth.Pending
use mldsa_auth.Base.{
  Bool, List, Option, [], false, if◌then◌else◌, leb, none, not, replicate, some, true, ℕ, ◌&&◌, ◌*◌,
  ◌++◌, ◌==◌, ◌>>=◌, ◌>>◌,
}
use mldsa_auth.Crypto.Kex.{
  Hkdf, KexKeypair, X25519, kex_derive_session_key_v2, kex_dir_c2s, kex_dir_s2c, kex_keypair_free,
  kex_public_key_bytes, kex_session_key_bytes,
}
use mldsa_auth.Crypto.Mldsa.{MldsaKeypair, OqsSig, mldsa_verify, no_mldsa_keypair}
use mldsa_auth.Crypto.Mlkem.{MlkemKeypair, OqsKem, mlkem_keypair_free, no_mlkem_keypair}
use mldsa_auth.Keystore.{Keystore, keystore_lookup, keystore_ok}
use mldsa_auth.Session.{Role, initiator, responder}
use mldsa_auth.Transcript.{Sha256}
use mldsa_auth.Wire.{
  wire_handshake_id_len, wire_id_max_len, wire_id_min_len, wire_mlkem_ct_len, wire_session_id_len,
}

pub record Primitives : Type 1 where
  pub sha : Sha256
  pub x25519 : X25519
  pub hkdf : Hkdf
  pub kem : OqsKem
  pub sig : OqsSig

-- What the system gives in the course of one call.
pub record Env : Type 0 where
  -- `secure_mem_alloc` and `randombytes_buf` for the X25519 key; `none` if the allocation fails
  pub kex_sk : Option (List ℕ)
  pub kem_memory : Bool
  pub kem_coins : List ℕ
  pub session_id : List ℕ
  pub nonce : List ℕ
  pub sign_coins : List ℕ
  pub shared_memory : Bool
  pub ss_kem_memory : Bool
  pub keys_memory : Bool
  -- the readings of the ledger's clock, in their order
  pub now₀ : ℕ
  pub now₁ : ℕ

-- `handshake_state_t`
pub data State : Type 0 where
  new : State
  client_hello_created server_hello_verified client_auth_created : State
  client_hello_accepted server_hello_created client_auth_verified : State
  established failed : State

-- `handshake_status_t`
pub data Status : Type 0 where
  ok invalid_arg unexpected_state malformed unknown_identity identity_key_mismatch : Status
  peer_identity_mismatch session_id_mismatch handshake_id_mismatch replay err_expired : Status
  signature auth_failure_limit kex resource_exhausted internal : Status

-- `handshake_ctx_t`. `none` for a NULL keystore or `lookup_fn`; `lookup_fn` has its
-- `lookup_ctx`, and the keystore is as it stands when it is asked. The accepted ClientHello bytes are the first `ch_len` of `ch_bytes`.
pub record Ctx : Type 0 where
  pub role : Option Role
  pub state : State
  pub local_id : List ℕ
  pub local_id_len : ℕ
  pub local_keypair : MldsaKeypair
  pub keystore : Option Keystore
  pub lookup_fn : Option (List ℕ → Option (List ℕ))
  pub peer_id : List ℕ
  pub peer_id_len : ℕ
  pub peer_pk : Option (List ℕ)
  pub session_id : List ℕ
  pub ch_bytes : List ℕ
  pub peer_eph_pub : List ℕ
  pub handshake_id : List ℕ
  pub th_client_auth : List ℕ
  pub eph : KexKeypair
  pub kem : MlkemKeypair
  pub peer_mlkem_ct : List ℕ
  pub ss_kem : Option (List ℕ)
  pub session_keys : Option (List ℕ)
  pub keys_committed : Bool

abbrev pub session_keys_len : ℕ
session_keys_len = 2 * kex_session_key_bytes

-- A number for each state, to compare them.
abbrev pub state_code : State → ℕ
state_code new = 0
state_code client_hello_created = 1
state_code server_hello_verified = 2
state_code client_auth_created = 3
state_code client_hello_accepted = 4
state_code server_hello_created = 5
state_code client_auth_verified = 6
state_code established = 7
state_code failed = 8

abbrev pub same_role : Option Role → Role → Bool
same_role none r = false
same_role (some initiator) initiator = true
same_role (some initiator) responder = false
same_role (some responder) initiator = false
same_role (some responder) responder = true

unfoldable pub id_len_valid : ℕ → Bool
id_len_valid id_len = leb wire_id_min_len id_len && leb id_len wire_id_max_len

unfoldable pub check_call : Ctx → Role → State → Bool
check_call ctx role state = same_role ctx.role role && state_code ctx.state == state_code state

unfoldable pub fail_ctx : Ctx → Status → Status × Ctx
unfolding kex_keypair_free mlkem_keypair_free
fail_ctx ctx why = (
  why,
  record ctx {
    eph = kex_keypair_free ctx.eph;
    kem = mlkem_keypair_free ctx.kem;
    ss_kem = none;
    session_keys = Option.map (λ keys. replicate session_keys_len 0) ctx.session_keys;
    keys_committed = false;
    ch_bytes = [];
    th_client_auth = replicate 32 0;
    handshake_id = replicate wire_handshake_id_len 0;
    peer_eph_pub = replicate kex_public_key_bytes 0;
    peer_mlkem_ct = replicate wire_mlkem_ct_len 0;
    state = failed;
  },
)

unfoldable pub map_pending_failure : Pending.Status → Status
map_pending_failure Pending.err_expired = err_expired
map_pending_failure Pending.not_found = err_expired
map_pending_failure Pending.err_consumed = replay
map_pending_failure Pending.auth_limit = auth_failure_limit
map_pending_failure Pending.ok = internal
map_pending_failure Pending.invalid_arg = internal
map_pending_failure Pending.full = internal

-- The key for c2s, then that for s2c.
unfoldable pub derive_traffic_keys :
    Primitives → List ℕ → List ℕ → List ℕ → List ℕ → ℕ → List ℕ → ℕ → List ℕ → Option (List ℕ)
derive_traffic_keys p ss_x ss_k session_id initiator_id initiator_id_len responder_id
      responder_id_len th =
    do
      c2s ←
          kex_derive_session_key_v2 p.hkdf ss_x ss_k session_id initiator_id initiator_id_len
            responder_id responder_id_len th kex_dir_c2s
      s2c ←
          kex_derive_session_key_v2 p.hkdf ss_x ss_k session_id initiator_id initiator_id_len
            responder_id responder_id_len th kex_dir_s2c
      some (c2s ++ s2c)

unfoldable pub resolve_peer_pk : Ctx → List ℕ → Option (List ℕ)
resolve_peer_pk ctx id = elim ctx.lookup_fn [
  | some lookup ↦ lookup id
  | none ↦ elim ctx.keystore [
    | none ↦ none
    | some ks ↦ let (st, pk) = keystore_lookup ks id in if not (keystore_ok st) then none else pk
  ]
]

-- A context of zeros.
abbrev pub zero_ctx : Ctx
zero_ctx = record {
  role = none;
  state = new;
  local_id = replicate wire_id_max_len 0;
  local_id_len = 0;
  local_keypair = no_mldsa_keypair;
  keystore = none;
  lookup_fn = none;
  peer_id = replicate wire_id_max_len 0;
  peer_id_len = 0;
  peer_pk = none;
  session_id = replicate wire_session_id_len 0;
  ch_bytes = [];
  peer_eph_pub = replicate kex_public_key_bytes 0;
  handshake_id = replicate wire_handshake_id_len 0;
  th_client_auth = replicate 32 0;
  eph = record { public_key = replicate kex_public_key_bytes 0; private_key = none };
  kem = no_mlkem_keypair;
  peer_mlkem_ct = replicate wire_mlkem_ct_len 0;
  ss_kem = none;
  session_keys = none;
  keys_committed = false;
}

-- What a failed init leaves.
abbrev pub failed_ctx : Ctx
failed_ctx = let blank = zero_ctx in record blank { state = failed }

-- `goto fail` on a step that gives nothing, and on with what it gives.
abbrev pub attempt {ℓ ℓ'} : {A : Type ℓ} {B : Type ℓ'} → Option A → B → (A → B) → B
attempt none fail go = fail
attempt (some a) fail go = go a

abbrev pub pending_ok : Pending.Status → Bool
pending_ok Pending.ok = true
pending_ok Pending.invalid_arg = false
pending_ok Pending.not_found = false
pending_ok Pending.err_expired = false
pending_ok Pending.err_consumed = false
pending_ok Pending.auth_limit = false
pending_ok Pending.full = false

-- `mldsa_verify` under the pinned key; it refuses NULL.
abbrev pub verify_with : Primitives → Option (List ℕ) → List ℕ → List ℕ → Bool
verify_with p none msg sig = false
verify_with p (some pk) msg sig = mldsa_verify p.sig msg sig pk
