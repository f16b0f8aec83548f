-- ===== src/Handshake/Init.antt =====
-- src/protocol/handshake.c: initialization and teardown of contexts.
use mldsa_auth.Base.{
  Bool, List, Option, false, if◌then◌else◌, none, not, replicate, some, take, true, ℕ, ◌%◌, ◌&&◌,
  ◌==◌, ◌||◌,
}
use mldsa_auth.Base.Bytes.{blit, zeros}
use mldsa_auth.Crypto.Mldsa.{MldsaKeypair}
use mldsa_auth.Handshake.{
  Ctx, Status, failed_ctx, id_len_valid, invalid_arg, new, ok, resource_exhausted, same_role,
  server_hello_created, session_keys_len, state_code, zero_ctx,
}
use mldsa_auth.Keystore.{Keystore}
use mldsa_auth.Pending.{Store, handshake_pending_cancel, store_usable}
use mldsa_auth.Session.{Role, initiator, responder}
use mldsa_auth.Wire.{wire_id_max_len}

-- `keys` is what `secure_mem_alloc` gives; the id is its bytes, with their number.
unfoldable pub init_common :
    Bool
    → Role
    → List ℕ
    → ℕ
    → MldsaKeypair
    → Option Keystore
    → Option (List ℕ → Option (List ℕ))
    → Status × Ctx
init_common memory role local_id local_id_len local_keypair keystore lookup_fn =
    if not memory then (resource_exhausted, failed_ctx) else (
      ok,
      record zero_ctx {
        session_keys = some (replicate session_keys_len 0);
        role = some role;
        local_id = blit (zeros wire_id_max_len) (take local_id_len local_id);
        local_id_len = local_id_len % 256;
        local_keypair = local_keypair;
        keystore = keystore;
        lookup_fn = lookup_fn;
        state = new;
      },
    )

abbrev has_secret : MldsaKeypair → Bool
has_secret kp = elim kp.secret_key [ none ↦ false | some sk ↦ true ]

-- `!= NULL`
abbrev is_there {ℓ} : {A : Type ℓ} → Option A → Bool
is_there none = false
is_there (some x) = true

pub handshake_initiator_init :
    Bool → List ℕ → ℕ → MldsaKeypair → Option Keystore → List ℕ → ℕ → Status × Ctx
unfolding id_len_valid init_common
handshake_initiator_init memory local_id local_id_len local_keypair keystore peer_id peer_id_len =
    if not (id_len_valid local_id_len)
      || not (has_secret local_keypair)
      || not (is_there keystore)
      || not (id_len_valid peer_id_len)
    then (invalid_arg, failed_ctx)
    else let (st, ctx) =
        init_common memory initiator local_id local_id_len local_keypair keystore none in
      if not memory then (st, ctx) else (
        ok,
        record ctx {
          peer_id = blit (zeros wire_id_max_len) (take peer_id_len peer_id);
          peer_id_len = peer_id_len % 256;
        },
      )

-- Exactly one of the keystore and `lookup_fn` must be there.
abbrev one_resolver : Option Keystore → Option (List ℕ → Option (List ℕ)) → Bool
one_resolver keystore lookup_fn =
    if is_there keystore then not (is_there lookup_fn) else is_there lookup_fn

pub responder_init_impl :
    Bool
    → List ℕ
    → ℕ
    → MldsaKeypair
    → Option Keystore
    → Option (List ℕ → Option (List ℕ))
    → Store
    → Status × Ctx
unfolding id_len_valid init_common store_usable
responder_init_impl memory local_id local_id_len local_keypair keystore lookup_fn pending =
    if not (id_len_valid local_id_len)
      || not (has_secret local_keypair)
      || not (one_resolver keystore lookup_fn)
      || not (store_usable pending)
    then (invalid_arg, failed_ctx)
    else init_common memory responder local_id local_id_len local_keypair keystore lookup_fn

pub handshake_responder_init :
    Bool → List ℕ → ℕ → MldsaKeypair → Option Keystore → Store → Status × Ctx
unfolding responder_init_impl
handshake_responder_init memory local_id local_id_len local_keypair keystore pending =
    responder_init_impl memory local_id local_id_len local_keypair keystore none pending

pub handshake_responder_init_ext :
    Bool → List ℕ → ℕ → MldsaKeypair → Option (List ℕ → Option (List ℕ)) → Store → Status × Ctx
unfolding responder_init_impl
handshake_responder_init_ext memory local_id local_id_len local_keypair lookup_fn pending =
    responder_init_impl memory local_id local_id_len local_keypair none lookup_fn pending

-- A responder that has sent its ServerHello cancels its entry first.
unfoldable pub handshake_ctx_wipe : Ctx → Store → ℕ → Ctx × Store
handshake_ctx_wipe ctx pending now = (
  failed_ctx,
  if same_role ctx.role responder && state_code ctx.state == state_code server_hello_created
      then (handshake_pending_cancel pending ctx.handshake_id now).1
      else pending,
)
