-- ===== src/Authmsg/Rotate.antt =====
-- ROTATE and ROTATE_ACK of apps/authd/authmsg.c, and the digest that both keys sign.
use mldsa_auth.Authmsg.{
  AuthmsgStatus, authmsg_fp_bytes, authmsg_op_rotate, authmsg_op_rotate_ack, authmsg_version,
  err_arg, err_bad_field, err_bad_length, err_bad_version, err_empty, err_unknown_op, get_be64,
  msg_ok, put_be64, reserved_bits, store_id_max,
}
use mldsa_auth.Base.{
  Bool, List, Option, [], drop, if◌then◌else◌, length, ltb, none, not, some, take, ℕ, ◌%◌, ◌++◌,
  ◌+◌, ◌/◌, ◌==◌, ◌^◌, ◌||◌, ◌∷◌,
}
use mldsa_auth.Base.Bytes.{byte_at, zeros}
use mldsa_auth.Crypto.Mldsa.{mldsa_public_key_bytes}
use mldsa_auth.ProxyV2.{be16}
use mldsa_auth.Transcript.{Sha256}
use mldsa_auth.Wire.{mldsa_signature_max_bytes}

-- `authmsg_rotate_t`
pub record RotateMsg : Type 0 where
  pub flags : ℕ
  pub handle : List ℕ
  pub pk_new : List ℕ
  pub sig_old : List ℕ
  pub sig_new : List ℕ

abbrev pub zero_rotate : RotateMsg
zero_rotate = record { flags = 0; handle = []; pk_new = []; sig_old = []; sig_new = [] }

-- `authmsg_rotate_ack_t`
pub record RotateAck : Type 0 where
  pub handle : List ℕ
  pub fp_new : List ℕ
  pub rotated_at : ℕ

abbrev pub zero_rotate_ack : RotateAck
zero_rotate_ack = record { handle = []; fp_new = zeros authmsg_fp_bytes; rotated_at = 0 }

unfoldable pub put_be16 : ℕ → List ℕ
put_be16 v = (v / 2 ^ 8 % 256) ∷ (v % 256) ∷ []

abbrev pub get_be16 : List ℕ → ℕ
get_be16 p = be16 (byte_at p 0) (byte_at p 1)

-- A handle of 1 to STORE_ID_MAX bytes, and a signature of 1 to the maximum.
abbrev pub bad_handle_len : ℕ → Bool
bad_handle_len n = n == 0 || ltb store_id_max n

abbrev pub bad_sig_len : ℕ → Bool
bad_sig_len n = n == 0 || ltb mldsa_signature_max_bytes n

-- A return value that the code does not look at.
abbrev pub absorb : (sha : Sha256) → sha.State → List ℕ → sha.State
absorb sha s bytes = elim (sha.update s bytes) [ none ↦ s | some s' ↦ s' ]

unfoldable pub authmsg_rotate_digest :
    Sha256 → List ℕ → List ℕ → ℕ → List ℕ → List ℕ → List ℕ → AuthmsgStatus × Option (List ℕ)
authmsg_rotate_digest sha label hs_id flags handle pk_old pk_new =
    if bad_handle_len (length handle) then (err_arg, none) else elim sha.init [
      | none ↦ (err_arg, none)
      | some s₀ ↦
          let s₁ = absorb sha s₀ label in
          let s₂ = absorb sha s₁ (0x00 ∷ []) in
          let s₃ = absorb sha s₂ hs_id in
          let s₄ = absorb sha s₃ (flags ∷ []) in
          let s₅ = absorb sha s₄ (length handle % 256 ∷ []) in
          let s₆ = absorb sha s₅ handle in
          let s₇ = absorb sha s₆ pk_old in (msg_ok, sha.final (absorb sha s₇ pk_new))
    ]

unfoldable pub authmsg_encode_rotate : ℕ → RotateMsg → AuthmsgStatus × List ℕ
authmsg_encode_rotate out_cap m =
    if bad_handle_len (length m.handle)
      || bad_sig_len (length m.sig_old)
      || bad_sig_len (length m.sig_new)
    then (err_bad_field, [])
    else if not (reserved_bits m.flags == 0)
    then (err_bad_field, [])
    else if ltb out_cap
        (4 + length m.handle + mldsa_public_key_bytes + 2 + length m.sig_old + 2 + length m.sig_new)
    then (err_arg, [])
    else (
      msg_ok,
      (authmsg_op_rotate ∷ authmsg_version ∷ m.flags ∷ length m.handle % 256 ∷ [])
          ++ (m.handle
              ++ (m.pk_new
                  ++ (put_be16 (length m.sig_old)
                      ++ (m.sig_old ++ (put_be16 (length m.sig_new) ++ m.sig_new))))),
    )

-- From the length of the new key's signature on; `p` is `in + o`.
unfoldable pub decode_sig_new :
    ℕ → List ℕ → List ℕ → List ℕ → List ℕ → ℕ → ℕ → AuthmsgStatus × RotateMsg
decode_sig_new flags handle pk_new sig_old p o len =
    let snl = get_be16 p in
    if bad_sig_len snl
    then (err_bad_field, zero_rotate)
    else if ltb len (o + 2 + snl)
    then (err_bad_length, zero_rotate)
    else if not (o + 2 + snl == len)
    then (err_bad_length, zero_rotate)
    else (
      msg_ok,
      record {
        flags = flags;
        handle = handle;
        pk_new = pk_new;
        sig_old = sig_old;
        sig_new = take snl (drop 2 p);
      },
    )

-- From the length of the old key's signature on.
unfoldable pub decode_sig_old : ℕ → List ℕ → List ℕ → List ℕ → ℕ → ℕ → AuthmsgStatus × RotateMsg
decode_sig_old flags handle pk_new p o len =
    let sol = get_be16 p in
    if bad_sig_len sol
    then (err_bad_field, zero_rotate)
    else if ltb len (o + 2 + sol + 2)
    then (err_bad_length, zero_rotate)
    else decode_sig_new flags handle pk_new (take sol (drop 2 p)) (drop sol (drop 2 p))
        (o + 2 + sol) len

unfoldable pub authmsg_decode_rotate : List ℕ → AuthmsgStatus × RotateMsg
authmsg_decode_rotate input =
    let flags = byte_at input 2 in
    let hl = byte_at input 3 in
    let p = drop hl (drop 4 input) in
    if length input == 0
    then (err_empty, zero_rotate)
    else if not (byte_at input 0 == authmsg_op_rotate)
    then (err_unknown_op, zero_rotate)
    else if ltb (length input) 4
    then (err_bad_length, zero_rotate)
    else if not (byte_at input 1 == authmsg_version)
    then (err_bad_version, zero_rotate)
    else if not (reserved_bits flags == 0)
    then (err_bad_field, zero_rotate)
    else if bad_handle_len hl
    then (err_bad_field, zero_rotate)
    else if ltb (length input) (4 + hl + mldsa_public_key_bytes + 2)
    then (err_bad_length, zero_rotate)
    else decode_sig_old flags (take hl (drop 4 input)) (take mldsa_public_key_bytes p)
        (drop mldsa_public_key_bytes p) (4 + hl + mldsa_public_key_bytes) (length input)

abbrev pub authmsg_rotate_ack_content_len : ℕ → ℕ
authmsg_rotate_ack_content_len handle_len = 43 + handle_len

unfoldable pub authmsg_encode_rotate_ack : ℕ → RotateAck → AuthmsgStatus × List ℕ
authmsg_encode_rotate_ack out_cap m =
    if bad_handle_len (length m.handle)
    then (err_bad_field, [])
    else if ltb out_cap (authmsg_rotate_ack_content_len (length m.handle))
    then (err_arg, [])
    else (
      msg_ok,
      (authmsg_op_rotate_ack ∷ authmsg_version ∷ length m.handle % 256 ∷ [])
          ++ (m.handle ++ (m.fp_new ++ put_be64 m.rotated_at)),
    )

unfoldable pub authmsg_decode_rotate_ack : List ℕ → AuthmsgStatus × RotateAck
authmsg_decode_rotate_ack input =
    let hl = byte_at input 2 in
    let p = drop hl (drop 3 input) in
    if length input == 0
    then (err_empty, zero_rotate_ack)
    else if not (byte_at input 0 == authmsg_op_rotate_ack)
    then (err_unknown_op, zero_rotate_ack)
    else if ltb (length input) 3
    then (err_bad_length, zero_rotate_ack)
    else if not (byte_at input 1 == authmsg_version)
    then (err_bad_version, zero_rotate_ack)
    else if bad_handle_len hl
    then (err_bad_field, zero_rotate_ack)
    else if not (length input == authmsg_rotate_ack_content_len hl)
    then (err_bad_length, zero_rotate_ack)
    else (
      msg_ok,
      record {
        handle = take hl (drop 3 input);
        fp_new = take authmsg_fp_bytes p;
        rotated_at = get_be64 (drop authmsg_fp_bytes p);
      },
    )
