-- ===== src/Authmsg.antt =====
-- The application messages of apps/authd/authmsg.h and authmsg.c. A buffer is the list of its bytes, so `len` is its
-- length; `in + o` is what is left of it. A decoded ROTATE points into the buffer in the code; here it holds the
-- bytes. No pointer is null.
pub mod Rotate
pub mod RoundTrip
pub mod RotateTrip
pub mod Inverse
pub mod Canonical
pub mod Digest
mod Tests
use mldsa_auth.Base.{
  List, [], drop, if◌then◌else◌, length, ltb, not, suc, take, zero, ℕ, ◌%◌, ◌*◌, ◌++◌, ◌+◌, ◌-◌,
  ◌/◌, ◌==◌, ◌^◌, ◌||◌, ◌∷◌,
}
use mldsa_auth.Base.Bytes.{byte_at, zeros}

abbrev pub authmsg_version : ℕ
authmsg_version = 0x01

abbrev pub authmsg_op_login_code : ℕ
authmsg_op_login_code = 0x10

abbrev pub authmsg_op_rotate : ℕ
authmsg_op_rotate = 0x11

abbrev pub authmsg_op_rotate_ack : ℕ
authmsg_op_rotate_ack = 0x12

abbrev pub authmsg_op_error : ℕ
authmsg_op_error = 0x1f

abbrev pub authmsg_op_bye : ℕ
authmsg_op_bye = 0x20

abbrev pub authmsg_err_malformed : ℕ
authmsg_err_malformed = 0x01

abbrev pub authmsg_err_internal : ℕ
authmsg_err_internal = 0x05

abbrev pub authmsg_code_bytes : ℕ
authmsg_code_bytes = 32

abbrev pub authmsg_login_code_content_len : ℕ
authmsg_login_code_content_len = 43

abbrev pub authmsg_error_content_len : ℕ
authmsg_error_content_len = 3

abbrev pub authmsg_bye_content_len : ℕ
authmsg_bye_content_len = 1

abbrev pub authmsg_handshake_id_bytes : ℕ
authmsg_handshake_id_bytes = 16

abbrev pub authmsg_fp_bytes : ℕ
authmsg_fp_bytes = 32

abbrev pub store_id_max : ℕ
store_id_max = 64

-- `authmsg_status_t`
pub data AuthmsgStatus : Type 0 where
  msg_ok err_arg err_empty err_bad_length err_bad_version err_bad_field err_unknown_op :
      AuthmsgStatus

-- `authmsg_login_code_t`
pub record LoginCode : Type 0 where
  pub flags : ℕ
  pub code : List ℕ
  pub code_expires : ℕ

abbrev pub zero_login_code : LoginCode
zero_login_code = record { flags = 0; code = zeros authmsg_code_bytes; code_expires = 0 }

-- `p[i] = v >> (56 - 8 * i)`, from byte `i` on.
pub put_be64_loop : ℕ → ℕ → ℕ → List ℕ
put_be64_loop zero i v = []
put_be64_loop (suc left) i v = (v / 2 ^ (56 - 8 * i) % 256) ∷ put_be64_loop left (i + 1) v

pub put_be64 : ℕ → List ℕ
unfolding put_be64_loop
put_be64 v = put_be64_loop 8 0 v

pub get_be64_loop : List ℕ → ℕ → ℕ
get_be64_loop [] v = v
get_be64_loop (b ∷ bs) v = get_be64_loop bs ((v * 2 ^ 8 + b) % 2 ^ 64)

pub get_be64 : List ℕ → ℕ
unfolding get_be64_loop
get_be64 p = get_be64_loop (take 8 p) 0

-- The bits but the lowest one, `flags & (uint8_t)~0x01u`: no other bit has a meaning.
abbrev pub reserved_bits : ℕ → ℕ
reserved_bits flags = flags / 2 * 2

unfoldable pub authmsg_peek_op : List ℕ → AuthmsgStatus × ℕ
authmsg_peek_op input = if length input == 0 then (err_empty, 0) else (msg_ok, byte_at input 0)

unfoldable pub authmsg_encode_login_code : ℕ → LoginCode → AuthmsgStatus × List ℕ
authmsg_encode_login_code out_cap m =
    if ltb out_cap authmsg_login_code_content_len
    then (err_arg, [])
    else if not (reserved_bits m.flags == 0)
    then (err_bad_field, [])
    else (
      msg_ok,
      (authmsg_op_login_code ∷ authmsg_version ∷ m.flags ∷ [])
          ++ (m.code ++ put_be64 m.code_expires),
    )

unfoldable pub authmsg_decode_login_code : List ℕ → AuthmsgStatus × LoginCode
authmsg_decode_login_code input =
    if length input == 0
    then (err_empty, zero_login_code)
    else if not (byte_at input 0 == authmsg_op_login_code)
    then (err_unknown_op, zero_login_code)
    else if not (length input == authmsg_login_code_content_len)
    then (err_bad_length, zero_login_code)
    else if not (byte_at input 1 == authmsg_version)
    then (err_bad_version, zero_login_code)
    else if not (reserved_bits (byte_at input 2) == 0)
    then (err_bad_field, zero_login_code)
    else (
      msg_ok,
      record {
        flags = byte_at input 2;
        code = take authmsg_code_bytes (drop 3 input);
        code_expires = get_be64 (drop (3 + authmsg_code_bytes) input);
      },
    )

unfoldable pub authmsg_encode_error : ℕ → ℕ → AuthmsgStatus × List ℕ
authmsg_encode_error out_cap code =
    if ltb out_cap authmsg_error_content_len
    then (err_arg, [])
    else if ltb code authmsg_err_malformed || ltb authmsg_err_internal code
    then (err_bad_field, [])
    else (msg_ok, authmsg_op_error ∷ authmsg_version ∷ code ∷ [])

unfoldable pub authmsg_decode_error : List ℕ → AuthmsgStatus × ℕ
authmsg_decode_error input =
    if length input == 0
    then (err_empty, 0)
    else if not (byte_at input 0 == authmsg_op_error)
    then (err_unknown_op, 0)
    else if not (length input == authmsg_error_content_len)
    then (err_bad_length, 0)
    else if not (byte_at input 1 == authmsg_version)
    then (err_bad_version, 0)
    else if ltb (byte_at input 2) authmsg_err_malformed
        || ltb authmsg_err_internal (byte_at input 2)
    then (err_bad_field, 0)
    else (msg_ok, byte_at input 2)

unfoldable pub authmsg_encode_bye : ℕ → AuthmsgStatus × List ℕ
authmsg_encode_bye out_cap =
    if ltb out_cap authmsg_bye_content_len then (err_arg, []) else (msg_ok, authmsg_op_bye ∷ [])
