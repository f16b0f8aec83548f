-- ===== src/Wire.antt =====
-- src/protocol/transcript.h and transcript.c: the three handshake messages on the wire.
-- A message is a record of byte arrays, a buffer is a list of bytes, and the cursor `off` is the
-- list of the bytes that are left (`len - off` is its length). `none` is a nonzero status: then the
-- encoder has written nothing, and the decoder has zeroed its struct.
pub mod Sizes
pub mod Fields
pub mod Layout
pub mod RoundTrip
pub mod Reads
pub mod Canonical
pub mod Prefix
mod Tests
use mldsa_auth.Base.{
  Bool, List, Option, drop, guard, if◌then◌else◌, leb, length, ltb, none, not, some, take, ℕ, ◌&&◌,
  ◌++◌, ◌+◌, ◌-◌, ◌==◌, ◌>>=◌, ◌>>◌,
}
use mldsa_auth.Base.Bytes.{blit, zeros}
use mldsa_auth.WireInt.{wire_int_read_u16, wire_int_read_u8, wire_int_write_u16, wire_int_write_u8}

abbrev pub wire_id_min_len : ℕ
wire_id_min_len = 1

abbrev pub wire_id_max_len : ℕ
wire_id_max_len = 64

abbrev pub wire_x25519_pub_len : ℕ
wire_x25519_pub_len = 32

abbrev pub wire_mlkem_ek_len : ℕ
wire_mlkem_ek_len = 1184

abbrev pub wire_mlkem_ct_len : ℕ
wire_mlkem_ct_len = 1088

abbrev pub wire_session_id_len : ℕ
wire_session_id_len = 16

abbrev pub wire_nonce_len : ℕ
wire_nonce_len = 32

abbrev pub wire_handshake_id_len : ℕ
wire_handshake_id_len = 16

abbrev pub mldsa_signature_max_bytes : ℕ
mldsa_signature_max_bytes = 3309

abbrev pub msg_type_client_hello : ℕ
msg_type_client_hello = 0x01

abbrev pub msg_type_server_hello : ℕ
msg_type_server_hello = 0x02

abbrev pub msg_type_client_auth : ℕ
msg_type_client_auth = 0x03

abbrev pub client_hello_max_encoded_len : ℕ
client_hello_max_encoded_len =
    1 + 1 + wire_id_max_len + wire_x25519_pub_len + wire_mlkem_ek_len + wire_session_id_len
    + wire_nonce_len

abbrev pub server_hello_unsigned_max_encoded_len : ℕ
server_hello_unsigned_max_encoded_len =
    1 + 1 + wire_id_max_len + wire_x25519_pub_len + wire_mlkem_ct_len + wire_nonce_len
    + wire_session_id_len

abbrev pub server_hello_max_encoded_len : ℕ
server_hello_max_encoded_len = server_hello_unsigned_max_encoded_len + 2 + mldsa_signature_max_bytes

abbrev pub client_auth_max_encoded_len : ℕ
client_auth_max_encoded_len = 1 + wire_handshake_id_len + 2 + mldsa_signature_max_bytes

-- `client_hello_t`
pub record ClientHello : Type 0 where
  pub id : List ℕ
  pub id_len : ℕ
  pub ephemeral_pub : List ℕ
  pub mlkem_ek : List ℕ
  pub session_id : List ℕ
  pub nonce : List ℕ

-- `server_hello_t`
pub record ServerHello : Type 0 where
  pub id : List ℕ
  pub id_len : ℕ
  pub ephemeral_pub : List ℕ
  pub mlkem_ct : List ℕ
  pub nonce : List ℕ
  pub session_id_echo : List ℕ
  pub sig : List ℕ
  pub sig_len : ℕ

-- `client_auth_t`
pub record ClientAuth : Type 0 where
  pub handshake_id : List ℕ
  pub sig : List ℕ
  pub sig_len : ℕ

pub client_hello_encoded_len : ℕ → ℕ
client_hello_encoded_len id_len =
    1 + 1 + id_len + wire_x25519_pub_len + wire_mlkem_ek_len + wire_session_id_len + wire_nonce_len

unfoldable pub server_hello_unsigned_encoded_len : ℕ → ℕ
server_hello_unsigned_encoded_len id_len =
    1 + 1 + id_len + wire_x25519_pub_len + wire_mlkem_ct_len + wire_nonce_len + wire_session_id_len

abbrev pub id_len_ok : ℕ → Bool
id_len_ok id_len = leb wire_id_min_len id_len && leb id_len wire_id_max_len

abbrev pub sig_len_ok : ℕ → Bool
sig_len_ok sig_len = leb 1 sig_len && leb sig_len mldsa_signature_max_bytes

-- 0 for an id length that no message may have.
unfoldable pub transcript_server_hello_unsigned_len : ℕ → ℕ
unfolding server_hello_unsigned_encoded_len
transcript_server_hello_unsigned_len id_len =
    if not (id_len_ok id_len) then 0 else server_hello_unsigned_encoded_len id_len

-- The list is what the function leaves in `out`.
pub write_server_hello_unsigned_unchecked : ServerHello → List ℕ
unfolding wire_int_write_u8
write_server_hello_unsigned_unchecked msg =
    wire_int_write_u8 msg_type_server_hello
    ++ (wire_int_write_u8 msg.id_len
        ++ (take msg.id_len msg.id
            ++ (msg.ephemeral_pub ++ (msg.mlkem_ct ++ (msg.nonce ++ msg.session_id_echo)))))

-- The bytes written, whose number is `*out_len`.
unfoldable pub encode_client_hello : ClientHello → ℕ → Option (List ℕ)
unfolding client_hello_encoded_len wire_int_write_u8
encode_client_hello msg out_cap = do
  guard (id_len_ok msg.id_len)
  guard (leb (client_hello_encoded_len msg.id_len) out_cap)
  some (
      wire_int_write_u8 msg_type_client_hello
      ++ (wire_int_write_u8 msg.id_len
          ++ (take msg.id_len msg.id
              ++ (msg.ephemeral_pub ++ (msg.mlkem_ek ++ (msg.session_id ++ msg.nonce))))))

pub encode_server_hello_unsigned : ServerHello → ℕ → Option (List ℕ)
unfolding server_hello_unsigned_encoded_len write_server_hello_unsigned_unchecked
encode_server_hello_unsigned msg out_cap = do
  guard (id_len_ok msg.id_len)
  guard (leb (server_hello_unsigned_encoded_len msg.id_len) out_cap)
  some (write_server_hello_unsigned_unchecked msg)

pub encode_server_hello : ServerHello → ℕ → Option (List ℕ)
unfolding server_hello_unsigned_encoded_len write_server_hello_unsigned_unchecked wire_int_write_u16
encode_server_hello msg out_cap = do
  guard (id_len_ok msg.id_len)
  guard (sig_len_ok msg.sig_len)
  guard (leb (server_hello_unsigned_encoded_len msg.id_len + 2 + msg.sig_len) out_cap)
  some (
      write_server_hello_unsigned_unchecked msg
      ++ (wire_int_write_u16 msg.sig_len ++ take msg.sig_len msg.sig))

pub encode_client_auth : ClientAuth → ℕ → Option (List ℕ)
unfolding wire_int_write_u8 wire_int_write_u16
encode_client_auth msg out_cap = do
  guard (sig_len_ok msg.sig_len)
  guard (leb (1 + wire_handshake_id_len + 2 + msg.sig_len) out_cap)
  some (
      wire_int_write_u8 msg_type_client_auth
      ++ (msg.handshake_id ++ (wire_int_write_u16 msg.sig_len ++ take msg.sig_len msg.sig)))

-- Reads one byte, and moves the cursor past it.
unfoldable pub next_u8 : List ℕ → Option (ℕ × List ℕ)
unfolding wire_int_read_u8
next_u8 buf = do v ← wire_int_read_u8 buf; some (v, drop 1 buf)

unfoldable pub next_u16 : List ℕ → Option (ℕ × List ℕ)
unfolding wire_int_read_u16
next_u16 buf = do v ← wire_int_read_u16 buf; some (v, drop 2 buf)

-- `if (len - off < n) goto fail; memcpy(field, buf + off, n); off += n;`
unfoldable pub next_field : ℕ → List ℕ → Option (List ℕ × List ℕ)
next_field n buf = if ltb (length buf) n then none else some (take n buf, drop n buf)

-- The result is the struct and `*consumed`.
pub decode_client_hello : List ℕ → Option (ClientHello × ℕ)
decode_client_hello buf = do
  (msg_type, r₀) ← next_u8 buf
  guard (msg_type == msg_type_client_hello)
  (id_len, r₁) ← next_u8 r₀
  guard (id_len_ok id_len)
  (id, r₂) ← next_field id_len r₁
  guard (
      leb (wire_x25519_pub_len + wire_mlkem_ek_len + wire_session_id_len + wire_nonce_len)
        (length r₂))
  let r₃ = drop wire_x25519_pub_len r₂
  let r₄ = drop wire_mlkem_ek_len r₃
  let r₅ = drop wire_session_id_len r₄
  let r₆ = drop wire_nonce_len r₅
  guard (length r₆ == 0)
  some (
    record {
      id = blit (zeros wire_id_max_len) id;
      id_len = id_len;
      ephemeral_pub = take wire_x25519_pub_len r₂;
      mlkem_ek = take wire_mlkem_ek_len r₃;
      session_id = take wire_session_id_len r₄;
      nonce = take wire_nonce_len r₅;
    },
    length buf - length r₆,
  )

unfoldable pub decode_server_hello : List ℕ → Option (ServerHello × ℕ)
decode_server_hello buf = do
  (msg_type, r₀) ← next_u8 buf
  guard (msg_type == msg_type_server_hello)
  (id_len, r₁) ← next_u8 r₀
  guard (id_len_ok id_len)
  (id, r₂) ← next_field id_len r₁
  guard (
      leb (wire_x25519_pub_len + wire_mlkem_ct_len + wire_nonce_len + wire_session_id_len)
        (length r₂))
  let r₃ = drop wire_x25519_pub_len r₂
  let r₄ = drop wire_mlkem_ct_len r₃
  let r₅ = drop wire_nonce_len r₄
  (sig_len, r₆) ← next_u16 (drop wire_session_id_len r₅)
  guard (sig_len_ok sig_len)
  (sig, r₇) ← next_field sig_len r₆
  guard (length r₇ == 0)
  some (
    record {
      id = blit (zeros wire_id_max_len) id;
      id_len = id_len;
      ephemeral_pub = take wire_x25519_pub_len r₂;
      mlkem_ct = take wire_mlkem_ct_len r₃;
      nonce = take wire_nonce_len r₄;
      session_id_echo = take wire_session_id_len r₅;
      sig = blit (zeros mldsa_signature_max_bytes) sig;
      sig_len = sig_len;
    },
    length buf - length r₇,
  )

unfoldable pub decode_client_auth : List ℕ → Option (ClientAuth × ℕ)
decode_client_auth buf = do
  (msg_type, r₀) ← next_u8 buf
  guard (msg_type == msg_type_client_auth)
  (handshake_id, r₁) ← next_field wire_handshake_id_len r₀
  (sig_len, r₂) ← next_u16 r₁
  guard (sig_len_ok sig_len)
  (sig, r₃) ← next_field sig_len r₂
  guard (length r₃ == 0)
  some (
    record {
      handshake_id = handshake_id;
      sig = blit (zeros mldsa_signature_max_bytes) sig;
      sig_len = sig_len;
    },
    length buf - length r₃,
  )
