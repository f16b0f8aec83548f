-- ===== src/Wire/Canonical.antt =====
-- Strictness of the decoders of src/protocol/transcript.c: one buffer for each message.
use mldsa_auth.Base.{
  List, ap, arith, length, length-append, le→leb, some, sym, take, ℕ, ◌+◌, ◌∙◌, ◌≡◌, ◌≤◌,
}
use mldsa_auth.Base.Bytes.{AreBytes}
use mldsa_auth.Wire.{
  ClientAuth, ClientHello, ServerHello, client_hello_encoded_len, decode_client_auth,
  decode_client_hello, decode_server_hello, encode_client_auth, encode_client_hello,
  encode_server_hello, mldsa_signature_max_bytes, server_hello_unsigned_encoded_len,
  wire_handshake_id_len, wire_id_max_len,
}
use mldsa_auth.Wire.Layout.{
  fixed, fixed-length, id_len_le, length-signed, server_hello_layout, server_rest,
  length-server_rest, sig_len_le, signed,
}
use mldsa_auth.Wire.Reads.{decode_client_auth_inv, decode_client_hello_inv, decode_server_hello_inv}
use mldsa_auth.Wire.Sizes.{length-id}

-- A buffer that `decode_client_hello` accepts is consumed whole, has the length that
-- `client_hello_encoded_len` gives, and is what `encode_client_hello` writes, into any room that is
-- large enough, of the message that was read.
pub encode-decode_client_hello :
    (buf : List ℕ) (m : ClientHello) (n room : ℕ)
    → decode_client_hello buf ≡ some (m, n)
    → length buf ≤ room
    → (encode_client_hello m room ≡ some buf)
      × (n ≡ length buf)
      × (length buf ≡ client_hello_encoded_len m.id_len)
unfolding encode_client_hello client_hello_encoded_len
encode-decode_client_hello buf m n room e h =
    let r = decode_client_hello_inv buf m n e in
    let s = r.sized in
    let size : length buf ≡ 1 + 1 + m.id_len + 32 + 1184 + 16 + 32 = rw r.bytes (
      omega (
        arith,
        length-append (take m.id_len m.id) (fixed m.ephemeral_pub m.mlkem_ek m.session_id m.nonce),
        fixed-length m.ephemeral_pub m.mlkem_ek m.session_id m.nonce,
        length-id m.id m.id_len wire_id_max_len s.id_size (id_len_le m.id_len r.id_fits),
      )) in
    (
      rw (r.id_fits, le→leb (1 + 1 + m.id_len + 32 + 1184 + 16 + 32) room (omega arith))
          (ap some (sym r.bytes)),
      r.whole,
      size,
    )

-- A buffer of bytes that `decode_server_hello` accepts is consumed whole, and is what
-- `encode_server_hello` writes, into any room that is large enough, of the message that was read.
pub encode-decode_server_hello :
    (buf : List ℕ) (m : ServerHello) (n room : ℕ)
    → AreBytes buf
    → decode_server_hello buf ≡ some (m, n)
    → length buf ≤ room
    → (encode_server_hello m room ≡ some buf)
      × (n ≡ length buf)
      × (length buf ≡ server_hello_unsigned_encoded_len m.id_len + 2 + m.sig_len)
unfolding encode_server_hello server_hello_unsigned_encoded_len
encode-decode_server_hello buf m n room w e h =
    let r = decode_server_hello_inv buf m n w e in
    let s = r.sized in
    let size : length buf ≡ 1 + 1 + m.id_len + 32 + 1088 + 32 + 16 + 2 + m.sig_len = rw r.bytes (
      omega (
        arith,
        length-append (take m.id_len m.id) (
            server_rest m.ephemeral_pub m.mlkem_ct m.nonce m.session_id_echo m.sig_len
              (take m.sig_len m.sig)),
        length-server_rest m.ephemeral_pub m.mlkem_ct m.nonce m.session_id_echo m.sig_len
            (take m.sig_len m.sig),
        length-id m.id m.id_len wire_id_max_len s.id_size (id_len_le m.id_len r.id_fits),
        length-id m.sig m.sig_len mldsa_signature_max_bytes s.sig_size
            (sig_len_le m.sig_len r.sig_fits),
      )) in
    (
      rw
          (
            r.id_fits,
            r.sig_fits,
            le→leb (1 + 1 + m.id_len + 32 + 1088 + 32 + 16 + 2 + m.sig_len) room (omega arith),
          )
          (ap some (server_hello_layout m ∙ sym r.bytes)),
      r.whole,
      size,
    )

-- A buffer of bytes that `decode_client_auth` accepts is consumed whole, and is what
-- `encode_client_auth` writes, into any room that is large enough, of the message that was read.
pub encode-decode_client_auth :
    (buf : List ℕ) (m : ClientAuth) (n room : ℕ)
    → AreBytes buf
    → decode_client_auth buf ≡ some (m, n)
    → length buf ≤ room
    → (encode_client_auth m room ≡ some buf)
      × (n ≡ length buf)
      × (length buf ≡ 1 + wire_handshake_id_len + 2 + m.sig_len)
unfolding encode_client_auth
encode-decode_client_auth buf m n room w e h =
    let r = decode_client_auth_inv buf m n w e in
    let s = r.sized in
    let size : length buf ≡ 1 + 16 + 2 + m.sig_len = rw r.bytes (
      omega (
        arith,
        length-append m.handshake_id (signed m.sig_len (take m.sig_len m.sig)),
        length-signed m.sig_len (take m.sig_len m.sig),
        length-id m.sig m.sig_len mldsa_signature_max_bytes s.sig_size
            (sig_len_le m.sig_len r.sig_fits),
      )) in
    (
      rw (r.sig_fits, le→leb (1 + 16 + 2 + m.sig_len) room (omega arith)) (ap some (sym r.bytes)),
      r.whole,
      size,
    )
