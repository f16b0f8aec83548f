-- ===== src/Wire/RoundTrip.antt =====
-- A message that an encoder of src/protocol/transcript.c wrote is read back by its decoder.
use mldsa_auth.Base.{List, length, some, take, ℕ, ◌≡◌}
use mldsa_auth.Base.Bytes.{blit, zeros}
use mldsa_auth.Wire.{
  ClientAuth, ClientHello, ServerHello, decode_client_auth, decode_client_hello,
  decode_server_hello, encode_client_auth, encode_client_hello, encode_server_hello,
  mldsa_signature_max_bytes, wire_id_max_len,
}
use mldsa_auth.Wire.Layout.{
  decode_client_auth-fields, decode_client_hello-fields, decode_server_hello-fields,
  encode_client_auth_inv, encode_client_hello_inv, encode_server_hello_inv, id_len_le,
  server_hello_layout, sig_len_le,
}
use mldsa_auth.Wire.Sizes.{IsClean, IsClientAuth, IsClientHello, IsServerHello, length-id}

-- `decode_client_hello` undoes `encode_client_hello`, into whatever room, for a message whose arrays
-- have the sizes of the struct and whose id is zero behind `id_len`; all bytes are consumed.
pub decode-encode_client_hello :
    (m : ClientHello) (cap : ℕ) (out : List ℕ)
    → IsClientHello m
    → IsClean m.id m.id_len
    → encode_client_hello m cap ≡ some out
    → decode_client_hello out ≡ some (m, length out)
decode-encode_client_hello m cap out w z e =
    let (hn, eq) = encode_client_hello_inv m cap out e in
    let tail : blit (zeros wire_id_max_len) (take m.id_len m.id) ≡ m.id = rw w.id_size at z.tail in
    rw (
      eq,
      decode_client_hello-fields m.ephemeral_pub m.mlkem_ek m.session_id m.nonce m.id_len
          (take m.id_len m.id) hn
          (length-id m.id m.id_len wire_id_max_len w.id_size (id_len_le m.id_len hn))
          w.ephemeral_pub_size w.mlkem_ek_size w.session_id_size w.nonce_size,
      tail,
    )

-- `decode_server_hello` undoes `encode_server_hello`, for a message whose arrays have the sizes of
-- the struct and whose id and signature are zero behind their lengths; all bytes are consumed.
pub decode-encode_server_hello :
    (m : ServerHello) (cap : ℕ) (out : List ℕ)
    → IsServerHello m
    → IsClean m.id m.id_len
    → IsClean m.sig m.sig_len
    → encode_server_hello m cap ≡ some out
    → decode_server_hello out ≡ some (m, length out)
decode-encode_server_hello m cap out w z y e =
    let (hn, hk, eq) = encode_server_hello_inv m cap out e in
    let id_tail : blit (zeros wire_id_max_len) (take m.id_len m.id) ≡ m.id =
      rw w.id_size at z.tail in
    let sig_tail : blit (zeros mldsa_signature_max_bytes) (take m.sig_len m.sig) ≡ m.sig =
      rw w.sig_size at y.tail in
    rw (
      eq,
      server_hello_layout m,
      decode_server_hello-fields m.ephemeral_pub m.mlkem_ct m.nonce m.session_id_echo m.id_len
          m.sig_len (take m.id_len m.id) (take m.sig_len m.sig) hn
          (length-id m.id m.id_len wire_id_max_len w.id_size (id_len_le m.id_len hn))
          w.ephemeral_pub_size w.mlkem_ct_size w.nonce_size w.session_id_echo_size hk
          (length-id m.sig m.sig_len mldsa_signature_max_bytes w.sig_size
            (sig_len_le m.sig_len hk)),
      id_tail,
      sig_tail,
    )

-- `decode_client_auth` undoes `encode_client_auth`, for a message whose arrays have the sizes of the
-- struct and whose signature is zero behind `sig_len`; all bytes are consumed.
pub decode-encode_client_auth :
    (m : ClientAuth) (cap : ℕ) (out : List ℕ)
    → IsClientAuth m
    → IsClean m.sig m.sig_len
    → encode_client_auth m cap ≡ some out
    → decode_client_auth out ≡ some (m, length out)
decode-encode_client_auth m cap out w z e =
    let (hk, eq) = encode_client_auth_inv m cap out e in
    let sig_tail : blit (zeros mldsa_signature_max_bytes) (take m.sig_len m.sig) ≡ m.sig =
      rw w.sig_size at z.tail in
    rw (
      eq,
      decode_client_auth-fields m.handshake_id m.sig_len (take m.sig_len m.sig) w.handshake_id_size
          hk
          (length-id m.sig m.sig_len mldsa_signature_max_bytes w.sig_size
            (sig_len_le m.sig_len hk)),
      sig_tail,
    )
