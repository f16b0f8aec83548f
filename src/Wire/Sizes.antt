-- ===== src/Wire/Sizes.antt =====
-- What the C types say of the message structs: the sizes of their arrays.
use mldsa_auth.Base.{List, arith, length, length-take, take, ℕ, ◌≡◌, ◌≤◌}
use mldsa_auth.Base.Bytes.{blit, zeros}
use mldsa_auth.Wire.{
  ClientAuth, ClientHello, ServerHello, mldsa_signature_max_bytes, wire_handshake_id_len,
  wire_id_max_len, wire_mlkem_ct_len, wire_mlkem_ek_len, wire_nonce_len, wire_session_id_len,
  wire_x25519_pub_len,
}

pub record IsClientHello (m : ClientHello) : Type 0 where
  pub id_size : length m.id ≡ wire_id_max_len
  pub ephemeral_pub_size : length m.ephemeral_pub ≡ wire_x25519_pub_len
  pub mlkem_ek_size : length m.mlkem_ek ≡ wire_mlkem_ek_len
  pub session_id_size : length m.session_id ≡ wire_session_id_len
  pub nonce_size : length m.nonce ≡ wire_nonce_len

pub record IsServerHello (m : ServerHello) : Type 0 where
  pub id_size : length m.id ≡ wire_id_max_len
  pub ephemeral_pub_size : length m.ephemeral_pub ≡ wire_x25519_pub_len
  pub mlkem_ct_size : length m.mlkem_ct ≡ wire_mlkem_ct_len
  pub nonce_size : length m.nonce ≡ wire_nonce_len
  pub session_id_echo_size : length m.session_id_echo ≡ wire_session_id_len
  pub sig_size : length m.sig ≡ mldsa_signature_max_bytes

pub record IsClientAuth (m : ClientAuth) : Type 0 where
  pub handshake_id_size : length m.handshake_id ≡ wire_handshake_id_len
  pub sig_size : length m.sig ≡ mldsa_signature_max_bytes

-- The bytes of `id` and `sig` behind the lengths are zero, as the decoders leave them.
pub record IsClean (id : List ℕ) (id_len : ℕ) : Type 0 where
  pub tail : blit (zeros (length id)) (take id_len id) ≡ id

pub length-id : (id : List ℕ) (n m : ℕ) → length id ≡ m → n ≤ m → length (take n id) ≡ n
length-id id n m h k = omega (arith, length-take n id)
