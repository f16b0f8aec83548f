-- ===== src/Wire/Prefix.antt =====
-- The signed prefix of a ServerHello (`transcript_server_hello_unsigned_len`), and the ClientHello
-- as a message that shows its own end.
use mldsa_auth.Base.{
  List, arith, length, le→leb, some, take, take-append, ℕ, ◌++◌, ◌+◌, ◌<◌, ◌∷◌, ◌≡◌, ◌≤◌,
}
use mldsa_auth.Base.Bytes.{AreBytes, append_inj}
use mldsa_auth.Wire.{
  ClientHello, ServerHello, client_hello_encoded_len, decode_client_hello, decode_server_hello,
  encode_server_hello_unsigned, transcript_server_hello_unsigned_len,
  write_server_hello_unsigned_unchecked,
}
use mldsa_auth.Wire.Canonical.{encode-decode_client_hello, encode-decode_server_hello}
use mldsa_auth.Wire.Layout.{length-unsigned, server_hello_layout, signed}
use mldsa_auth.Wire.Reads.{decode_client_hello_inv, decode_server_hello_inv}

-- The prefix of a received ServerHello that `transcript_server_hello_unsigned_len` cuts off is what
-- the sender's `encode_server_hello_unsigned` writes of the same message; it is never empty and
-- never the whole of it.
pub take-unsigned_len :
    (buf : List ℕ) (m : ServerHello) (n room : ℕ)
    → AreBytes buf
    → decode_server_hello buf ≡ some (m, n)
    → length buf ≤ room
    → (encode_server_hello_unsigned m room
        ≡ some (take (transcript_server_hello_unsigned_len m.id_len) buf))
      × (0 < transcript_server_hello_unsigned_len m.id_len)
      × (transcript_server_hello_unsigned_len m.id_len < length buf)
unfolding encode_server_hello_unsigned transcript_server_hello_unsigned_len
take-unsigned_len buf m n room w e h =
    let r = decode_server_hello_inv buf m n w e in
    let s = r.sized in
    let size = (encode-decode_server_hello buf m n room w e h).2 in
    let len : length (write_server_hello_unsigned_unchecked m)
        ≡ 1 + 1 + m.id_len + 32 + 1088 + 32 + 16 =
      length-unsigned m s r.id_fits in
    let cut : take (1 + 1 + m.id_len + 32 + 1088 + 32 + 16) buf
        ≡ write_server_hello_unsigned_unchecked m =
      rw (r.bytes, ← server_hello_layout m)
        (take-append _ (write_server_hello_unsigned_unchecked m)
          (signed m.sig_len (take m.sig_len m.sig)) len) in
    (
      rw (r.id_fits, le→leb (1 + 1 + m.id_len + 32 + 1088 + 32 + 16) room (omega arith), cut),
      rw r.id_fits (omega arith),
      rw r.id_fits (omega arith),
    )

second_byte : {a a' b b' : ℕ} (xs ys : List ℕ) → a ∷ b ∷ xs ≡ a' ∷ b' ∷ ys → b ≡ b'
second_byte xs ys h = cc

-- A ClientHello shows its own end: where two buffers begin with one that `decode_client_hello`
-- accepts, it is the same one, and what follows is the same.
pub decode_client_hello_prefix :
    (ch ch' rest rest' : List ℕ) (m m' : ClientHello) (n n' : ℕ)
    → decode_client_hello ch ≡ some (m, n)
    → decode_client_hello ch' ≡ some (m', n')
    → ch ++ rest ≡ ch' ++ rest'
    → (ch ≡ ch') × (rest ≡ rest')
unfolding client_hello_encoded_len
decode_client_hello_prefix ch ch' rest rest' m m' n n' e e' h =
    let r = decode_client_hello_inv ch m n e in
    let r' = decode_client_hello_inv ch' m' n' e' in
    let same : m.id_len ≡ m'.id_len = second_byte _ _ (rw (r.bytes, r'.bytes) at h) in
    let size = (encode-decode_client_hello ch m n (length ch) e (omega arith)).2 in
    let size' = (encode-decode_client_hello ch' m' n' (length ch') e' (omega arith)).2 in
    append_inj ch ch' rest rest' (omega arith) h
