-- ===== src/Wire/Layout.antt =====
-- The layout of the three messages of transcript.c: a decoder reads a well-formed buffer field by
-- field, and a successful encoder has written such a buffer.
use native.Mathlib.Nat.{sub-zero}
use mldsa_auth.Base.{
  List, [], append-nil, append_assoc, arith, drop-append, drop_all, length, length-append, le→leb,
  some, take, take-append, take_all, true, ℕ, ◌++◌, ◌+◌, ◌<◌, ◌^◌, ◌∷◌, ◌≡◌, ◌≤◌,
}
use mldsa_auth.Base.Bytes.{blit, zeros}
use mldsa_auth.Wire.{
  ClientAuth, ClientHello, ServerHello, decode_client_auth, decode_client_hello,
  decode_server_hello, encode_client_auth, encode_client_hello, encode_server_hello, id_len_ok,
  mldsa_signature_max_bytes, msg_type_client_auth, msg_type_client_hello, msg_type_server_hello,
  next_field, sig_len_ok, wire_handshake_id_len, wire_id_max_len, wire_mlkem_ct_len,
  wire_mlkem_ek_len, wire_nonce_len, wire_session_id_len, wire_x25519_pub_len,
  write_server_hello_unsigned_unchecked,
}
use mldsa_auth.Wire.Fields.{next_field-append, next_u16-write_u16, next_u8-cons}
use mldsa_auth.Wire.Sizes.{IsServerHello, length-id}
use mldsa_auth.WireInt.{wire_int_write_u16, wire_int_write_u8}

-- The signature's length and its bytes.
abbrev pub signed : ℕ → List ℕ → List ℕ
signed k sig = wire_int_write_u16 k ++ sig

pub length-signed : (k : ℕ) (sig : List ℕ) → length (signed k sig) ≡ 2 + length sig
unfolding wire_int_write_u16
length-signed k sig = omega arith

pub sig_len_small : (k : ℕ) → sig_len_ok k ≡ true → k < 2 ^ 16
sig_len_small k h = ground arith

pub next_field_all : (k : ℕ) (xs : List ℕ) → length xs ≡ k → next_field k xs ≡ some (xs, [])
next_field_all k xs h = rw append-nil at (next_field-append k xs [] h)

-- The four fixed fields behind the id, taken off one by one.
module _ (a b c d : List ℕ) where
  abbrev pub fixed : List ℕ
  fixed = a ++ (b ++ (c ++ d))

  abbrev pub server_rest : ℕ → List ℕ → List ℕ
  server_rest k sig = a ++ (b ++ (c ++ (d ++ signed k sig)))

  pub length-server_rest :
      (k : ℕ) (sig : List ℕ)
      → length (server_rest k sig) ≡ length a + length b + length c + length d + 2 + length sig
  length-server_rest k sig = omega (
    arith,
    length-append a (b ++ (c ++ (d ++ signed k sig))),
    length-append b (c ++ (d ++ signed k sig)),
    length-append c (d ++ signed k sig),
    length-append d (signed k sig),
    length-signed k sig,
  )

  pub fixed-length : length fixed ≡ length a + length b + length c + length d
  fixed-length =
      omega (arith, length-append a (b ++ (c ++ d)), length-append b (c ++ d), length-append c d)

  -- A well-formed ClientHello is read field by field.
  pub decode_client_hello-fields :
      (n : ℕ) (id : List ℕ)
      → id_len_ok n ≡ true
      → length id ≡ n
      → length a ≡ wire_x25519_pub_len
      → length b ≡ wire_mlkem_ek_len
      → length c ≡ wire_session_id_len
      → length d ≡ wire_nonce_len
      → decode_client_hello (msg_type_client_hello ∷ n ∷ (id ++ fixed))
        ≡ some (
          record {
            id = blit (zeros wire_id_max_len) id;
            id_len = n;
            ephemeral_pub = a;
            mlkem_ek = b;
            session_id = c;
            nonce = d;
          },
          length (msg_type_client_hello ∷ n ∷ (id ++ fixed)),
        )
  unfolding decode_client_hello
  decode_client_hello-fields n id hn hid p q r s = rw (
    next_u8-cons msg_type_client_hello (n ∷ (id ++ fixed)),
    next_u8-cons n (id ++ fixed),
    hn,
    next_field-append n id fixed hid,
    le→leb 1264 (length fixed) (omega (arith, fixed-length)),
    drop-append wire_x25519_pub_len a (b ++ (c ++ d)) p,
    drop-append wire_mlkem_ek_len b (c ++ d) q,
    drop-append wire_session_id_len c d r,
    drop_all wire_nonce_len d s,
    take-append wire_x25519_pub_len a (b ++ (c ++ d)) p,
    take-append wire_mlkem_ek_len b (c ++ d) q,
    take-append wire_session_id_len c d r,
    take_all wire_nonce_len d s,
    sub-zero,
  )

  -- So is the unsigned part of a ServerHello, and then its signature.
  pub decode_server_hello-fields :
      (n k : ℕ) (id sig : List ℕ)
      → id_len_ok n ≡ true
      → length id ≡ n
      → length a ≡ wire_x25519_pub_len
      → length b ≡ wire_mlkem_ct_len
      → length c ≡ wire_nonce_len
      → length d ≡ wire_session_id_len
      → sig_len_ok k ≡ true
      → length sig ≡ k
      → decode_server_hello (msg_type_server_hello ∷ n ∷ (id ++ server_rest k sig))
        ≡ some (
          record {
            id = blit (zeros wire_id_max_len) id;
            id_len = n;
            ephemeral_pub = a;
            mlkem_ct = b;
            nonce = c;
            session_id_echo = d;
            sig = blit (zeros mldsa_signature_max_bytes) sig;
            sig_len = k;
          },
          length (msg_type_server_hello ∷ n ∷ (id ++ server_rest k sig)),
        )
  unfolding decode_server_hello
  decode_server_hello-fields n k id sig hn hid p q r s hk hs = rw (
    next_u8-cons msg_type_server_hello (n ∷ (id ++ server_rest k sig)),
    next_u8-cons n (id ++ server_rest k sig),
    hn,
    next_field-append n id (server_rest k sig) hid,
    le→leb 1168 (length (server_rest k sig)) (omega (arith, length-server_rest k sig)),
    drop-append wire_x25519_pub_len a (b ++ (c ++ (d ++ signed k sig))) p,
    drop-append wire_mlkem_ct_len b (c ++ (d ++ signed k sig)) q,
    drop-append wire_nonce_len c (d ++ signed k sig) r,
    drop-append wire_session_id_len d (signed k sig) s,
    next_u16-write_u16 k sig (sig_len_small k hk),
    hk,
    next_field_all k sig hs,
    take-append wire_x25519_pub_len a (b ++ (c ++ (d ++ signed k sig))) p,
    take-append wire_mlkem_ct_len b (c ++ (d ++ signed k sig)) q,
    take-append wire_nonce_len c (d ++ signed k sig) r,
    take-append wire_session_id_len d (signed k sig) s,
    sub-zero,
  )

-- A ClientAuth is read field by field.
pub decode_client_auth-fields :
    (h : List ℕ) (k : ℕ) (sig : List ℕ)
    → length h ≡ wire_handshake_id_len
    → sig_len_ok k ≡ true
    → length sig ≡ k
    → decode_client_auth (msg_type_client_auth ∷ (h ++ signed k sig))
      ≡ some (
        record { handshake_id = h; sig = blit (zeros mldsa_signature_max_bytes) sig; sig_len = k },
        length (msg_type_client_auth ∷ (h ++ signed k sig)),
      )
unfolding decode_client_auth
decode_client_auth-fields h k sig p hk hs = rw (
  next_u8-cons msg_type_client_auth (h ++ signed k sig),
  next_field-append wire_handshake_id_len h (signed k sig) p,
  next_u16-write_u16 k sig (sig_len_small k hk),
  hk,
  next_field_all k sig hs,
  sub-zero,
)

-- What a successful `encode_client_hello` checked and wrote.
pub encode_client_hello_inv :
    (m : ClientHello) (cap : ℕ) (out : List ℕ)
    → encode_client_hello m cap ≡ some out
    → (id_len_ok m.id_len ≡ true)
      × (out
          ≡ msg_type_client_hello
            ∷ m.id_len
            ∷ (take m.id_len m.id ++ fixed m.ephemeral_pub m.mlkem_ek m.session_id m.nonce))
unfolding encode_client_hello
encode_client_hello_inv m cap out e = ground arith

pub encode_server_hello_inv :
    (m : ServerHello) (cap : ℕ) (out : List ℕ)
    → encode_server_hello m cap ≡ some out
    → (id_len_ok m.id_len ≡ true)
      × (sig_len_ok m.sig_len ≡ true)
      × (out ≡ write_server_hello_unsigned_unchecked m ++ signed m.sig_len (take m.sig_len m.sig))
unfolding encode_server_hello
encode_server_hello_inv m cap out e = ground arith

pub encode_client_auth_inv :
    (m : ClientAuth) (cap : ℕ) (out : List ℕ)
    → encode_client_auth m cap ≡ some out
    → (sig_len_ok m.sig_len ≡ true)
      × (out ≡ msg_type_client_auth ∷ (m.handshake_id ++ signed m.sig_len (take m.sig_len m.sig)))
unfolding encode_client_auth
encode_client_auth_inv m cap out e = ground arith

pub id_len_le : (n : ℕ) → id_len_ok n ≡ true → n ≤ wire_id_max_len
id_len_le n h = ground arith

pub sig_len_le : (k : ℕ) → sig_len_ok k ≡ true → k ≤ mldsa_signature_max_bytes
sig_len_le k h = ground arith

-- The unsigned part with the signature behind it, bracketed to the right.
pub server_hello_layout :
    (m : ServerHello)
    → write_server_hello_unsigned_unchecked m ++ signed m.sig_len (take m.sig_len m.sig)
      ≡ msg_type_server_hello
        ∷ m.id_len
        ∷ (take m.id_len m.id
            ++ server_rest m.ephemeral_pub m.mlkem_ct m.nonce m.session_id_echo m.sig_len
                (take m.sig_len m.sig))
unfolding write_server_hello_unsigned_unchecked wire_int_write_u8
server_hello_layout m = simp append_assoc

pub length-unsigned :
    (m : ServerHello)
    → IsServerHello m
    → id_len_ok m.id_len ≡ true
    → length (write_server_hello_unsigned_unchecked m) ≡ 1 + 1 + m.id_len + 32 + 1088 + 32 + 16
unfolding write_server_hello_unsigned_unchecked
length-unsigned m s h = omega (
  arith,
  length-append (take m.id_len m.id) (fixed m.ephemeral_pub m.mlkem_ct m.nonce m.session_id_echo),
  fixed-length m.ephemeral_pub m.mlkem_ct m.nonce m.session_id_echo,
  length-id m.id m.id_len wire_id_max_len s.id_size (id_len_le m.id_len h),
)
