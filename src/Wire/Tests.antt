-- ===== src/Wire/Tests.antt =====
-- Concrete runs of the encoders and decoders of src/protocol/transcript.c, and the theorems at them.
use native.Mathlib.Nat.{le_refl}
use mldsa_auth.Base.{
  List, arith, drop, length, length-replicate, none, refl, replicate, some, take, ℕ, ◌++◌, ◌+◌, ◌<◌,
  ◌∷◌, ◌≡◌,
}
use mldsa_auth.Base.Bytes.{AreBytes, AreBytes-append, AreBytes-replicate, blit}
use mldsa_auth.Wire.{
  ClientAuth, ClientHello, ServerHello, client_hello_encoded_len, decode_client_auth,
  decode_client_hello, decode_server_hello, encode_client_auth, encode_client_hello,
  encode_server_hello, encode_server_hello_unsigned, next_u8, server_hello_unsigned_encoded_len,
  transcript_server_hello_unsigned_len, wire_handshake_id_len,
  write_server_hello_unsigned_unchecked,
}
use mldsa_auth.Wire.Canonical.{
  encode-decode_client_auth, encode-decode_client_hello, encode-decode_server_hello,
}
use mldsa_auth.Wire.Layout.{fixed, server_hello_layout, signed}
use mldsa_auth.Wire.Prefix.{take-unsigned_len}
use mldsa_auth.Wire.RoundTrip.{
  decode-encode_client_auth, decode-encode_client_hello, decode-encode_server_hello,
}
use mldsa_auth.Wire.Sizes.{IsClean, IsClientAuth, IsClientHello, IsServerHello}
use mldsa_auth.WireInt.{wire_int_write_u16}

abbrev alice_id : List ℕ
alice_id = 97 ∷ 108 ∷ 105 ∷ 99 ∷ 101 ∷ replicate 59 0

abbrev hello : ClientHello
hello = record {
  id = alice_id;
  id_len = 5;
  ephemeral_pub = replicate 32 1;
  mlkem_ek = replicate 1184 2;
  session_id = replicate 16 3;
  nonce = replicate 32 4;
}

abbrev hello_bytes : List ℕ
hello_bytes =
    1
    ∷ 5
    ∷ (take 5 alice_id
        ++ fixed (replicate 32 1) (replicate 1184 2) (replicate 16 3) (replicate 32 4))

abbrev answer_sig : List ℕ
answer_sig = 9 ∷ 8 ∷ replicate 3307 0

abbrev answer : ServerHello
answer = record {
  id = alice_id;
  id_len = 5;
  ephemeral_pub = replicate 32 1;
  mlkem_ct = replicate 1088 2;
  nonce = replicate 32 4;
  session_id_echo = replicate 16 3;
  sig = answer_sig;
  sig_len = 2;
}

abbrev answer_bytes : List ℕ
answer_bytes = write_server_hello_unsigned_unchecked answer ++ signed 2 (take 2 answer_sig)

abbrev auth : ClientAuth
auth = record { handshake_id = replicate 16 7; sig = answer_sig; sig_len = 2 }

abbrev auth_bytes : List ℕ
auth_bytes = 3 ∷ (replicate 16 7 ++ signed 2 (take 2 answer_sig))

hello-IsClientHello : IsClientHello hello
hello-IsClientHello = record {
  id_size = omega (arith, length-replicate {A = ℕ} 59 0);
  ephemeral_pub_size = length-replicate 32 1;
  mlkem_ek_size = length-replicate 1184 2;
  session_id_size = length-replicate 16 3;
  nonce_size = length-replicate 32 4;
}

answer-IsServerHello : IsServerHello answer
answer-IsServerHello = record {
  id_size = omega (arith, length-replicate {A = ℕ} 59 0);
  ephemeral_pub_size = length-replicate 32 1;
  mlkem_ct_size = length-replicate 1088 2;
  nonce_size = length-replicate 32 4;
  session_id_echo_size = length-replicate 16 3;
  sig_size = omega (arith, length-replicate {A = ℕ} 3307 0);
}

auth-IsClientAuth : IsClientAuth auth
auth-IsClientAuth = record {
  handshake_id_size = length-replicate 16 7;
  sig_size = omega (arith, length-replicate {A = ℕ} 3307 0);
}

alice_id-IsClean : IsClean alice_id 5
unfolding blit take drop replicate
alice_id-IsClean = record { tail = refl }

answer_sig-IsClean : IsClean answer_sig 2
unfolding blit take drop replicate
answer_sig-IsClean = record { tail = refl }

encode_hello : encode_client_hello hello 1330 ≡ some hello_bytes
unfolding encode_client_hello
encode_hello = refl

encode_answer : encode_server_hello answer 4545 ≡ some answer_bytes
unfolding encode_server_hello wire_int_write_u16
encode_answer = refl

encode_auth : encode_client_auth auth 3328 ≡ some auth_bytes
unfolding encode_client_auth wire_int_write_u16
encode_auth = refl

-- One byte too little room, and nothing is written.
encode_hello_short : encode_client_hello hello 1270 ≡ none
unfolding encode_client_hello
encode_hello_short = refl

-- The decoders run: a ClientHello is no ServerHello.
decode_hello_as_answer : decode_server_hello hello_bytes ≡ none
unfolding decode_server_hello next_u8 drop
decode_hello_as_answer = refl

decode-encode_client_hello_example :
    decode_client_hello hello_bytes ≡ some (hello, length hello_bytes)
decode-encode_client_hello_example =
    decode-encode_client_hello hello 1330 hello_bytes hello-IsClientHello alice_id-IsClean
      encode_hello

decode-encode_server_hello_example :
    decode_server_hello answer_bytes ≡ some (answer, length answer_bytes)
decode-encode_server_hello_example =
    decode-encode_server_hello answer 4545 answer_bytes answer-IsServerHello alice_id-IsClean
      answer_sig-IsClean encode_answer

decode-encode_client_auth_example : decode_client_auth auth_bytes ≡ some (auth, length auth_bytes)
decode-encode_client_auth_example =
    decode-encode_client_auth auth 3328 auth_bytes auth-IsClientAuth answer_sig-IsClean encode_auth

alice_bytes : AreBytes (take 5 alice_id)
unfolding take
alice_bytes = omega arith

sig_bytes : AreBytes (signed 2 (take 2 answer_sig))
unfolding take wire_int_write_u16
sig_bytes = omega arith

answer_bytes-AreBytes : AreBytes answer_bytes
answer_bytes-AreBytes = rw (server_hello_layout answer) (
  omega arith,
  (
    omega arith,
    AreBytes-append (take 5 alice_id) _ alice_bytes (
        AreBytes-append (replicate 32 1) _ (AreBytes-replicate 32 1 (omega arith)) (
          AreBytes-append (replicate 1088 2) _ (AreBytes-replicate 1088 2 (omega arith)) (
            AreBytes-append (replicate 32 4) _ (AreBytes-replicate 32 4 (omega arith)) (
              AreBytes-append (replicate 16 3) _ (AreBytes-replicate 16 3 (omega arith))
                sig_bytes)))),
  ),
)

auth_bytes-AreBytes : AreBytes auth_bytes
auth_bytes-AreBytes = (
  omega arith,
  AreBytes-append (replicate 16 7) _ (AreBytes-replicate 16 7 (omega arith)) sig_bytes,
)

encode-decode_client_hello_example :
    (encode_client_hello hello (length hello_bytes) ≡ some hello_bytes)
    × (length hello_bytes ≡ length hello_bytes)
    × (length hello_bytes ≡ client_hello_encoded_len 5)
encode-decode_client_hello_example =
    encode-decode_client_hello hello_bytes hello (length hello_bytes) (length hello_bytes)
      decode-encode_client_hello_example (le_refl (length hello_bytes))

encode-decode_server_hello_example :
    (encode_server_hello answer (length answer_bytes) ≡ some answer_bytes)
    × (length answer_bytes ≡ length answer_bytes)
    × (length answer_bytes ≡ server_hello_unsigned_encoded_len 5 + 2 + 2)
encode-decode_server_hello_example =
    encode-decode_server_hello answer_bytes answer (length answer_bytes) (length answer_bytes)
      answer_bytes-AreBytes decode-encode_server_hello_example (le_refl (length answer_bytes))

encode-decode_client_auth_example :
    (encode_client_auth auth (length auth_bytes) ≡ some auth_bytes)
    × (length auth_bytes ≡ length auth_bytes)
    × (length auth_bytes ≡ 1 + wire_handshake_id_len + 2 + 2)
encode-decode_client_auth_example =
    encode-decode_client_auth auth_bytes auth (length auth_bytes) (length auth_bytes)
      auth_bytes-AreBytes decode-encode_client_auth_example (le_refl (length auth_bytes))

take-unsigned_len_example :
    (encode_server_hello_unsigned answer (length answer_bytes)
      ≡ some (take (transcript_server_hello_unsigned_len 5) answer_bytes))
    × (0 < transcript_server_hello_unsigned_len 5)
    × (transcript_server_hello_unsigned_len 5 < length answer_bytes)
take-unsigned_len_example =
    take-unsigned_len answer_bytes answer (length answer_bytes) (length answer_bytes)
      answer_bytes-AreBytes decode-encode_server_hello_example (le_refl (length answer_bytes))
