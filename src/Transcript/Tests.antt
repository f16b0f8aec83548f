-- ===== src/Transcript/Tests.antt =====
-- A hash that keeps what it absorbed shows that the laws of `IsSha256` can hold, and the theorems.
use mldsa_auth.Base.{
  List, [], ap, arith, drop, length, length-replicate, refl, replicate, some, take, ℕ, ◌++◌, ◌∷◌,
  ◌≡◌,
}
use mldsa_auth.Base.Bytes.{blit}
use mldsa_auth.Transcript.{
  IsSha256, Sha256, codes, transcript_handshake_id, transcript_hash_client_auth,
  transcript_hash_server_auth,
}
use mldsa_auth.Transcript.Binding.{server_auth, transcript_hashes, transcript_input_injective}
use mldsa_auth.Wire.{ClientHello, decode_client_hello, encode_client_hello}
use mldsa_auth.Wire.RoundTrip.{decode-encode_client_hello}

-- Sums the bytes: a digest of 32 bytes.
abbrev toy_digest : List ℕ → List ℕ
toy_digest bs = length bs ∷ replicate 31 0

abbrev toy_sha : Sha256
toy_sha = record {
  State = List ℕ;
  init = some [];
  update = λ s xs. some (s ++ xs);
  final = λ s. some (toy_digest s);
}

toy-IsSha256 : IsSha256 toy_sha toy_digest
toy-IsSha256 = record {
  Absorbed = λ s bs. s ≡ bs;
  init_ok = ([], refl, refl);
  update_ok = λ s bs xs h. (s ++ xs, refl, ap (λ t. t ++ xs) h);
  final_ok = λ s bs h. ap (λ t. some (toy_digest t)) h;
  digest_size = λ bs. omega (arith, length-replicate {A = ℕ} 31 0);
}

transcript_hashes_example :
    (transcript_hash_server_auth toy_sha (1 ∷ []) (2 ∷ [])
      ≡ some (toy_digest (codes "mldsa-auth/v2/server-auth" ++ ((0x00 ∷ []) ++ (1 ∷ 2 ∷ [])))))
    × (transcript_hash_client_auth toy_sha (1 ∷ []) (2 ∷ [])
        ≡ some (toy_digest (codes "mldsa-auth/v2/client-auth" ++ ((0x00 ∷ []) ++ (1 ∷ 2 ∷ [])))))
    × (transcript_handshake_id toy_sha (1 ∷ []) (2 ∷ [])
        ≡ some (
            take 16
              (toy_digest (codes "mldsa-auth/v2/handshake-id" ++ ((0x00 ∷ []) ++ (1 ∷ 2 ∷ []))))))
transcript_hashes_example = transcript_hashes toy_sha toy_digest (1 ∷ []) (2 ∷ []) toy-IsSha256

-- The smallest ClientHello: an id of one byte, and zeros.
abbrev small_hello : ClientHello
small_hello = record {
  id = 97 ∷ replicate 63 0;
  id_len = 1;
  ephemeral_pub = replicate 32 0;
  mlkem_ek = replicate 1184 0;
  session_id = replicate 16 0;
  nonce = replicate 32 0;
}

abbrev small_bytes : List ℕ
small_bytes =
    1
    ∷ 1
    ∷ (take 1 (97 ∷ replicate 63 0)
        ++ (replicate 32 0 ++ (replicate 1184 0 ++ (replicate 16 0 ++ replicate 32 0))))

small_hello-reads : decode_client_hello small_bytes ≡ some (small_hello, length small_bytes)
unfolding encode_client_hello blit take drop replicate
small_hello-reads =
    decode-encode_client_hello small_hello 1330 small_bytes
      (record {
        id_size = omega (arith, length-replicate {A = ℕ} 63 0);
        ephemeral_pub_size = length-replicate {A = ℕ} 32 0;
        mlkem_ek_size = length-replicate {A = ℕ} 1184 0;
        session_id_size = length-replicate {A = ℕ} 16 0;
        nonce_size = length-replicate {A = ℕ} 32 0;
      })
      (record { tail = refl }) refl

transcript_input_injective_example :
    (server_auth ≡ server_auth) × (small_bytes ≡ small_bytes) × (◌≡◌ {A = List ℕ} (7 ∷ []) (7 ∷ []))
transcript_input_injective_example =
    transcript_input_injective server_auth server_auth small_bytes small_bytes (7 ∷ []) (7 ∷ [])
      small_hello small_hello (length small_bytes) (length small_bytes) small_hello-reads
      small_hello-reads refl
