-- ===== src/Crypto/Kex.antt =====
-- src/crypto/kex.c: the X25519 wrapper and the key schedule. X25519 and HKDF-SHA256 are
-- libsodium's, and parameters.
pub mod Info
use mldsa_auth.Base.{
  Bool, List, Option, [], false, guard, leb, length, none, replicate, some, take, true, ℕ, ◌%◌,
  ◌&&◌, ◌++◌, ◌+◌, ◌==◌, ◌>>=◌, ◌>>◌, ◌||◌, ◌∷◌,
}
use mldsa_auth.Transcript.{codes}

abbrev pub kex_public_key_bytes : ℕ
kex_public_key_bytes = 32

abbrev pub kex_session_key_bytes : ℕ
kex_session_key_bytes = 32

abbrev pub kex_dir_c2s : ℕ
kex_dir_c2s = 0x43

abbrev pub kex_dir_s2c : ℕ
kex_dir_s2c = 0x53

abbrev pub kex_id_min_len : ℕ
kex_id_min_len = 1

abbrev pub kex_id_max_len : ℕ
kex_id_max_len = 64

abbrev pub kex_session_id_len : ℕ
kex_session_id_len = 16

abbrev pub kex_transcript_hash_bytes : ℕ
kex_transcript_hash_bytes = 32

abbrev pub kex_kdf_v2_label : List ℕ
kex_kdf_v2_label = codes "mldsa-auth/v2/kdf"

abbrev pub kex_kdf_v2_info_max_len : ℕ
kex_kdf_v2_info_max_len = 181

abbrev pub hkdf_bytes_max : ℕ
hkdf_bytes_max = 8160

-- crypto_scalarmult_base and crypto_scalarmult, from the private key; `none` is a nonzero return.
pub record X25519 : Type 0 where
  pub base : List ℕ → Option (List ℕ)
  pub scalarmult : List ℕ → List ℕ → Option (List ℕ)

-- crypto_kdf_hkdf_sha256_extract (salt, ikm) and _expand (length, info, prk).
pub record Hkdf : Type 0 where
  pub extract : List ℕ → List ℕ → Option (List ℕ)
  pub expand : ℕ → List ℕ → List ℕ → Option (List ℕ)

-- `kex_keypair_t`; no private key is NULL.
pub record KexKeypair : Type 0 where
  pub public_key : List ℕ
  pub private_key : Option (List ℕ)

-- The status (true is 0) and the pair that is left in `kp`; `sk` is what `secure_mem_alloc` and
-- `randombytes_buf` give, nothing if the allocation fails.
unfoldable pub kex_keypair_generate : X25519 → Option (List ℕ) → Bool × KexKeypair
kex_keypair_generate x none =
    (false, record { public_key = replicate kex_public_key_bytes 0; private_key = none })
kex_keypair_generate x (some sk) = elim (x.base sk) [
  | none ↦ (false, record { public_key = replicate kex_public_key_bytes 0; private_key = none })
  | some pk ↦ (true, record { public_key = pk; private_key = some sk })
]

unfoldable pub kex_keypair_free : KexKeypair → KexKeypair
kex_keypair_free kp = record { public_key = replicate kex_public_key_bytes 0; private_key = none }

unfoldable pub kex_shared_secret : X25519 → KexKeypair → List ℕ → Option (List ℕ)
kex_shared_secret x kp peer_public_key = do sk ← kp.private_key; x.scalarmult sk peer_public_key

unfoldable pub kex_hkdf_sha256 : Hkdf → ℕ → List ℕ → List ℕ → List ℕ → Option (List ℕ)
kex_hkdf_sha256 h okm_len ikm salt info = do
  guard (leb okm_len hkdf_bytes_max)
  prk ← h.extract salt ikm
  h.expand okm_len info prk

-- An id is its array with its length.
unfoldable pub kex_build_kdf_info_v2 : ℕ → List ℕ → ℕ → List ℕ → ℕ → List ℕ → ℕ → Option (List ℕ)
kex_build_kdf_info_v2 out_cap a_id a_id_len b_id b_id_len th_client_auth direction = do
  guard (leb kex_id_min_len a_id_len && leb a_id_len kex_id_max_len)
  guard (leb kex_id_min_len b_id_len && leb b_id_len kex_id_max_len)
  guard (direction == kex_dir_c2s || direction == kex_dir_s2c)
  guard (
      leb
        (length kex_kdf_v2_label + 1 + 1 + a_id_len + 1 + b_id_len + kex_transcript_hash_bytes + 1)
        out_cap)
  some (
      kex_kdf_v2_label
      ++ ((0x00 ∷ [])
          ++ ((a_id_len % 256 ∷ [])
              ++ (take a_id_len a_id
                  ++ ((b_id_len % 256 ∷ [])
                      ++ (take b_id_len b_id
                          ++ (take kex_transcript_hash_bytes th_client_auth
                              ++ (direction ∷ []))))))))

-- Both secrets, in this order, are the input keying material.
unfoldable pub kex_derive_session_key_v2 :
    Hkdf → List ℕ → List ℕ → List ℕ → List ℕ → ℕ → List ℕ → ℕ → List ℕ → ℕ → Option (List ℕ)
unfolding kex_build_kdf_info_v2 kex_hkdf_sha256
kex_derive_session_key_v2 h ss_x ss_k session_id a_id a_id_len b_id b_id_len th_client_auth
      direction =
    do
      guard (length session_id == kex_session_id_len)
      info ←
          kex_build_kdf_info_v2 kex_kdf_v2_info_max_len a_id a_id_len b_id b_id_len th_client_auth
            direction
      kex_hkdf_sha256 h kex_session_key_bytes (ss_x ++ ss_k) session_id info
