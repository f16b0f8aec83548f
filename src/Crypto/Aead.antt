-- ===== src/Crypto/Aead.antt =====
-- src/crypto/aead.c. ChaCha20-Poly1305 is libsodium's, and a parameter.
use mldsa_auth.Base.{List, Option, if◌then◌else◌, length, ltb, none, some, ℕ, ◌+◌, ◌≡◌}

abbrev pub aead_key_bytes : ℕ
aead_key_bytes = 32

abbrev pub aead_nonce_bytes : ℕ
aead_nonce_bytes = 12

abbrev pub aead_tag_bytes : ℕ
aead_tag_bytes = 16

-- crypto_aead_chacha20poly1305_ietf_encrypt and _decrypt, from the key, the nonce, the additional
-- data and the text; `none` is a nonzero return.
pub record Aead : Type 0 where
  pub encrypt : List ℕ → List ℕ → List ℕ → List ℕ → Option (List ℕ)
  pub decrypt : List ℕ → List ℕ → List ℕ → List ℕ → Option (List ℕ)

-- What libsodium documents: encryption does not fail and adds a tag of 16 bytes, and decryption
-- under the same key, nonce and additional data gives the text back.
pub record IsAead (a : Aead) : Type 0 where
  pub encrypts :
      (key nonce ad msg : List ℕ)
      → (ct : List ℕ) × (a.encrypt key nonce ad msg ≡ some ct)
        × (length ct ≡ length msg + aead_tag_bytes)
  pub decrypts :
      (key nonce ad msg ct : List ℕ)
      → a.encrypt key nonce ad msg ≡ some ct
      → a.decrypt key nonce ad ct ≡ some msg

unfoldable pub aead_encrypt : Aead → List ℕ → List ℕ → List ℕ → List ℕ → Option (List ℕ)
aead_encrypt a msg ad nonce key = a.encrypt key nonce ad msg

unfoldable pub aead_decrypt : Aead → List ℕ → List ℕ → List ℕ → List ℕ → Option (List ℕ)
aead_decrypt a ciphertext ad nonce key =
    if ltb (length ciphertext) aead_tag_bytes then none else a.decrypt key nonce ad ciphertext
