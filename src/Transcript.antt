-- ===== src/Transcript.antt =====
-- src/protocol/transcript.c: the three transcript hashes. SHA-256 itself is libsodium's: its
-- incremental interface is a parameter, whose laws are the record `IsSha256`.
pub mod Binding
mod Tests
use Prim.Native.Char.{code}
use Prim.Native.String.{String}
use mldsa_auth.Base.{List, Option, [], length, some, take, ℕ, ◌++◌, ◌>>=◌, ◌>>◌, ◌∷◌, ◌≡◌}

-- The bytes of an ASCII literal, without its NUL.
abbrev pub codes : String → List ℕ
codes String.[] = []
codes (String.◌∷◌ c s) = code c ∷ codes s

abbrev pub transcript_label_server_auth : List ℕ
transcript_label_server_auth = codes "mldsa-auth/v2/server-auth"

abbrev pub transcript_label_client_auth : List ℕ
transcript_label_client_auth = codes "mldsa-auth/v2/client-auth"

abbrev pub transcript_label_handshake_id : List ℕ
transcript_label_handshake_id = codes "mldsa-auth/v2/handshake-id"

-- crypto_hash_sha256_init, _update and _final; `none` is a nonzero return.
pub record Sha256 : Type 1 where
  pub State : Type 0
  pub init : Option State
  pub update : State → List ℕ → Option State
  pub final : State → Option (List ℕ)

-- What libsodium documents: no call fails, and the digest is that of the bytes absorbed so far, in
-- order, however they were cut; it has 32 bytes.
pub record IsSha256 (sha : Sha256) (digest : List ℕ → List ℕ) : Type 1 where
  pub Absorbed : sha.State → List ℕ → Type 0
  pub init_ok : (s : sha.State) × (sha.init ≡ some s) × Absorbed s []
  pub update_ok :
      (s : sha.State) (bs xs : List ℕ)
      → Absorbed s bs
      → (s' : sha.State) × (sha.update s xs ≡ some s') × Absorbed s' (bs ++ xs)
  pub final_ok : (s : sha.State) (bs : List ℕ) → Absorbed s bs → sha.final s ≡ some (digest bs)
  pub digest_size : (bs : List ℕ) → length (digest bs) ≡ 32

module _ (sha : Sha256) where
  unfoldable pub hash_label_and_two_buffers : List ℕ → List ℕ → List ℕ → Option (List ℕ)
  hash_label_and_two_buffers label a b = do
    s₀ ← sha.init
    s₁ ← sha.update s₀ label
    s₂ ← sha.update s₁ (0x00 ∷ [])
    s₃ ← sha.update s₂ a
    s₄ ← sha.update s₃ b
    sha.final s₄

  unfoldable pub transcript_hash_server_auth : List ℕ → List ℕ → Option (List ℕ)
  transcript_hash_server_auth client_hello_bytes sh_unsigned_bytes =
      hash_label_and_two_buffers transcript_label_server_auth client_hello_bytes sh_unsigned_bytes

  unfoldable pub transcript_hash_client_auth : List ℕ → List ℕ → Option (List ℕ)
  transcript_hash_client_auth client_hello_bytes server_hello_bytes =
      hash_label_and_two_buffers transcript_label_client_auth client_hello_bytes server_hello_bytes

  -- The first 16 bytes of the finished digest.
  unfoldable pub transcript_handshake_id : List ℕ → List ℕ → Option (List ℕ)
  transcript_handshake_id client_hello_bytes server_hello_bytes = do
    digest ←
        hash_label_and_two_buffers transcript_label_handshake_id client_hello_bytes
          server_hello_bytes
    some (take 16 digest)
