-- ===== src/Crypto/Mlkem.antt =====
-- src/crypto/mlkem_wrap.c: ML-KEM-768 of liboqs, which is a parameter.
use mldsa_auth.Base.{
  Bool, List, Option, false, guard, if◌then◌else◌, none, not, replicate, some, true, ℕ, ◌&&◌, ◌==◌,
  ◌>>=◌, ◌>>◌, ◌||◌,
}

abbrev pub mlkem_public_key_bytes : ℕ
mlkem_public_key_bytes = 1184

abbrev pub mlkem_secret_key_bytes : ℕ
mlkem_secret_key_bytes = 2400

abbrev pub mlkem_ciphertext_bytes : ℕ
mlkem_ciphertext_bytes = 1088

abbrev pub mlkem_shared_secret_bytes : ℕ
mlkem_shared_secret_bytes = 32

-- The lengths that an OQS_KEM reports.
pub record KemLengths : Type 0 where
  pub public_key : ℕ
  pub secret_key : ℕ
  pub ciphertext : ℕ
  pub shared_secret : ℕ

-- OQS_KEM_new, and OQS_KEM_keypair, _encaps and _decaps with their random coins as an argument;
-- `none` is NULL or a status that is not OQS_SUCCESS.
pub record OqsKem : Type 0 where
  pub new : Option KemLengths
  pub keypair : List ℕ → Option (List ℕ × List ℕ)
  pub encaps : List ℕ → List ℕ → Option (List ℕ × List ℕ)
  pub decaps : List ℕ → List ℕ → Option (List ℕ)

-- `mlkem_keypair_t`; no secret key is NULL.
pub record MlkemKeypair : Type 0 where
  pub public_key : List ℕ
  pub secret_key : Option (List ℕ)

abbrev pub no_mlkem_keypair : MlkemKeypair
no_mlkem_keypair = record { public_key = replicate mlkem_public_key_bytes 0; secret_key = none }

-- Whether a KEM is there, with the sizes of this wrapper.
unfoldable pub kem_new_checked : OqsKem → Bool
kem_new_checked k = elim k.new [
  | none ↦ false
  | some l ↦
      l.public_key == mlkem_public_key_bytes
      && l.secret_key == mlkem_secret_key_bytes
      && l.ciphertext == mlkem_ciphertext_bytes
      && l.shared_secret == mlkem_shared_secret_bytes
]

-- Whether 0 is returned, and the pair; `got` is whether `secure_mem_alloc` gives memory.
unfoldable pub mlkem_keypair_generate : OqsKem → Bool → List ℕ → Bool × MlkemKeypair
mlkem_keypair_generate k got coins =
    if not (kem_new_checked k) || not got
    then (false, no_mlkem_keypair)
    else elim (k.keypair coins) [
      | none ↦ (false, no_mlkem_keypair)
      | some (ek, dk) ↦ (true, record { public_key = ek; secret_key = some dk })
    ]

unfoldable pub mlkem_keypair_free : MlkemKeypair → MlkemKeypair
mlkem_keypair_free kp = no_mlkem_keypair

-- The ciphertext and the shared secret.
unfoldable pub mlkem_encaps : OqsKem → List ℕ → List ℕ → Option (List ℕ × List ℕ)
unfolding kem_new_checked
mlkem_encaps k coins ek = do guard (kem_new_checked k); k.encaps coins ek

unfoldable pub mlkem_decaps : OqsKem → List ℕ → MlkemKeypair → Option (List ℕ)
unfolding kem_new_checked
mlkem_decaps k ct kp = do dk ← kp.secret_key; guard (kem_new_checked k); k.decaps ct dk
