-- ===== src/Crypto/Mldsa.antt =====
-- src/crypto/mldsa_wrap.c: ML-DSA-65 of liboqs, which is a parameter.
use mldsa_auth.Base.{
  Bool, List, Option, false, guard, if◌then◌else◌, none, not, replicate, some, true, ℕ, ◌==◌, ◌>>=◌,
  ◌>>◌, ◌||◌,
}
use mldsa_auth.Wire.{mldsa_signature_max_bytes}

abbrev pub mldsa_public_key_bytes : ℕ
mldsa_public_key_bytes = 1952

abbrev pub mldsa_secret_key_bytes : ℕ
mldsa_secret_key_bytes = 4032

-- The lengths that an OQS_SIG reports.
pub record SigLengths : Type 0 where
  pub public_key : ℕ
  pub secret_key : ℕ
  pub signature : ℕ

-- OQS_SIG_new, and OQS_SIG_keypair, _sign (coins, message, secret key) and _verify (message,
-- signature, public key); `none` is NULL or a status that is not OQS_SUCCESS.
pub record OqsSig : Type 0 where
  pub new : Option SigLengths
  pub keypair : List ℕ → Option (List ℕ × List ℕ)
  pub sign : List ℕ → List ℕ → List ℕ → Option (List ℕ)
  pub verify : List ℕ → List ℕ → List ℕ → Bool

-- `mldsa_keypair_t`; no secret key is NULL.
pub record MldsaKeypair : Type 0 where
  pub public_key : List ℕ
  pub secret_key : Option (List ℕ)

abbrev pub no_mldsa_keypair : MldsaKeypair
no_mldsa_keypair = record { public_key = replicate mldsa_public_key_bytes 0; secret_key = none }

-- Whether 0 is returned, and the pair; `got` is whether `secure_mem_alloc` gives memory.
pub mldsa_keypair_generate : OqsSig → Bool → List ℕ → Bool × MldsaKeypair
mldsa_keypair_generate o got coins = elim o.new [
  | none ↦ (false, no_mldsa_keypair)
  | some l ↦
      if not (l.public_key == mldsa_public_key_bytes)
        || not (l.secret_key == mldsa_secret_key_bytes)
        || not got
      then (false, no_mldsa_keypair)
      else elim (o.keypair coins) [
        | none ↦ (false, no_mldsa_keypair)
        | some (pk, sk) ↦ (true, record { public_key = pk; secret_key = some sk })
      ]
]

pub mldsa_keypair_free : MldsaKeypair → MldsaKeypair
mldsa_keypair_free kp = no_mldsa_keypair

-- The signature, whose length is `*sig_len`.
unfoldable pub mldsa_sign : OqsSig → List ℕ → List ℕ → MldsaKeypair → Option (List ℕ)
mldsa_sign o coins msg kp = do
  sk ← kp.secret_key
  l ← o.new
  guard (l.signature == mldsa_signature_max_bytes)
  o.sign coins msg sk

-- Whether 0 is returned.
unfoldable pub mldsa_verify : OqsSig → List ℕ → List ℕ → List ℕ → Bool
mldsa_verify o msg sig public_key = elim o.new [
  | none ↦ false
  | some l ↦ o.verify msg sig public_key
]
