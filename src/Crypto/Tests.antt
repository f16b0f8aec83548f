-- ===== src/Crypto/Tests.antt =====
-- Tests of src/crypto.
use mldsa_auth.Base.{
  List, [], arith, length-replicate, refl, replicate, some, take, ℕ, ◌++◌, ◌∷◌, ◌≡◌,
}
use mldsa_auth.Crypto.Kex.{kex_build_kdf_info_v2, kex_dir_c2s, kex_kdf_v2_label}
use mldsa_auth.Crypto.Kex.Info.{kex_build_kdf_info_v2-injective}

abbrev sample_hash : List ℕ
sample_hash = replicate 32 9

abbrev sample_info : List ℕ
sample_info =
    kex_kdf_v2_label ++ ((0x00 ∷ []) ++ (1 ∷ 65 ∷ 2 ∷ 66 ∷ 67 ∷ (replicate 32 9 ++ (0x43 ∷ []))))

built :
    kex_build_kdf_info_v2 100 (65 ∷ 0 ∷ []) 1 (66 ∷ 67 ∷ []) 2 sample_hash 0x43 ≡ some sample_info
unfolding kex_build_kdf_info_v2 take replicate
built = refl

built_again :
    kex_build_kdf_info_v2 181 (65 ∷ []) 1 (66 ∷ 67 ∷ 68 ∷ []) 2 sample_hash 0x43 ≡ some sample_info
unfolding kex_build_kdf_info_v2 take replicate
built_again = refl

kex_build_kdf_info_v2-injective_example :
    (take {A = ℕ} 1 (65 ∷ 0 ∷ []) ≡ take {A = ℕ} 1 (65 ∷ []))
    × (take {A = ℕ} 2 (66 ∷ 67 ∷ []) ≡ take {A = ℕ} 2 (66 ∷ 67 ∷ 68 ∷ []))
    × (sample_hash ≡ sample_hash)
    × (kex_dir_c2s ≡ kex_dir_c2s)
kex_build_kdf_info_v2-injective_example =
    kex_build_kdf_info_v2-injective 100 181 (65 ∷ 0 ∷ []) (65 ∷ []) 1 1 (66 ∷ 67 ∷ [])
      (66 ∷ 67 ∷ 68 ∷ []) 2 2 sample_hash sample_hash 0x43 0x43 sample_info (omega arith)
      (omega arith) (omega arith) (omega arith) (length-replicate {A = ℕ} 32 9)
      (length-replicate {A = ℕ} 32 9) built built_again
