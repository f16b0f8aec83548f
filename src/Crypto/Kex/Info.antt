-- ===== src/Crypto/Kex/Info.antt =====
-- The KDF info of src/crypto/kex.c determines the ids, the transcript hash and the direction.
use mldsa_auth.Base.{
  List, [], arith, length, length-take, refl, some, sym, take, take_all, ℕ, ◌%◌, ◌++◌, ◌∙◌, ◌∷◌,
  ◌≡◌, ◌≤◌, ◌⊎◌,
}
use mldsa_auth.Base.Bytes.{append_inj}
use mldsa_auth.Crypto.Kex.{
  kex_build_kdf_info_v2, kex_dir_c2s, kex_dir_s2c, kex_kdf_v2_label, kex_transcript_hash_bytes,
}

-- The info behind its label and separator.
pub info_fields : List ℕ → ℕ → List ℕ → ℕ → List ℕ → ℕ → List ℕ
info_fields a n b m th d =
    (n % 256 ∷ take n a)
    ++ ((m % 256 ∷ take m b) ++ (take kex_transcript_hash_bytes th ++ (d ∷ [])))

pub kex_build_kdf_info_v2_inv :
    (room : ℕ) (a : List ℕ) (n : ℕ) (b : List ℕ) (m : ℕ) (th : List ℕ) (d : ℕ) (out : List ℕ)
    → kex_build_kdf_info_v2 room a n b m th d ≡ some out
    → (1 ≤ n)
      × (n ≤ 64)
      × (1 ≤ m)
      × (m ≤ 64)
      × ((d ≡ kex_dir_c2s) ⊎ (d ≡ kex_dir_s2c))
      × (out ≡ kex_kdf_v2_label ++ ((0x00 ∷ []) ++ info_fields a n b m th d))
unfolding kex_build_kdf_info_v2 info_fields
kex_build_kdf_info_v2_inv room a n b m th d out e = ground arith

head_inj : (x y : ℕ) (xs ys : List ℕ) → x ∷ xs ≡ y ∷ ys → (x ≡ y) × (xs ≡ ys)
head_inj x y xs ys h = (cc, cc)

-- A length byte, an id of that length, and what follows.
field_inj :
    (n n' : ℕ) (a a' us vs : List ℕ)
    → n ≤ 64
    → n' ≤ 64
    → n ≤ length a
    → n' ≤ length a'
    → (n % 256 ∷ take n a) ++ us ≡ (n' % 256 ∷ take n' a') ++ vs
    → (n ≡ n') × (take n a ≡ take n' a') × (us ≡ vs)
field_inj n n' a a' us vs h h' k k' e =
    let (x, y) = head_inj _ _ _ _ e in
    let same : n ≡ n' = omega (arith, x) in
    let (p, q) =
      append_inj (take n a) (take n' a') us vs
        (omega (arith, length-take n a, length-take n' a', same)) y in
    (same, p, q)

-- Two equal KDF infos are of the same ids, the same transcript hash and the same direction, where
-- the ids and the hashes are as long as they claim.
pub kex_build_kdf_info_v2-injective :
    (room room' : ℕ) (a a' : List ℕ) (n n' : ℕ) (b b' : List ℕ) (m m' : ℕ) (th th' : List ℕ)
    (d d' : ℕ) (out : List ℕ)
    → n ≤ length a
    → n' ≤ length a'
    → m ≤ length b
    → m' ≤ length b'
    → length th ≡ kex_transcript_hash_bytes
    → length th' ≡ kex_transcript_hash_bytes
    → kex_build_kdf_info_v2 room a n b m th d ≡ some out
    → kex_build_kdf_info_v2 room' a' n' b' m' th' d' ≡ some out
    → (take n a ≡ take n' a') × (take m b ≡ take m' b') × (th ≡ th') × (d ≡ d')
unfolding info_fields
kex_build_kdf_info_v2-injective room room' a a' n n' b b' m m' th th' d d' out ha ha' hb hb' ht ht'
      e e' =
    let (_, n_le, _, m_le, _, at) = kex_build_kdf_info_v2_inv room a n b m th d out e in
    let (_, n_le', _, m_le', _, at') = kex_build_kdf_info_v2_inv room' a' n' b' m' th' d' out e' in
    let behind = (append_inj kex_kdf_v2_label kex_kdf_v2_label _ _ refl (sym at ∙ at')).1 in
    let fields = (head_inj _ _ _ _ behind).1 in
    let (_, id_a, rest) = field_inj n n' a a' _ _ n_le n_le' ha ha' fields in
    let (_, id_b, rest') = field_inj m m' b b' _ _ m_le m_le' hb hb' rest in
    let (hash, dir) = append_inj th th' _ _ (ht ∙ sym ht') (
      rw
        (
          take_all kex_transcript_hash_bytes th (omega (arith, ht)),
          take_all kex_transcript_hash_bytes th' (omega (arith, ht')),
        )
        at rest') in
    (id_a, id_b, hash, (head_inj _ _ _ _ dir).0)
