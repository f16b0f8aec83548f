-- ===== src/Authmsg/Digest.antt =====
-- What the digest of a rotation in apps/authd/authmsg.c covers, and that it covers it unambiguously.
use mldsa_auth.Authmsg.{authmsg_handshake_id_bytes, msg_ok, store_id_max}
use mldsa_auth.Authmsg.Rotate.{absorb, authmsg_rotate_digest}
use mldsa_auth.Authmsg.RoundTrip.{handle_fits}
use mldsa_auth.Base.{
  Bool-cases, List, [], ap, append_assoc, arith, get_elem?, inl, inr, length, refl, some, some_inj,
  sym, ℕ, ◌%◌, ◌++◌, ◌∙◌, ◌∷◌, ◌≡◌, ◌≢◌, ◌≤◌, ◌⊎◌,
}
use mldsa_auth.Base.Bytes.{append_inj, bytes_apart, bytes_eq, eq_of_bytes_eq}
use mldsa_auth.Crypto.Mldsa.{mldsa_public_key_bytes}
use mldsa_auth.Transcript.{IsSha256, Sha256, codes}

-- AUTHMSG_LABEL_ROTATE_OLD and AUTHMSG_LABEL_ROTATE_NEW
abbrev pub authmsg_label_rotate_old : List ℕ
authmsg_label_rotate_old = codes "mldsa-authd/v1/rotate-old"

abbrev pub authmsg_label_rotate_new : List ℕ
authmsg_label_rotate_new = codes "mldsa-authd/v1/rotate-new"

-- label || 0x00 || M
rotate_input : List ℕ → List ℕ → ℕ → List ℕ → List ℕ → List ℕ → List ℕ
rotate_input label hs_id flags handle pk_old pk_new =
    label
    ++ ((0x00 ∷ [])
        ++ (hs_id
            ++ ((flags ∷ []) ++ ((length handle % 256 ∷ []) ++ (handle ++ (pk_old ++ pk_new))))))

absorb_lem :
    (sha : Sha256) (digest : List ℕ → List ℕ) (law : IsSha256 sha digest) (s : sha.State)
    (bs xs : List ℕ)
    → law.Absorbed s bs
    → law.Absorbed (absorb sha s xs) (bs ++ xs)
absorb_lem sha digest law s bs xs a = let (s', e, a') = law.update_ok s bs xs a in rw (absorb, e) a'

-- Which of the two keys signs.
pub data RotateLabel : Type 0 where
  by_old by_new : RotateLabel

abbrev pub rotate_label : RotateLabel → List ℕ
rotate_label by_old = authmsg_label_rotate_old
rotate_label by_new = authmsg_label_rotate_new

length-rotate_label : (l : RotateLabel) → length (rotate_label l) ≡ 25
length-rotate_label by_old = refl
length-rotate_label by_new = refl

letter_apart : {a b : ℕ} → some a ≡ some b → a ≢ b → ⊥
letter_apart h n = n (some_inj h)

-- The labels differ in a letter.
rotate_label_inj : (l l' : RotateLabel) → rotate_label l ≡ rotate_label l' → l ≡ l'
rotate_label_inj by_old by_old h = refl
rotate_label_inj by_new by_new h = refl
rotate_label_inj by_old by_new h =
    absurd (letter_apart (ap (λ xs. get_elem? xs 22) h) (λ e. omega (arith, e)))
rotate_label_inj by_new by_old h =
    absurd (letter_apart (ap (λ xs. get_elem? xs 22) h) (λ e. omega (arith, e)))

-- The bytes that are hashed determine the fields.
rotate_input_injective :
    (l l' : RotateLabel) (id id' handle handle' pk_old pk_old' pk_new pk_new' : List ℕ)
    (flags flags' : ℕ)
    → length id ≡ authmsg_handshake_id_bytes
    → length id' ≡ authmsg_handshake_id_bytes
    → length handle ≤ store_id_max
    → length handle' ≤ store_id_max
    → length pk_old ≡ mldsa_public_key_bytes
    → length pk_old' ≡ mldsa_public_key_bytes
    → rotate_input (rotate_label l) id flags handle pk_old pk_new
      ≡ rotate_input (rotate_label l') id' flags' handle' pk_old' pk_new'
    → (l ≡ l')
      × (id ≡ id')
      × (flags ≡ flags')
      × (handle ≡ handle')
      × (pk_old ≡ pk_old')
      × (pk_new ≡ pk_new')
unfolding rotate_input
rotate_input_injective l l' id id' handle handle' pk_old pk_old' pk_new pk_new' flags flags' li li'
      lh lh' lo lo' e =
    let (a, r) =
      append_inj (rotate_label l) (rotate_label l') _ _
        (length-rotate_label l ∙ sym (length-rotate_label l')) e in
    let (z, r₁) = append_inj (0x00 ∷ []) (0x00 ∷ []) _ _ refl r in
    let (i, r₂) = append_inj id id' _ _ (li ∙ sym li') r₁ in
    let (f, r₃) = append_inj (flags ∷ []) (flags' ∷ []) _ _ refl r₂ in
    let (n, r₄) = append_inj (length handle % 256 ∷ []) (length handle' % 256 ∷ []) _ _ refl r₃ in
    let same : length handle % 256 ≡ length handle' % 256 = cc in
    let len : length handle ≡ length handle' = omega (arith, same) in
    let (h, r₅) = append_inj handle handle' _ _ len r₄ in
    let (o, w) = append_inj pk_old pk_old' _ _ (lo ∙ sym lo') r₅ in
    let flag : flags ≡ flags' = cc in (rotate_label_inj l l' a, i, flag, h, o, w)

-- With a SHA-256 as documented and a handle of 1 to 64 bytes, authmsg_rotate_digest succeeds and is
-- the digest of the label, a zero byte and the fields in the order of the specification.
pub rotate_digest_total :
    (sha : Sha256) (digest : List ℕ → List ℕ) (label id handle pk_old pk_new : List ℕ) (flags : ℕ)
    → IsSha256 sha digest
    → 1 ≤ length handle
    → length handle ≤ 64
    → authmsg_rotate_digest sha label id flags handle pk_old pk_new ≡ (
      msg_ok,
      some (
          digest (
            label
            ++ ((0x00 ∷ [])
                ++ (id
                    ++ ((flags ∷ [])
                        ++ ((length handle % 256 ∷ []) ++ (handle ++ (pk_old ++ pk_new)))))))),
    )
unfolding authmsg_rotate_digest
rotate_digest_total sha digest label id handle pk_old pk_new flags law h h' =
    let hl = handle_fits (length handle) h h' in
    let (s₀, e₀, a₀) = law.init_ok in
    let a₁ = absorb_lem sha digest law s₀ [] label a₀ in
    let a₂ = absorb_lem sha digest law _ _ (0x00 ∷ []) a₁ in
    let a₃ = absorb_lem sha digest law _ _ id a₂ in
    let a₄ = absorb_lem sha digest law _ _ (flags ∷ []) a₃ in
    let a₅ = absorb_lem sha digest law _ _ (length handle % 256 ∷ []) a₄ in
    let a₆ = absorb_lem sha digest law _ _ handle a₅ in
    let a₇ = absorb_lem sha digest law _ _ pk_old a₆ in
    let a₈ = absorb_lem sha digest law _ _ pk_new a₇ in
    rw (hl, e₀)
      (ap (λ d. (msg_ok, d)) (law.final_ok _ _ a₈ ∙ ap (λ x. some (digest x)) (simp append_assoc)))

-- Two inputs of a hash with one digest.
pub record Collision (digest : List ℕ → List ℕ) : Type 0 where
  pub one : List ℕ
  pub other : List ℕ
  pub apart : one ≢ other
  pub same : digest one ≡ digest other

same_or_Collision :
    (digest : List ℕ → List ℕ) (x y : List ℕ) → digest x ≡ digest y → (x ≡ y) ⊎ Collision digest
same_or_Collision digest x y h = elim (Bool-cases (bytes_eq x y)) [
  | inl e ↦ inl (eq_of_bytes_eq x y e)
  | inr e ↦ inr (record { one = x; other = y; apart = bytes_apart x y e; same = h })
]

made_handle :
    (sha : Sha256) (label id handle pk_old pk_new d : List ℕ) (flags : ℕ)
    → authmsg_rotate_digest sha label id flags handle pk_old pk_new ≡ (msg_ok, some d)
    → (1 ≤ length handle) × (length handle ≤ store_id_max)
unfolding authmsg_rotate_digest
made_handle sha label id handle pk_old pk_new d flags h = ground arith

-- A digest that was made is that of its input, and its handle has a length that is allowed.
rotate_digest_made :
    (sha : Sha256) (digest : List ℕ → List ℕ) (label id handle pk_old pk_new d : List ℕ) (flags : ℕ)
    → IsSha256 sha digest
    → authmsg_rotate_digest sha label id flags handle pk_old pk_new ≡ (msg_ok, some d)
    → (length handle ≤ store_id_max)
      × (d ≡ digest (rotate_input label id flags handle pk_old pk_new))
unfolding rotate_input
rotate_digest_made sha digest label id handle pk_old pk_new d flags law h =
    let (lo, hi) = made_handle sha label id handle pk_old pk_new d flags h in
    let whole =
      sym h ∙ rotate_digest_total sha digest label id handle pk_old pk_new flags law lo hi in
    (hi, some_inj (ap (λ r. r.1) whole))

-- If authmsg_rotate_digest gives one digest for two rotations, with ids of 16 bytes and old keys of
-- 1952 bytes, then both are for the same one of the two keys and have the same handshake id, flags,
-- handle, old key and new key; or they show a collision of SHA-256.
pub rotate_digest_binds :
    (sha : Sha256) (digest : List ℕ → List ℕ) (l l' : RotateLabel)
    (id id' handle handle' pk_old pk_old' pk_new pk_new' d : List ℕ) (flags flags' : ℕ)
    → IsSha256 sha digest
    → length id ≡ authmsg_handshake_id_bytes
    → length id' ≡ authmsg_handshake_id_bytes
    → length pk_old ≡ mldsa_public_key_bytes
    → length pk_old' ≡ mldsa_public_key_bytes
    → authmsg_rotate_digest sha (rotate_label l) id flags handle pk_old pk_new ≡ (msg_ok, some d)
    → authmsg_rotate_digest sha (rotate_label l') id' flags' handle' pk_old' pk_new'
      ≡ (msg_ok, some d)
    → ((l ≡ l')
        × (id ≡ id')
        × (flags ≡ flags')
        × (handle ≡ handle')
        × (pk_old ≡ pk_old')
        × (pk_new ≡ pk_new'))
      ⊎ Collision digest
rotate_digest_binds sha digest l l' id id' handle handle' pk_old pk_old' pk_new pk_new' d flags
      flags' law li li' lo lo' h h' =
    let (fits, made) =
      rotate_digest_made sha digest (rotate_label l) id handle pk_old pk_new d flags law h in
    let (fits', made') =
      rotate_digest_made sha digest (rotate_label l') id' handle' pk_old' pk_new' d flags' law h' in
    elim (same_or_Collision digest _ _ (sym made ∙ made')) [
      | inl e ↦ inl (
          rotate_input_injective l l' id id' handle handle' pk_old pk_old' pk_new pk_new' flags
            flags' li li' fits fits' lo lo' e)
      | inr c ↦ inr c
    ]
