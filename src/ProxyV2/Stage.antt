-- ===== src/ProxyV2/Stage.antt =====
-- The loop of apps/authd/proxy_v2.c that stages bytes, over one piece or two.
use mldsa_auth.Base.{
  Bool-cases, List, [], append-nil, append_assoc, arith, drop, false, inl, inr, length,
  length-append, ltb, refl, suc, take, true, zero, ℕ, ◌++◌, ◌+◌, ◌-◌, ◌∷◌, ◌≡◌, ◌≤◌,
}
use mldsa_auth.ProxyV2.{stage}

pub stage_full :
    (bound : ℕ) (buf xs : List ℕ) → ltb (length buf) bound ≡ false → stage bound buf xs ≡ (buf, xs)
unfolding stage
stage_full bound buf [] h = refl
stage_full bound buf (x ∷ xs) h = rw h refl

pub stage_rest :
    (bound : ℕ) (buf xs : List ℕ)
    → ltb (length (stage bound buf xs).0) bound ≡ true
    → (stage bound buf xs).1 ≡ []
unfolding stage
stage_rest bound buf [] h = refl
stage_rest bound buf (x ∷ xs) h = elim (Bool-cases (ltb (length buf) bound)) [
  | inl t ↦ rw t (stage_rest bound (buf ++ x ∷ []) xs (rw t at h))
  | inr f ↦ absurd (ground (arith, f, h))
]

pub stage-append_more :
    (bound : ℕ) (buf xs ys : List ℕ)
    → ltb (length (stage bound buf xs).0) bound ≡ true
    → stage bound buf (xs ++ ys) ≡ stage bound (stage bound buf xs).0 ys
unfolding stage
stage-append_more bound buf [] ys h = refl
stage-append_more bound buf (x ∷ xs) ys h = elim (Bool-cases (ltb (length buf) bound)) [
  | inl t ↦ rw t (stage-append_more bound (buf ++ x ∷ []) xs ys (rw t at h))
  | inr f ↦ absurd (ground (arith, f, h))
]

pub stage-append_full :
    (bound : ℕ) (buf xs ys : List ℕ)
    → ltb (length (stage bound buf xs).0) bound ≡ false
    → stage bound buf (xs ++ ys) ≡ ((stage bound buf xs).0, (stage bound buf xs).1 ++ ys)
unfolding stage
stage-append_full bound buf [] ys h = stage_full bound buf ys h
stage-append_full bound buf (x ∷ xs) ys h = elim (Bool-cases (ltb (length buf) bound)) [
  | inl t ↦ rw t (stage-append_full bound (buf ++ x ∷ []) xs ys (rw t at h))
  | inr f ↦ rw f refl
]

pub stage-rest_le : (bound : ℕ) (buf xs : List ℕ) → length (stage bound buf xs).1 ≤ length xs
unfolding stage
stage-rest_le bound buf [] = omega arith
stage-rest_le bound buf (x ∷ xs) = elim (Bool-cases (ltb (length buf) bound)) [
  | inl t ↦ rw t (omega (arith, stage-rest_le bound (buf ++ x ∷ []) xs))
  | inr f ↦ rw f (omega arith)
]

pub length-stage :
    (bound : ℕ) (buf xs : List ℕ)
    → length (stage bound buf xs).0 + length (stage bound buf xs).1 ≡ length buf + length xs
unfolding stage
length-stage bound buf [] = refl
length-stage bound buf (x ∷ xs) = elim (Bool-cases (ltb (length buf) bound)) [
  | inl t ↦ rw t (omega (arith, length-stage bound (buf ++ x ∷ []) xs, length-append buf (x ∷ [])))
  | inr f ↦ rw f refl
]

take_nil : (n : ℕ) → take {A = ℕ} n [] ≡ []
unfolding take
take_nil zero = refl
take_nil (suc n) = refl

drop_nil : (n : ℕ) → drop {A = ℕ} n [] ≡ []
unfolding drop
drop_nil zero = refl
drop_nil (suc n) = refl

-- The loop takes what is missing, and leaves the rest.
pub stage_lem :
    (bound : ℕ) (buf xs : List ℕ)
    → length buf ≤ bound
    → stage bound buf xs ≡ (buf ++ take (bound - length buf) xs, drop (bound - length buf) xs)
unfolding stage
stage_lem bound buf [] h =
    rw (take_nil (bound - length buf), drop_nil (bound - length buf), append-nil buf) refl
stage_lem bound buf (x ∷ xs) h = elim (Bool-cases (ltb (length buf) bound)) [
  | inl t ↦
      let total = length-append buf (x ∷ []) in
      let one : bound - length buf ≡ suc (bound - length (buf ++ x ∷ [])) =
        ground (arith, total, t) in
      rw (t, one, stage_lem bound (buf ++ x ∷ []) xs (ground (arith, total, t)))
        (unfold take drop in
          rw (append_assoc buf (x ∷ []) (take (bound - length (buf ++ x ∷ [])) xs)) refl)
  | inr f ↦
      let none_left : bound - length buf ≡ 0 = ground (arith, f) in
      rw (f, none_left) (unfold take drop in rw (append-nil buf) refl)
]
