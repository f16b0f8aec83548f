-- ===== src/Base/Bytes.antt =====
-- Byte strings: C arrays of `uint8_t` as lists of numbers, memcpy, memset, memcmp.
use mldsa_auth.Base.{
  Bool, List, [], ap, arith, drop, false, get_elem?, length, length-append, length-drop, none, refl,
  replicate, some, suc, take, take-append, true, zero, ℕ, ◌&&◌, ◌++◌, ◌<◌, ◌==◌, ◌↔◌, ◌∷◌, ◌≡◌, ◌≢◌,
  ◌≤◌,
}

-- Every element is a `uint8_t`.
abbrev pub AreBytes : List ℕ → Type 0
AreBytes [] = Unit {0}
AreBytes (b ∷ bs) = (b < 256) × AreBytes bs

-- `sodium_memcmp(a, b, n) == 0` for arrays of one length.
unfoldable pub bytes_eq : List ℕ → List ℕ → Bool
bytes_eq [] [] = true
bytes_eq [] (y ∷ ys) = false
bytes_eq (x ∷ xs) [] = false
bytes_eq (x ∷ xs) (y ∷ ys) = (x == y) && bytes_eq xs ys

pub eq_of_bytes_eq : (xs ys : List ℕ) → bytes_eq xs ys ≡ true → xs ≡ ys
unfolding bytes_eq
eq_of_bytes_eq [] [] h = refl
eq_of_bytes_eq [] (y ∷ ys) h = cc
eq_of_bytes_eq (x ∷ xs) [] h = cc
eq_of_bytes_eq (x ∷ xs) (y ∷ ys) h = ground (arith, eq_of_bytes_eq xs ys)

pub bytes_eq_refl : (xs : List ℕ) → bytes_eq xs xs ≡ true
unfolding bytes_eq
bytes_eq_refl [] = refl
bytes_eq_refl (x ∷ xs) = ground (arith, bytes_eq_refl xs)

pub bytes_eq_iff : (xs ys : List ℕ) → (bytes_eq xs ys ≡ true) ↔ (xs ≡ ys)
bytes_eq_iff xs ys = (eq_of_bytes_eq xs ys, λ e. rw e (bytes_eq_refl ys))

-- `a[i]`, of an array that is zero behind what the list holds.
unfoldable pub byte_at : List ℕ → ℕ → ℕ
byte_at xs i = elim (get_elem? xs i) [ none ↦ 0 | some b ↦ b ]

pub bytes_apart : (xs ys : List ℕ) → bytes_eq xs ys ≡ false → xs ≢ ys
bytes_apart xs ys h e =
    let f : bytes_eq ys ys ≡ false = rw e at h in
    let t : bytes_eq ys ys ≡ true = bytes_eq_refl ys in ground (arith, f, t)

-- `memset(a, 0, n)`.
abbrev pub zeros : ℕ → List ℕ
zeros n = replicate n 0

-- `memcpy(dst, src, n)` into the front of a larger array.
unfoldable pub blit : List ℕ → List ℕ → List ℕ
blit dst src = src ++ drop (length src) dst

pub length-blit : (dst src : List ℕ) → length src ≤ length dst → length (blit dst src) ≡ length dst
unfolding blit
length-blit dst src h =
    omega (arith, length-append src (drop (length src) dst), length-drop (length src) dst)

pub take-blit : (n : ℕ) (dst src : List ℕ) → length src ≡ n → take n (blit dst src) ≡ src
unfolding blit
take-blit n dst src h = take-append n src (drop (length src) dst) h

-- `sodium_is_zero`.
unfoldable pub all_zero : List ℕ → Bool
all_zero [] = true
all_zero (b ∷ bs) = (b == 0) && all_zero bs

pub all_zero-replicate : (n : ℕ) → all_zero (zeros n) ≡ true
unfolding all_zero replicate
all_zero-replicate zero = refl
all_zero-replicate (suc n) = ground (arith, all_zero-replicate n)

pub replicate_of_all_zero : (bs : List ℕ) → all_zero bs ≡ true → bs ≡ zeros (length bs)
unfolding all_zero replicate
replicate_of_all_zero [] h = refl
replicate_of_all_zero (b ∷ bs) h = ground (arith, replicate_of_all_zero bs)

pub AreBytes-append_right : (xs ys : List ℕ) → AreBytes (xs ++ ys) → AreBytes ys
AreBytes-append_right [] ys h = h
AreBytes-append_right (x ∷ xs) ys h = AreBytes-append_right xs ys h.1

pub AreBytes-drop : (n : ℕ) (xs : List ℕ) → AreBytes xs → AreBytes (drop n xs)
unfolding drop
AreBytes-drop zero xs h = h
AreBytes-drop (suc n) [] h = tt
AreBytes-drop (suc n) (x ∷ xs) h = AreBytes-drop n xs h.1

pub append_inj :
    (xs ys us vs : List ℕ) → length xs ≡ length ys → xs ++ us ≡ ys ++ vs → (xs ≡ ys) × (us ≡ vs)
append_inj [] [] us vs h e = (refl, e)
append_inj [] (y ∷ ys) us vs h e = absurd (omega arith)
append_inj (x ∷ xs) [] us vs h e = absurd (omega arith)
append_inj (x ∷ xs) (y ∷ ys) us vs h e = ground (arith, append_inj xs ys us vs)

pub AreBytes-append : (xs ys : List ℕ) → AreBytes xs → AreBytes ys → AreBytes (xs ++ ys)
AreBytes-append [] ys h k = k
AreBytes-append (x ∷ xs) ys h k = (h.0, AreBytes-append xs ys h.1 k)

pub AreBytes-replicate : (n b : ℕ) → b < 256 → AreBytes (replicate n b)
unfolding replicate
AreBytes-replicate zero b h = tt
AreBytes-replicate (suc n) b h = (h, AreBytes-replicate n b h)

pub AreBytes-take : (n : ℕ) (xs : List ℕ) → AreBytes xs → AreBytes (take n xs)
unfolding take
AreBytes-take zero xs h = tt
AreBytes-take (suc n) [] h = tt
AreBytes-take (suc n) (x ∷ xs) h = (h.0, AreBytes-take n xs h.1)

pub byte_at-take : (n i : ℕ) (xs : List ℕ) → i < n → byte_at (take n xs) i ≡ byte_at xs i
unfolding byte_at take
byte_at-take zero i xs h = absurd (omega arith)
byte_at-take (suc n) i [] h = refl
byte_at-take (suc n) zero (x ∷ xs) h = refl
byte_at-take (suc n) (suc i) (x ∷ xs) h = byte_at-take n i xs (omega arith)

pub byte_at-append : (i : ℕ) (xs ys : List ℕ) → i < length xs → byte_at (xs ++ ys) i ≡ byte_at xs i
unfolding byte_at
byte_at-append i [] ys h = absurd (omega arith)
byte_at-append zero (x ∷ xs) ys h = refl
byte_at-append (suc i) (x ∷ xs) ys h = byte_at-append i xs ys (omega arith)

pub take-take : (m n : ℕ) (xs : List ℕ) → m ≤ n → take m (take n xs) ≡ take m xs
unfolding take
take-take zero n xs h = refl
take-take (suc m) zero xs h = absurd (omega arith)
take-take (suc m) (suc n) [] h = refl
take-take (suc m) (suc n) (x ∷ xs) h = ap (◌∷◌ x) (take-take m n xs (omega arith))
