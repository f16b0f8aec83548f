-- ===== src/Wire/Fields.antt =====
-- One field of a message: the read undoes the write, and a successful read says what stood there.
use mldsa_auth.Base.{
  List, [], ap, arith, drop, drop-append, length, length-append, length-take, refl, some,
  take-append, take-append-drop, ℕ, ◌++◌, ◌<◌, ◌^◌, ◌∷◌, ◌≡◌,
}
use mldsa_auth.Base.Bytes.{AreBytes}
use mldsa_auth.Wire.{next_field, next_u16, next_u8}
use mldsa_auth.WireInt.{wire_int_write_u16}

pub next_u8-cons : (v : ℕ) (r : List ℕ) → next_u8 (v ∷ r) ≡ some (v, r)
unfolding next_u8 drop
next_u8-cons v r = refl

pub next_u16-write_u16 :
    (v : ℕ) (r : List ℕ) → v < 2 ^ 16 → next_u16 (wire_int_write_u16 v ++ r) ≡ some (v, r)
unfolding next_u16 wire_int_write_u16 drop
next_u16-write_u16 v r h = ap (λ n. some (n, r)) (omega arith)

pub next_field-append :
    (n : ℕ) (xs r : List ℕ) → length xs ≡ n → next_field n (xs ++ r) ≡ some (xs, r)
unfolding next_field
next_field-append n xs r h =
    ground (arith, take-append n xs r h, drop-append n xs r h, length-append xs r)

pub next_u8_inv : (buf : List ℕ) (v : ℕ) (r : List ℕ) → next_u8 buf ≡ some (v, r) → buf ≡ v ∷ r
unfolding next_u8 drop
next_u8_inv [] v r e = cc
next_u8_inv (b ∷ rest) v r e = ground arith

pub next_u16_inv :
    (buf : List ℕ) (v : ℕ) (r : List ℕ)
    → AreBytes buf
    → next_u16 buf ≡ some (v, r)
    → buf ≡ wire_int_write_u16 v ++ r
unfolding next_u16 wire_int_write_u16 drop
next_u16_inv [] v r w e = cc
next_u16_inv (b ∷ []) v r w e = cc
next_u16_inv (hi ∷ lo ∷ rest) v r (h, (l, w)) e = ground arith

pub next_field_inv :
    (n : ℕ) (buf xs r : List ℕ)
    → next_field n buf ≡ some (xs, r)
    → (buf ≡ xs ++ r) × (length xs ≡ n)
unfolding next_field
next_field_inv n buf xs r e = ground (arith, take-append-drop n buf, length-take n buf)
