-- ===== src/Authmsg/Inverse.antt =====
-- What a signature field of a ROTATE was, where apps/authd/authmsg.c has read it.
use mldsa_auth.Authmsg.{AuthmsgStatus, msg_ok}
use mldsa_auth.Authmsg.Rotate.{
  RotateMsg, bad_sig_len, decode_sig_new, decode_sig_old, get_be16, put_be16,
}
use mldsa_auth.Base.{
  List, [], ap, arith, drop, false, if_elim, length, length-drop, length-take, ltb, not, refl, sym,
  take, take-append-drop, take_all, ℕ, ◌%◌, ◌*◌, ◌++◌, ◌+◌, ◌/◌, ◌==◌, ◌^◌, ◌∙◌, ◌∷◌, ◌≡◌, ◌≤◌,
}
use mldsa_auth.Base.Bytes.{AreBytes, AreBytes-drop, byte_at}

-- A number of two bytes is read from its two bytes.
put_be16-get_be16 : (p : List ℕ) → AreBytes p → 2 ≤ length p → p ≡ put_be16 (get_be16 p) ++ drop 2 p
unfolding put_be16 byte_at drop
put_be16-get_be16 [] w h = absurd (omega arith)
put_be16-get_be16 (x ∷ []) w h = absurd (omega arith)
put_be16-get_be16 (x ∷ y ∷ r) (a, (b, w)) h =
    let hi : (x * 256 + y) % 2 ^ 16 / 2 ^ 8 % 256 ≡ x = omega (arith, a, b) in
    let lo : (x * 256 + y) % 2 ^ 16 % 256 ≡ y = omega (arith, a, b) in rw (hi, lo) refl

abbrev pub rotate_of : ℕ → List ℕ → List ℕ → List ℕ → List ℕ → RotateMsg
rotate_of flags handle pk so sn = record {
  flags = flags;
  handle = handle;
  pk_new = pk;
  sig_old = so;
  sig_new = sn;
}

-- What the rest of the buffer was, where the new key's signature was read.
pub sig_new_inv :
    (flags : ℕ) (handle pk so p : List ℕ) (o len : ℕ)
    → AreBytes p
    → 2 ≤ length p
    → o + length p ≡ len
    → (decode_sig_new flags handle pk so p o len).0 ≡ msg_ok
    → (sn : List ℕ) × (decode_sig_new flags handle pk so p o len
        ≡ (msg_ok, rotate_of flags handle pk so sn))
      × (p ≡ put_be16 (length sn) ++ sn)
      × (bad_sig_len (length sn) ≡ false)
unfolding decode_sig_new
sig_new_inv flags handle pk so p o len w two size =
    let snl = get_be16 p in
    let Says : AuthmsgStatus × RotateMsg → Type 0 = λ r.
      r.0 ≡ msg_ok
      → (sn : List ℕ) × (r ≡ (msg_ok, rotate_of flags handle pk so sn))
        × (p ≡ put_be16 (length sn) ++ sn)
        × (bad_sig_len (length sn) ≡ false) in
    if_elim Says (bad_sig_len snl) (λ b h. absurd (cc))
      (λ fits.
        if_elim Says (ltb len (o + 2 + snl)) (λ b h. absurd (cc))
          (λ b.
            if_elim Says (not (o + 2 + snl == len)) (λ b h. absurd (cc))
              (λ e h.
                let rest = drop 2 p in
                let n : length rest ≡ snl = ground (arith, e, size, two, length-drop 2 p) in
                let all : take snl rest ≡ rest = take_all snl rest n in
                (take snl rest, refl, rw (all, n) (put_be16-get_be16 p w two), rw (all, n) fits))))

-- From the old key's signature on.
pub sig_old_inv :
    (flags : ℕ) (handle pk p : List ℕ) (o len : ℕ)
    → AreBytes p
    → 2 ≤ length p
    → o + length p ≡ len
    → (decode_sig_old flags handle pk p o len).0 ≡ msg_ok
    → (so : List ℕ) × (sn : List ℕ) × (decode_sig_old flags handle pk p o len
        ≡ (msg_ok, rotate_of flags handle pk so sn))
      × (p ≡ put_be16 (length so) ++ (so ++ (put_be16 (length sn) ++ sn)))
      × (bad_sig_len (length so) ≡ false)
      × (bad_sig_len (length sn) ≡ false)
unfolding decode_sig_old
sig_old_inv flags handle pk p o len w two size =
    let sol = get_be16 p in
    let Says : AuthmsgStatus × RotateMsg → Type 0 = λ r.
      r.0 ≡ msg_ok
      → (so : List ℕ) × (sn : List ℕ) × (r ≡ (msg_ok, rotate_of flags handle pk so sn))
        × (p ≡ put_be16 (length so) ++ (so ++ (put_be16 (length sn) ++ sn)))
        × (bad_sig_len (length so) ≡ false)
        × (bad_sig_len (length sn) ≡ false) in
    if_elim Says (bad_sig_len sol) (λ b h. absurd (cc))
      (λ fits.
        if_elim Says (ltb len (o + 2 + sol + 2)) (λ b h. absurd (cc))
          (λ b h.
            let rest = drop 2 p in
            let so = take sol rest in
            let q = drop sol rest in
            let left = length-drop 2 p in
            let n : length so ≡ sol = ground (arith, b, size, left, length-take sol rest) in
            let m : length q + sol + 2 ≡ length p =
              ground (arith, b, size, left, length-drop sol rest) in
            let (sn, e, shape, fits') =
              sig_new_inv flags handle pk so q (o + 2 + sol) len
                (AreBytes-drop sol rest (AreBytes-drop 2 p w)) (ground (arith, b, m, size))
                (omega (arith, m, size)) h in
            let back : so ++ (put_be16 (length sn) ++ sn) ≡ rest =
              ap (◌++◌ so) (sym shape) ∙ take-append-drop sol rest in
            (so, sn, e, rw (back, n) (put_be16-get_be16 p w two), rw n fits, fits')))
