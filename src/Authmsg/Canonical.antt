-- ===== src/Authmsg/Canonical.antt =====
-- A ROTATE that apps/authd/authmsg.c reads has one encoding only.
use mldsa_auth.Authmsg.{AuthmsgStatus, authmsg_op_rotate, authmsg_version, msg_ok, reserved_bits}
use mldsa_auth.Authmsg.Inverse.{rotate_of, sig_old_inv}
use mldsa_auth.Authmsg.Rotate.{
  RotateMsg, authmsg_decode_rotate, authmsg_encode_rotate, bad_handle_len, bad_sig_len,
  decode_sig_old, put_be16,
}
use mldsa_auth.Authmsg.RotateTrip.{length-put_be16}
use mldsa_auth.Base.{
  List, [], ap, arith, drop, false, if_elim, length, length-append, length-drop, length-take, ltb,
  not, refl, suc, take, take-append-drop, ℕ, ◌%◌, ◌++◌, ◌+◌, ◌==◌, ◌∙◌, ◌∷◌, ◌≡◌, ◌≤◌,
}
use mldsa_auth.Base.Bytes.{AreBytes, AreBytes-drop, byte_at}

head_bytes :
    (input : List ℕ)
    → 4 ≤ length input
    → input ≡ byte_at input 0 ∷ byte_at input 1 ∷ byte_at input 2 ∷ byte_at input 3 ∷ drop 4 input
unfolding byte_at drop
head_bytes [] h = absurd (omega arith)
head_bytes (a ∷ []) h = absurd (omega arith)
head_bytes (a ∷ b ∷ []) h = absurd (omega arith)
head_bytes (a ∷ b ∷ c ∷ []) h = absurd (omega arith)
head_bytes (a ∷ b ∷ c ∷ d ∷ rest) h = refl

-- The encoder on a message that it does not refuse.
written_rotate :
    (m : RotateMsg) (cap : ℕ)
    → reserved_bits m.flags ≡ 0
    → bad_handle_len (length m.handle) ≡ false
    → bad_sig_len (length m.sig_old) ≡ false
    → bad_sig_len (length m.sig_new) ≡ false
    → 4 + length m.handle + 1952 + 2 + length m.sig_old + 2 + length m.sig_new ≤ cap
    → authmsg_encode_rotate cap m ≡ (
      msg_ok,
      (17 ∷ 1 ∷ m.flags ∷ length m.handle % 256 ∷ [])
          ++ (m.handle
              ++ (m.pk_new
                  ++ (put_be16 (length m.sig_old)
                      ++ (m.sig_old ++ (put_be16 (length m.sig_new) ++ m.sig_new))))),
    )
unfolding authmsg_encode_rotate
written_rotate m cap f h o n room =
    let room' : ltb cap (4 + length m.handle + 1952 + 2 + length m.sig_old + 2 + length m.sig_new)
        ≡ false =
      ground (arith, room) in
    rw (h, o, n, f, room') refl

-- The pieces that were read, put together.
assemble :
    (input rest p q handle pk so sn : List ℕ) (flags hl cap : ℕ) (r : AuthmsgStatus × RotateMsg)
    → input ≡ 17 ∷ 1 ∷ flags ∷ hl ∷ rest
    → handle ++ p ≡ rest
    → pk ++ q ≡ p
    → q ≡ put_be16 (length so) ++ (so ++ (put_be16 (length sn) ++ sn))
    → length handle ≡ hl
    → length pk ≡ 1952
    → reserved_bits flags ≡ 0
    → bad_handle_len hl ≡ false
    → bad_sig_len (length so) ≡ false
    → bad_sig_len (length sn) ≡ false
    → length input ≤ cap
    → r ≡ (msg_ok, rotate_of flags handle pk so sn)
    → authmsg_encode_rotate cap r.1 ≡ (msg_ok, input)
assemble input rest p q handle pk so sn flags hl cap r whole b₁ b₂ b₃ lh lk low fits f₁ f₂ room e =
    let tail = put_be16 (length sn) ++ sn in
    let body : rest ≡ handle ++ (pk ++ (put_be16 (length so) ++ (so ++ tail))) =
      rw (← b₁, ← b₂, b₃) refl in
    let size : length rest ≡ length handle + (1952 + (2 + (length so + (2 + length sn)))) =
      rw body (
        omega (
          arith,
          length-append handle (pk ++ (put_be16 (length so) ++ (so ++ tail))),
          length-append pk (put_be16 (length so) ++ (so ++ tail)),
          lk,
          length-append (put_be16 (length so)) (so ++ tail),
          length-append so tail,
          length-append (put_be16 (length sn)) sn,
          length-put_be16 (length so),
          length-put_be16 (length sn),
        )) in
    let four : length input ≡ suc (suc (suc (suc (length rest)))) = ap length whole in
    let byte : length handle % 256 ≡ hl = ground (arith, lh, fits) in
    let fits' : bad_handle_len (length handle) ≡ false = ap bad_handle_len lh ∙ fits in
    let written =
      written_rotate (rotate_of flags handle pk so sn) cap low fits' f₁ f₂
        (omega (arith, size, four, room)) in
    rw (e, written, whole, body, byte) refl

-- With every test of the decoder passed, up to the old key's signature.
accepted_rotate :
    (input : List ℕ) (cap : ℕ)
    → AreBytes input
    → length input ≤ cap
    → byte_at input 0 ≡ 17
    → byte_at input 1 ≡ 1
    → reserved_bits (byte_at input 2) ≡ 0
    → bad_handle_len (byte_at input 3) ≡ false
    → 4 + byte_at input 3 + 1952 + 2 ≤ length input
    → let hl = byte_at input 3 in
      let p = drop hl (drop 4 input) in
      let r =
        decode_sig_old
          (byte_at input 2)
          (take hl (drop 4 input))
          (take 1952 p)
          (drop 1952 p)
          (4 + hl + 1952)
          (length input) in
      r.0 ≡ msg_ok → authmsg_encode_rotate cap r.1 ≡ (msg_ok, input)
accepted_rotate input cap w room op ver low fits long ok' =
    let flags = byte_at input 2 in
    let hl = byte_at input 3 in
    let rest = drop 4 input in
    let handle = take hl rest in
    let p = drop hl rest in
    let pk = take 1952 p in
    let q = drop 1952 p in
    let lr : length rest + 4 ≡ length input = omega (arith, length-drop 4 input, long) in
    let lh : length handle ≡ hl = omega (arith, length-take hl rest, lr, long) in
    let lp : length p + hl ≡ length rest = omega (arith, length-drop hl rest, lr, long) in
    let lq : length q + 1952 ≡ length p = omega (arith, length-drop 1952 p, lp, lr, long) in
    let wq = AreBytes-drop 1952 p (AreBytes-drop hl rest (AreBytes-drop 4 input w)) in
    let (so, sn, e, shape, f₁, f₂) =
      sig_old_inv flags handle pk q (4 + hl + 1952) (length input) wq
        (omega (arith, lq, lp, lr, long)) (omega (arith, lq, lp, lr, long)) ok' in
    let tail = put_be16 (length sn) ++ sn in
    assemble input rest p q handle pk so sn flags hl cap _
      (head_bytes input (omega (arith, long)) ∙ rw (op, ver) refl) (take-append-drop hl rest)
      (take-append-drop 1952 p) shape lh (omega (arith, length-take 1952 p, lp, lr, long)) low fits
      f₁ f₂ room e

-- A buffer of bytes that decode_rotate accepts is, whole, what encode_rotate writes of the message
-- that was read, into any room that is large enough.
pub encode-decode_rotate :
    (input : List ℕ) (cap : ℕ)
    → AreBytes input
    → (authmsg_decode_rotate input).0 ≡ msg_ok
    → length input ≤ cap
    → authmsg_encode_rotate cap (authmsg_decode_rotate input).1 ≡ (msg_ok, input)
unfolding authmsg_decode_rotate
encode-decode_rotate input cap w h room =
    let flags = byte_at input 2 in
    let hl = byte_at input 3 in
    let rest = drop 4 input in
    let p = drop hl rest in
    let q = drop 1952 p in
    let Says : AuthmsgStatus × RotateMsg → Type 0 =
      λ r. r.0 ≡ msg_ok → authmsg_encode_rotate cap r.1 ≡ (msg_ok, input) in
    let walk : Says (authmsg_decode_rotate input) =
      if_elim Says (length input == 0) (λ b h. absurd (cc))
        (λ b₀.
          if_elim Says (not (byte_at input 0 == authmsg_op_rotate)) (λ b h. absurd (cc))
            (λ b₁.
              if_elim Says (ltb (length input) 4) (λ b h. absurd (cc))
                (λ b₂.
                  if_elim Says (not (byte_at input 1 == authmsg_version)) (λ b h. absurd (cc))
                    (λ b₃.
                      if_elim Says (not (reserved_bits flags == 0)) (λ b h. absurd (cc))
                        (λ b₄.
                          if_elim Says (bad_handle_len hl) (λ b h. absurd (cc))
                            (λ b₅.
                              if_elim Says (ltb (length input) (4 + hl + 1952 + 2))
                                (λ b h. absurd (cc))
                                (λ b₆ h.
                                  accepted_rotate input cap w room (ground (arith, b₁))
                                    (ground (arith, b₃)) (ground (arith, b₄)) b₅
                                    (ground (arith, b₆)) h))))))) in
    walk h
