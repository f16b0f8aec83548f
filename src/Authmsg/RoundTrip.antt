-- ===== src/Authmsg/RoundTrip.antt =====
-- The messages of fixed form of apps/authd/authmsg.c are read back as they were written.
use mldsa_auth.Authmsg.{
  LoginCode, authmsg_decode_login_code, authmsg_encode_login_code, get_be64, get_be64_loop, msg_ok,
  put_be64, put_be64_loop, reserved_bits,
}
use mldsa_auth.Authmsg.Rotate.{
  RotateAck, authmsg_decode_rotate_ack, authmsg_encode_rotate_ack, bad_handle_len,
}
use mldsa_auth.Base.{
  arith, drop, drop-append, false, length, length-append, ltb, refl, take, take-append, true, ℕ,
  ◌%◌, ◌++◌, ◌+◌, ◌<◌, ◌==◌, ◌^◌, ◌∷◌, ◌≡◌, ◌≤◌,
}
use mldsa_auth.Base.Bytes.{byte_at}

length-put_be64 : (v : ℕ) → length (put_be64 v) ≡ 8
unfolding put_be64 put_be64_loop
length-put_be64 v = refl

get_be64-put_be64 : (v : ℕ) → v < 2 ^ 64 → get_be64 (put_be64 v) ≡ v
unfolding put_be64 put_be64_loop get_be64 get_be64_loop take
get_be64-put_be64 v h = omega arith

pub low_flag : (flags : ℕ) → flags ≤ 1 → reserved_bits flags ≡ 0
low_flag flags h = omega arith

-- decode_login_code undoes encode_login_code.
pub decode-encode_login_code :
    (m : LoginCode) (cap : ℕ)
    → 43 ≤ cap
    → m.flags ≤ 1
    → length m.code ≡ 32
    → m.code_expires < 2 ^ 64
    → authmsg_decode_login_code (authmsg_encode_login_code cap m).1 ≡ (msg_ok, m)
unfolding authmsg_encode_login_code
decode-encode_login_code m cap room f c t =
    let body = m.code ++ put_be64 m.code_expires in
    let size : length body ≡ 40 =
      omega (
        arith,
        length-append m.code (put_be64 m.code_expires),
        length-put_be64 m.code_expires,
        c,
      ) in
    let room' : ltb cap 43 ≡ false = ground arith in
    let read : authmsg_decode_login_code (16 ∷ 1 ∷ m.flags ∷ body) ≡ (msg_ok, m) =
      (unfold authmsg_decode_login_code byte_at drop in
        rw
          (
            size,
            low_flag m.flags f,
            take-append 32 m.code (put_be64 m.code_expires) c,
            drop-append 32 m.code (put_be64 m.code_expires) c,
            get_be64-put_be64 m.code_expires t,
          )
          refl) in
    rw (room', low_flag m.flags f) read

pub handle_fits : (n : ℕ) → 1 ≤ n → n ≤ 64 → bad_handle_len n ≡ false
handle_fits n h k = ground arith

-- decode_rotate_ack undoes encode_rotate_ack.
pub decode-encode_rotate_ack :
    (m : RotateAck) (cap : ℕ)
    → 1 ≤ length m.handle
    → length m.handle ≤ 64
    → length m.fp_new ≡ 32
    → m.rotated_at < 2 ^ 64
    → 43 + length m.handle ≤ cap
    → authmsg_decode_rotate_ack (authmsg_encode_rotate_ack cap m).1 ≡ (msg_ok, m)
unfolding authmsg_encode_rotate_ack
decode-encode_rotate_ack m cap h h' fp t room =
    let lh = length m.handle in
    let tail = m.fp_new ++ put_be64 m.rotated_at in
    let body = m.handle ++ tail in
    let size : length (18 ∷ 1 ∷ lh % 256 ∷ body) ≡ 43 + lh = omega (
      arith,
      length-append m.handle tail,
      length-append m.fp_new (put_be64 m.rotated_at),
      length-put_be64 m.rotated_at,
      fp,
    ) in
    let room' : ltb cap (43 + lh) ≡ false = ground (arith, room) in
    let byte : lh % 256 ≡ lh = omega (arith, h') in
    let hl = handle_fits lh h h' in
    let nonempty : (43 + lh == 0) ≡ false = ground arith in
    let has_three : ltb (43 + lh) 3 ≡ false = ground arith in
    let exact : (43 + lh == 43 + lh) ≡ true = ground arith in
    let read : authmsg_decode_rotate_ack (18 ∷ 1 ∷ lh % 256 ∷ body) ≡ (msg_ok, m) =
      (unfold authmsg_decode_rotate_ack byte_at drop in
        rw
          (
            size,
            byte,
            nonempty,
            has_three,
            hl,
            exact,
            take-append lh m.handle tail refl,
            drop-append lh m.handle tail refl,
            take-append 32 m.fp_new (put_be64 m.rotated_at) fp,
            drop-append 32 m.fp_new (put_be64 m.rotated_at) fp,
            get_be64-put_be64 m.rotated_at t,
          )
          refl) in
    rw (hl, room') read
