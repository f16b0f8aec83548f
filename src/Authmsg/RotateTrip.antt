-- ===== src/Authmsg/RotateTrip.antt =====
-- A ROTATE of apps/authd/authmsg.c is read back as it was written.
use mldsa_auth.Authmsg.{msg_ok}
use mldsa_auth.Authmsg.Rotate.{
  RotateMsg, authmsg_decode_rotate, authmsg_encode_rotate, bad_sig_len, decode_sig_new,
  decode_sig_old, get_be16, put_be16,
}
use mldsa_auth.Authmsg.RoundTrip.{handle_fits, low_flag}
use mldsa_auth.Base.{
  List, arith, drop, drop-append, false, length, length-append, ltb, refl, take-append, take_all,
  true, ℕ, ◌%◌, ◌++◌, ◌+◌, ◌<◌, ◌==◌, ◌^◌, ◌∙◌, ◌∷◌, ◌≡◌, ◌≤◌,
}
use mldsa_auth.Base.Bytes.{byte_at}

get_be16-put_be16 : (n : ℕ) (r : List ℕ) → n < 2 ^ 16 → get_be16 (put_be16 n ++ r) ≡ n
unfolding put_be16 byte_at
get_be16-put_be16 n r h = omega arith

drop-put_be16 : (n : ℕ) (r : List ℕ) → drop 2 (put_be16 n ++ r) ≡ r
unfolding put_be16 drop
drop-put_be16 n r = refl

pub length-put_be16 : (n : ℕ) → length (put_be16 n) ≡ 2
unfolding put_be16
length-put_be16 n = refl

sig_fits : (n : ℕ) → 1 ≤ n → n ≤ 3309 → bad_sig_len n ≡ false
sig_fits n h k = ground arith

read_sig_new :
    (flags : ℕ) (handle pk so sn : List ℕ) (o len : ℕ)
    → 1 ≤ length sn
    → length sn ≤ 3309
    → o + 2 + length sn ≡ len
    → decode_sig_new flags handle pk so (put_be16 (length sn) ++ sn) o len
      ≡ (msg_ok, record { flags = flags; handle = handle; pk_new = pk; sig_old = so; sig_new = sn })
unfolding decode_sig_new
read_sig_new flags handle pk so sn o len h k e =
    let n = get_be16-put_be16 (length sn) sn (omega arith) in
    let short : ltb len (o + 2 + length sn) ≡ false = ground arith in
    let whole : (o + 2 + length sn == len) ≡ true = ground arith in
    rw
      (
        n,
        sig_fits (length sn) h k,
        short,
        whole,
        drop-put_be16 (length sn) sn,
        take_all (length sn) sn refl,
      )
      refl

read_sig_old :
    (flags : ℕ) (handle pk so rest : List ℕ) (o len : ℕ)
    → 1 ≤ length so
    → length so ≤ 3309
    → o + 2 + length so + 2 ≤ len
    → decode_sig_old flags handle pk (put_be16 (length so) ++ (so ++ rest)) o len
      ≡ decode_sig_new flags handle pk so rest (o + 2 + length so) len
unfolding decode_sig_old
read_sig_old flags handle pk so rest o len h k e =
    let n = get_be16-put_be16 (length so) (so ++ rest) (omega arith) in
    let short : ltb len (o + 2 + length so + 2) ≡ false = ground arith in
    rw
      (
        n,
        sig_fits (length so) h k,
        short,
        drop-put_be16 (length so) (so ++ rest),
        take-append (length so) so rest refl,
        drop-append (length so) so rest refl,
      )
      refl

-- authmsg_decode_rotate undoes authmsg_encode_rotate for flags without reserved bits, a handle of 1 to
-- 64 bytes, a key of 1952 bytes, two signatures of 1 to 3309 bytes, and room for the message.
pub decode-encode_rotate :
    (m : RotateMsg) (cap : ℕ)
    → m.flags ≤ 1
    → 1 ≤ length m.handle
    → length m.handle ≤ 64
    → length m.pk_new ≡ 1952
    → 1 ≤ length m.sig_old
    → length m.sig_old ≤ 3309
    → 1 ≤ length m.sig_new
    → length m.sig_new ≤ 3309
    → 1960 + length m.handle + length m.sig_old + length m.sig_new ≤ cap
    → authmsg_decode_rotate (authmsg_encode_rotate cap m).1 ≡ (msg_ok, m)
unfolding authmsg_encode_rotate
decode-encode_rotate m cap f h h' pk o o' n n' room =
    let lh = length m.handle in
    let lo = length m.sig_old in
    let ln = length m.sig_new in
    let sig_part = put_be16 ln ++ m.sig_new in
    let old_part = put_be16 lo ++ (m.sig_old ++ sig_part) in
    let body = m.handle ++ (m.pk_new ++ old_part) in
    let len = 1960 + lh + lo + ln in
    let size : length body + 4 ≡ len = omega (
      arith,
      length-append m.handle (m.pk_new ++ old_part),
      length-append m.pk_new old_part,
      length-append (put_be16 lo) (m.sig_old ++ sig_part),
      length-append m.sig_old sig_part,
      length-append (put_be16 ln) m.sig_new,
      length-put_be16 lo,
      length-put_be16 ln,
      pk,
    ) in
    let wide : 4 + lh + 1952 + 2 + lo + 2 + ln ≡ len = omega arith in
    let room' : ltb cap len ≡ false = ground (arith, room) in
    let byte : lh % 256 ≡ lh = omega (arith, h') in
    let hl = handle_fits lh h h' in
    let four : length (17 ∷ 1 ∷ m.flags ∷ lh % 256 ∷ body) ≡ len = omega (arith, size) in
    let nonempty : (len == 0) ≡ false = ground arith in
    let has_four : ltb len 4 ≡ false = ground arith in
    let has_key : ltb len (4 + lh + 1952 + 2) ≡ false = ground (arith, o) in
    let handled = take-append lh m.handle (m.pk_new ++ old_part) refl in
    let behind = drop-append lh m.handle (m.pk_new ++ old_part) refl in
    let key = take-append 1952 m.pk_new old_part pk in
    let tail = drop-append 1952 m.pk_new old_part pk in
    let old =
      read_sig_old m.flags m.handle m.pk_new m.sig_old sig_part (4 + lh + 1952) len o o'
        (omega (arith, n)) in
    let last =
      read_sig_new m.flags m.handle m.pk_new m.sig_old m.sig_new (4 + lh + 1952 + 2 + lo) len n n'
        (omega arith) in
    let read : authmsg_decode_rotate (17 ∷ 1 ∷ m.flags ∷ lh % 256 ∷ body) ≡ (msg_ok, m) =
      (unfold authmsg_decode_rotate byte_at drop in
        rw
          (
            four,
            byte,
            nonempty,
            has_four,
            low_flag m.flags f,
            hl,
            has_key,
            handled,
            behind,
            key,
            tail,
          )
          (old ∙ last)) in
    rw (hl, sig_fits lo o o', sig_fits ln n n', low_flag m.flags f, wide, room') read
