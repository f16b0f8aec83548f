-- ===== src/Authmsg/Tests.antt =====
-- Messages of apps/authd/authmsg.c on concrete bytes, and a hash that shows that the laws can hold.
use mldsa_auth.Authmsg.{msg_ok}
use mldsa_auth.Authmsg.Canonical.{encode-decode_rotate}
use mldsa_auth.Authmsg.Digest.{
  Collision, authmsg_label_rotate_old, by_old, rotate_digest_binds, rotate_digest_total,
  rotate_label,
}
use mldsa_auth.Authmsg.Rotate.{
  RotateMsg, authmsg_decode_rotate, authmsg_encode_rotate, authmsg_rotate_digest, decode_sig_new,
  decode_sig_old,
}
use mldsa_auth.Authmsg.RotateTrip.{decode-encode_rotate}
use mldsa_auth.Base.{
  List, [], ap, arith, drop, length, length-append, length-replicate, refl, replicate, some, take,
  ℕ, ◌%◌, ◌++◌, ◌∷◌, ◌≡◌, ◌⊎◌,
}
use mldsa_auth.Base.Bytes.{AreBytes, AreBytes-append, AreBytes-replicate, byte_at, zeros}
use mldsa_auth.Transcript.{IsSha256, Sha256}

abbrev kept_bytes : List ℕ → List ℕ
kept_bytes bs = length bs ∷ replicate 31 0

abbrev keeping_sha : Sha256
keeping_sha = record {
  State = List ℕ;
  init = some [];
  update = λ s xs. some (s ++ xs);
  final = λ s. some (kept_bytes s);
}

keeping-IsSha256 : IsSha256 keeping_sha kept_bytes
keeping-IsSha256 = record {
  Absorbed = λ s bs. s ≡ bs;
  init_ok = ([], refl, refl);
  update_ok = λ s bs xs h. (s ++ xs, refl, ap (λ t. t ++ xs) h);
  final_ok = λ s bs h. ap (λ t. some (kept_bytes t)) h;
  digest_size = λ bs. omega (arith, length-replicate {A = ℕ} 31 0);
}

rotate_digest_total_example :
    authmsg_rotate_digest keeping_sha authmsg_label_rotate_old
      (7 ∷ [])
      1
      (97 ∷ 98 ∷ [])
      (1 ∷ [])
      (2 ∷ [])
    ≡ (
      msg_ok,
      some (
          kept_bytes (
            authmsg_label_rotate_old ++ ((0x00 ∷ []) ++ (7 ∷ 1 ∷ 2 % 256 ∷ 97 ∷ 98 ∷ 1 ∷ 2 ∷ [])))),
    )
rotate_digest_total_example =
    rotate_digest_total keeping_sha kept_bytes authmsg_label_rotate_old (7 ∷ []) (97 ∷ 98 ∷ [])
      (1 ∷ []) (2 ∷ []) 1 keeping-IsSha256 (omega arith) (omega arith)

abbrev old_key : List ℕ
old_key = replicate 1952 3

abbrev kept_digest : List ℕ
kept_digest = kept_bytes (
    authmsg_label_rotate_old
    ++ ((0x00 ∷ [])
        ++ (zeros 16 ++ ((1 ∷ []) ++ ((1 % 256 ∷ []) ++ ((97 ∷ []) ++ (old_key ++ (2 ∷ []))))))))

makes_digest :
    authmsg_rotate_digest keeping_sha (rotate_label by_old) (zeros 16) 1 (97 ∷ []) old_key (2 ∷ [])
    ≡ (msg_ok, some kept_digest)
makes_digest =
    rotate_digest_total keeping_sha kept_bytes authmsg_label_rotate_old (zeros 16) (97 ∷ []) old_key
      (2 ∷ []) 1 keeping-IsSha256 (omega arith) (omega arith)

rotate_digest_binds_example :
    ((by_old ≡ by_old)
      × (zeros 16 ≡ zeros 16)
      × ◌≡◌ {A = ℕ} 1 1
      × ◌≡◌ {A = List ℕ} (97 ∷ []) (97 ∷ [])
      × (old_key ≡ old_key)
      × ◌≡◌ {A = List ℕ} (2 ∷ []) (2 ∷ []))
    ⊎ Collision kept_bytes
rotate_digest_binds_example =
    rotate_digest_binds keeping_sha kept_bytes by_old by_old (zeros 16) (zeros 16) (97 ∷ [])
      (97 ∷ []) old_key old_key (2 ∷ []) (2 ∷ []) kept_digest 1 1 keeping-IsSha256
      (length-replicate {A = ℕ} 16 0) (length-replicate {A = ℕ} 16 0)
      (length-replicate {A = ℕ} 1952 3) (length-replicate {A = ℕ} 1952 3) makes_digest makes_digest

abbrev small_rotate : RotateMsg
small_rotate = record {
  flags = 1;
  handle = 97 ∷ [];
  pk_new = replicate 1952 5;
  sig_old = 6 ∷ 7 ∷ [];
  sig_new = 8 ∷ [];
}

decode-encode_rotate_example :
    authmsg_decode_rotate (authmsg_encode_rotate 2000 small_rotate).1 ≡ (msg_ok, small_rotate)
decode-encode_rotate_example =
    decode-encode_rotate small_rotate 2000 (omega arith) (omega arith) (omega arith)
      (length-replicate {A = ℕ} 1952 5) (omega arith) (omega arith) (omega arith) (omega arith)
      (omega arith)

abbrev rotate_bytes : List ℕ
rotate_bytes = 17 ∷ 1 ∷ 1 ∷ 1 ∷ 97 ∷ replicate 1952 5 ++ 0 ∷ 2 ∷ 6 ∷ 7 ∷ 0 ∷ 1 ∷ 8 ∷ []

rest_bytes : AreBytes (0 ∷ 2 ∷ 6 ∷ 7 ∷ 0 ∷ 1 ∷ 8 ∷ [])
rest_bytes = (
  omega arith,
  (omega arith, (omega arith, (omega arith, (omega arith, (omega arith, (omega arith, tt)))))),
)

rotate_bytes-AreBytes : AreBytes rotate_bytes
rotate_bytes-AreBytes = (
  omega arith,
  (
    omega arith,
    (
      omega arith,
      (
        omega arith,
        (
          omega arith,
          AreBytes-append (replicate 1952 5) _ (AreBytes-replicate 1952 5 (omega arith)) rest_bytes,
        ),
      ),
    ),
  ),
)

reads : (authmsg_decode_rotate rotate_bytes).0 ≡ msg_ok
unfolding authmsg_decode_rotate decode_sig_old decode_sig_new byte_at take drop replicate
reads = refl

encode-decode_rotate_example :
    authmsg_encode_rotate 2000 (authmsg_decode_rotate rotate_bytes).1 ≡ (msg_ok, rotate_bytes)
encode-decode_rotate_example = encode-decode_rotate rotate_bytes 2000 rotate_bytes-AreBytes reads (
    omega (
      arith,
      length-append {A = ℕ} (replicate 1952 5) (0 ∷ 2 ∷ 6 ∷ 7 ∷ 0 ∷ 1 ∷ 8 ∷ []),
      length-replicate {A = ℕ} 1952 5,
    ))
