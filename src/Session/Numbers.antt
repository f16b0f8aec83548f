-- ===== src/Session/Numbers.antt =====
-- The big-endian numbers of src/protocol/session.c are read back as they were written.
use mldsa_auth.Base.{List, arith, length, refl, take-append, ℕ, ◌++◌, ◌<◌, ◌^◌, ◌≡◌}
use mldsa_auth.Session.{load_be16, load_be64, load_be64_loop, store_be16, store_be64}

pub length-store_be64 : (v : ℕ) → length (store_be64 v) ≡ 8
unfolding store_be64
length-store_be64 v = refl

load_loop_lem : (v : ℕ) → v < 2 ^ 64 → load_be64_loop (store_be64 v) 0 ≡ v
unfolding store_be64 load_be64_loop
load_loop_lem v h = omega arith

pub load_be64-store_be64 :
    (v : ℕ) (rest : List ℕ) → v < 2 ^ 64 → load_be64 (store_be64 v ++ rest) ≡ v
unfolding load_be64
load_be64-store_be64 v rest h =
    rw (take-append 8 (store_be64 v) rest (length-store_be64 v)) (load_loop_lem v h)

pub load_be16-store_be16 :
    (v : ℕ) (rest : List ℕ) → v < 2 ^ 16 → load_be16 (store_be16 v ++ rest) ≡ v
unfolding load_be16 store_be16
load_be16-store_be16 v rest h = omega arith

pub length-store_be16 : (v : ℕ) → length (store_be16 v) ≡ 2
unfolding store_be16
length-store_be16 v = refl
