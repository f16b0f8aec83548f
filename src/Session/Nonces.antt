-- ===== src/Session/Nonces.antt =====
-- The nonces under which one session of src/protocol/session.c encrypts, over a run of calls.
use mldsa_auth.Base.{
  List, [], ap, arith, drop, drop-append, false, inl, inr, length, length-replicate, map, refl,
  replicate, some, sym, true, ℕ, ◌++◌, ◌+◌, ◌<◌, ◌^◌, ◌∙◌, ◌∷◌, ◌≡◌, ◌≢◌,
}
use mldsa_auth.Crypto.Aead.{Aead, aead_encrypt}
use mldsa_auth.Session.{
  Session, build_nonce, is_active, limits_valid, load_be64, ok, send_key, session_header_bytes,
  session_record_type, store_be64,
}
use mldsa_auth.Session.Numbers.{length-store_be64, load_be64-store_be64}
use mldsa_auth.Session.Padding.{limits_bound}
use mldsa_auth.Session.Records.{session_seal}
use mldsa_auth.Session.Seal.{reserved, seal_checks, seal_finish_ok, sealed_text}
use mldsa_auth.Session.Sequence.{
  Ascend, Call, Consecutive, accepted, dead_forever, not_active, open_call, perform, perform-Left,
  perform_dead, quiet, run_numbers, seal_call, seal_ok, sent, sent_by,
}
use mldsa_auth.Session.Terminal.{Left, ended, is_ok, refused, went_on}

-- The call has handed out a record whose ciphertext is the AEAD's, under this key and nonce.
pub record Sealing (a : Aead) (key nonce : List ℕ) (s : Session) (c : Call) : Type 0 where
  pub header : List ℕ
  pub ad : List ℕ
  pub inner : List ℕ
  pub ciphertext : List ℕ
  pub size : length header ≡ session_header_bytes
  pub handed_out : (perform a s c).out ≡ header ++ ciphertext
  pub encrypted : a.encrypt key nonce ad inner ≡ some ciphertext

-- Each record that a run hands out is encrypted under the key, and these are the nonces, in order.
pub data SealedUnder (a : Aead) (key : List ℕ) : Session → List Call → List (List ℕ) → Type 0 where
  no_call : {s : Session} → SealedUnder a key s [] []
  no_record :
      {s : Session} {c : Call} {cs : List Call} {nonces : List (List ℕ)}
      → sent_by c (perform a s c) ≡ []
      → SealedUnder a key (perform a s c).session cs nonces
      → SealedUnder a key s (c ∷ cs) nonces
  a_record :
      {s : Session} {c : Call} {cs : List Call} {nonce : List ℕ} {nonces : List (List ℕ)}
      → Sealing a key nonce s c
      → SealedUnder a key (perform a s c).session cs nonces
      → SealedUnder a key s (c ∷ cs) (nonce ∷ nonces)

pub NotAmong : List ℕ → List (List ℕ) → Type 0
NotAmong x [] = Unit
NotAmong x (y ∷ ys) = (x ≢ y) × NotAmong x ys

-- No two of them are equal.
pub AllApart : List (List ℕ) → Type 0
unfolding NotAmong
AllApart [] = Unit
AllApart (x ∷ xs) = NotAmong x xs × AllApart xs

AllBelow : ℕ → List ℕ → Type 0
AllBelow bound [] = Unit
AllBelow bound (x ∷ xs) = (x < bound) × AllBelow bound xs

nonce_number : (n : ℕ) → n < 2 ^ 64 → load_be64 (drop 4 (build_nonce n) ++ []) ≡ n
unfolding build_nonce
nonce_number n h =
    rw (drop-append 4 (replicate 4 0) (store_be64 n) (length-replicate {A = ℕ} 4 0))
      (load_be64-store_be64 n [] h)

build_nonce_inj : (m n : ℕ) → m < 2 ^ 64 → n < 2 ^ 64 → build_nonce m ≡ build_nonce n → m ≡ n
build_nonce_inj m n hm hn e =
    sym (nonce_number m hm) ∙ ap (λ b. load_be64 (drop 4 b ++ [])) e ∙ nonce_number n hn

map-NotAmong :
    (m low : ℕ) (xs : List ℕ)
    → m < low
    → m < 2 ^ 64
    → Ascend low xs
    → AllBelow (2 ^ 64) xs
    → NotAmong (build_nonce m) (map build_nonce xs)
unfolding Ascend AllBelow NotAmong
map-NotAmong m low [] lt small up below = tt
map-NotAmong m low (x ∷ xs) lt small (lo, up) (b, below) = (
  λ e. omega (arith, lt, lo, build_nonce_inj m x small b e),
  map-NotAmong m (x + 1) xs (omega arith) small up below,
)

map-AllApart :
    (low : ℕ) (xs : List ℕ) → Ascend low xs → AllBelow (2 ^ 64) xs → AllApart (map build_nonce xs)
unfolding Ascend AllBelow AllApart
map-AllApart low [] up below = tt
map-AllApart low (x ∷ xs) (lo, up) (b, below) =
    (map-NotAmong x (x + 1) xs (omega arith) b up below, map-AllApart (x + 1) xs up below)

seal-Sealing :
    (a : Aead) (s : Session) (now : ℕ) (pt : List ℕ) (pt_at out_at room : ℕ)
    → limits_valid s.limits ≡ true
    → (session_seal a s now pt pt_at out_at room).status ≡ ok
    → Sealing a (send_key s) (build_nonce s.send_seq) s (seal_call now pt pt_at out_at room)
      × (sent_by (seal_call now pt pt_at out_at room) (session_seal a s now pt pt_at out_at room)
          ≡ s.send_seq ∷ [])
      × (s.send_seq < 2 ^ 64)
unfolding perform aead_encrypt sent_by
seal-Sealing a s now pt pt_at out_at room valid h =
    let (c, e) = seal_checks a s now pt pt_at out_at room h in
    let (ct, enc, size, fin) =
      seal_finish_ok (reserved a s now pt pt_at out_at room) s.send_seq _
        (sealed_text a s now pt pt_at out_at room) (rw e at h) in
    let (number, send, recv) = seal_ok a s now pt pt_at out_at room valid h in
    (
      record {
        header = session_record_type ∷ store_be64 s.send_seq;
        ad = _;
        inner = _;
        ciphertext = ct;
        size = omega (arith, length-store_be64 s.send_seq);
        handed_out = rw (e ∙ fin) refl;
        encrypted = enc;
      },
      rw (h, number) refl,
      omega (arith, (limits_bound s.limits valid).0, c.below),
    )

-- A session that is not active hands out nothing, under whatever key.
dead_sealed :
    (a : Aead) (key : List ℕ) (s : Session) (cs : List Call)
    → is_active s.state ≡ false
    → SealedUnder a key s cs (map build_nonce (sent a s cs))
unfolding sent
dead_sealed a key s [] dead = no_call
dead_sealed a key s (c ∷ cs) dead =
    let (bad, same) = perform_dead a s c dead in
    let (none_sent, none_accepted) = quiet c (perform a s c) bad in
    let rest = dead_sealed a key (perform a s c).session cs (rw same dead) in
    rw none_sent (no_record none_sent rest)

-- The records of a run are sealed under one key, and their numbers fit into 64 bits.
abbrev IsSealed : Aead → List ℕ → Session → List Call → Type 0
IsSealed a key s cs =
    SealedUnder a key s cs (map build_nonce (sent a s cs)) × AllBelow (2 ^ 64) (sent a s cs)

quiet-IsSealed :
    (a : Aead) (key : List ℕ) (s : Session) (c : Call) (cs : List Call)
    → sent_by c (perform a s c) ≡ []
    → IsSealed a key (perform a s c).session cs
    → IsSealed a key s (c ∷ cs)
unfolding sent
quiet-IsSealed a key s c cs e (rest, below) = rw e (no_record e rest, below)

ok-IsSealed :
    (a : Aead) (key : List ℕ) (s : Session) (c : Call) (cs : List Call)
    → limits_valid s.limits ≡ true
    → send_key s ≡ key
    → (perform a s c).status ≡ ok
    → IsSealed a key (perform a s c).session cs
    → IsSealed a key s (c ∷ cs)
unfolding sent perform AllBelow sent_by
ok-IsSealed a key s (seal_call now pt pt_at out_at room) cs valid k h (rest, below) =
    let (sealing, e, small) = seal-Sealing a s now pt pt_at out_at room valid h in
    rw e (a_record (rw k at sealing) rest, (small, below))
ok-IsSealed a key s (open_call now rec rec_at pt_at room) cs valid k h rest =
    quiet-IsSealed a key s (open_call now rec rec_at pt_at room) cs refl rest

IsSealed-cons :
    (a : Aead) (key : List ℕ) (s : Session) (c : Call) (cs : List Call)
    → limits_valid s.limits ≡ true
    → send_key s ≡ key
    → Left s (perform a s c)
    → (limits_valid (perform a s c).session.limits ≡ true
        → send_key (perform a s c).session ≡ key
        → IsSealed a key (perform a s c).session cs)
    → IsSealed a key s (c ∷ cs)
unfolding AllBelow
IsSealed-cons a key s c cs valid k (refused why same) rest =
    let bad : is_ok (perform a s c).status ≡ false = elim why [
      | inl e ↦ rw e refl
      | inr e ↦ rw e refl
    ] in
    quiet-IsSealed a key s c cs (quiet c (perform a s c) bad).0
      (rest (rw same valid) (ap (λ t. send_key t) same ∙ k))
IsSealed-cons a key s c cs valid k (went_on h up keys l) rest =
    ok-IsSealed a key s c cs valid k h (rest (rw l valid) (rw (keys, send_key) k))
IsSealed-cons a key s c cs valid k (ended bad e) rest =
    let dead = not_active _ e.state in
    quiet-IsSealed a key s c cs (quiet c (perform a s c) bad).0 (
      dead_sealed a key (perform a s c).session cs dead,
      rw (dead_forever a (perform a s c).session cs dead).0 tt,
    )

IsSealed-run :
    (a : Aead) (key : List ℕ) (s : Session) (cs : List Call)
    → limits_valid s.limits ≡ true
    → send_key s ≡ key
    → IsSealed a key s cs
unfolding sent AllBelow
IsSealed-run a key s [] valid k = (no_call, tt)
IsSealed-run a key s (c ∷ cs) valid k =
    IsSealed-cons a key s c cs valid k (perform-Left a s c valid)
      (IsSealed-run a key (perform a s c).session cs)

-- Over any seal and open calls on a session with valid limits, the records handed out carry greater
-- and greater numbers, from `send_seq` on; the ciphertext of each is the AEAD's under the session's
-- send key and the nonce that `build_nonce` makes of its number, and no two of these nonces are
-- equal. The records that are accepted are numbered by `recv_seq` and so on, without a gap.
pub run_nonces :
    (a : Aead) (s : Session) (cs : List Call)
    → limits_valid s.limits ≡ true
    → Ascend s.send_seq (sent a s cs)
      × Consecutive s.recv_seq (accepted a s cs)
      × SealedUnder a (send_key s) s cs (map build_nonce (sent a s cs))
      × AllApart (map build_nonce (sent a s cs))
run_nonces a s cs valid =
    let (up, seq) = run_numbers a s cs valid in
    let (sealed, below) = IsSealed-run a (send_key s) s cs valid refl in
    (up, seq, sealed, map-AllApart s.send_seq (sent a s cs) up below)
