-- ===== src/Ratelimit/Probe.antt =====
-- The two probing loops of apps/authd/ratelimit.c, round by round.
use mldsa_auth.Base.{
  Bool-cases, List, Option, arith, false, inl, inr, none, some, subst, suc, true, zero, ℕ, ◌%◌, ◌+◌,
  ◌<◌, ◌==◌, ◌≡◌, ◌≤◌,
}
use mldsa_auth.Ratelimit.{
  Ratelimit, RatelimitEntry, entry_at, find_rounds, ratelimit_entries, reclaimable, room_rounds,
  same_key,
}

-- An entry that is used by another address than `key`.
abbrev pub Other : List RatelimitEntry → List ℕ → ℕ → Type 0
Other es key i = (((entry_at es i).key_len == 0) ≡ false) × (same_key (entry_at es i) key ≡ false)

-- `key` stands in entry `i`.
abbrev pub Holds : List RatelimitEntry → List ℕ → ℕ → Type 0
Holds es key i =
    (i < ratelimit_entries)
    × (((entry_at es i).key_len == 0) ≡ false)
    × (same_key (entry_at es i) key ≡ true)

-- The rounds `lo`, ..., `hi - 1` from bucket `b` on.
abbrev pub Rounds : (ℕ → Type 0) → ℕ → ℕ → ℕ → Type 0
Rounds P b lo hi = (m : ℕ) → lo ≤ m → m < hi → P ((b + m) % ratelimit_entries)

pub Rounds-cons :
    (P : ℕ → Type 0) (b lo hi : ℕ)
    → P ((b + lo) % ratelimit_entries)
    → Rounds P b (lo + 1) hi
    → Rounds P b lo hi
Rounds-cons P b lo hi p ps m l h = elim (Bool-cases (m == lo)) [
  | inl e ↦ subst (λ k. P ((b + k) % ratelimit_entries)) (ground (arith, e)) p
  | inr e ↦ ps m (ground (arith, e)) h
]

-- What `find_rounds` found_at from round `n` to round `last`.
pub data Probed (es : List RatelimitEntry) (key : List ℕ) (b n last : ℕ) : Option ℕ → Type 0 where
  found_at : (i : ℕ) → Holds es key i → Probed es key b n last (some i)
  stopped :
      (m : ℕ)
      → m < last
      → ((entry_at es ((b + m) % ratelimit_entries)).key_len == 0) ≡ true
      → Rounds (Other es key) b n m
      → Probed es key b n last none
  missed : Rounds (Other es key) b n last → Probed es key b n last none

Probed-cons :
    (es : List RatelimitEntry) (key : List ℕ) (b n last : ℕ) (r : Option ℕ)
    → Other es key ((b + n) % ratelimit_entries)
    → n < last
    → Probed es key b (n + 1) last r
    → Probed es key b n last r
Probed-cons es key b n last r o l (found_at i h) = found_at i h
Probed-cons es key b n last r o l (stopped m h f os) =
    stopped m h f (Rounds-cons (Other es key) b n m o os)
Probed-cons es key b n last r o l (missed os) = missed (Rounds-cons (Other es key) b n last o os)

pub find_rounds-Probed :
    (es : List RatelimitEntry) (key : List ℕ) (b n left last : ℕ)
    → n + left ≡ last
    → Probed es key b n last (find_rounds es key b n left)
unfolding find_rounds
find_rounds-Probed es key b n zero last h = missed (λ m l k. absurd (omega arith))
find_rounds-Probed es key b n (suc left) last h =
    let i = (b + n) % ratelimit_entries in
    elim (Bool-cases ((entry_at es i).key_len == 0)) [
      | inl f ↦ rw (find_rounds, f) (stopped n (omega arith) f (λ m l k. absurd (omega arith)))
      | inr f ↦ elim (Bool-cases (same_key (entry_at es i) key)) [
        | inl s ↦ rw (find_rounds, f, s) (found_at i (omega arith, f, s))
        | inr s ↦
            rw (find_rounds, f, s)
              (Probed-cons es key b n last _ (f, s) (omega arith)
                (find_rounds-Probed es key b (n + 1) left last (omega arith)))
      ]
    ]

-- An entry that may not be taken.
abbrev pub Live : Ratelimit → ℕ → ℕ → Type 0
Live r now_ms i = reclaimable r (entry_at r.e i) now_ms ≡ false

-- What the loop that looks for room found: an entry that may be taken, and none before it.
pub data Roomed (r : Ratelimit) (now_ms b n last : ℕ) : Option ℕ → Type 0 where
  has_room :
      (m : ℕ)
      → m < last
      → reclaimable r (entry_at r.e ((b + m) % ratelimit_entries)) now_ms ≡ true
      → Rounds (Live r now_ms) b n m
      → Roomed r now_ms b n last (some ((b + m) % ratelimit_entries))
  no_room : Rounds (Live r now_ms) b n last → Roomed r now_ms b n last none

Roomed-cons :
    (r : Ratelimit) (now_ms b n last : ℕ) (o : Option ℕ)
    → reclaimable r (entry_at r.e ((b + n) % ratelimit_entries)) now_ms ≡ false
    → Roomed r now_ms b (n + 1) last o
    → Roomed r now_ms b n last o
Roomed-cons r now_ms b n last o f (has_room m h t fs) =
    has_room m h t (Rounds-cons (Live r now_ms) b n m f fs)
Roomed-cons r now_ms b n last o f (no_room fs) = no_room (Rounds-cons (Live r now_ms) b n last f fs)

pub room_rounds-Roomed :
    (r : Ratelimit) (now_ms b n left last : ℕ)
    → n + left ≡ last
    → Roomed r now_ms b n last (room_rounds r now_ms b n left)
unfolding room_rounds
room_rounds-Roomed r now_ms b n zero last h = no_room (λ m l k. absurd (omega arith))
room_rounds-Roomed r now_ms b n (suc left) last h =
    let i = (b + n) % ratelimit_entries in
    elim (Bool-cases (reclaimable r (entry_at r.e i) now_ms)) [
      | inl t ↦ rw (room_rounds, t) (has_room n (omega arith) t (λ m l k. absurd (omega arith)))
      | inr f ↦
          rw (room_rounds, f)
            (Roomed-cons r now_ms b n last _ f
              (room_rounds-Roomed r now_ms b (n + 1) left last (omega arith)))
    ]
