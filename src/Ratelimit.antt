-- ===== src/Ratelimit.antt =====
-- The transport rate limiter of apps/authd/ratelimit.h and ratelimit.c: its state, the buckets and the table. SipHash-2-4 (libsodium's
-- crypto_shorthash) is the parameter `shorthash` of the functions that hash an address. An index that is not
-- found, RATELIMIT_ENTRIES in the code, is `none`. The pointers `r` and `addr` are not null.
pub mod Gate
pub mod Probe
pub mod Table
pub mod Writes
pub mod Insert
pub mod Place
pub mod Limiter
pub mod Calls
pub mod Release
pub mod Runs
pub mod Refill
mod Tests
use mldsa_auth.Base.{
  Bool, List, Option, [], false, get_elem?, if◌then◌else◌, leb, length, ltb, none, not, replicate,
  set, some, suc, take, true, zero, ℕ, ◌%◌, ◌&&◌, ◌*◌, ◌+◌, ◌-◌, ◌/◌, ◌==◌, ◌^◌, ◌∷◌,
}
use mldsa_auth.Base.Bytes.{blit, bytes_eq, zeros}

abbrev pub ratelimit_entries : ℕ
ratelimit_entries = 1024

abbrev pub ratelimit_per_min_max : ℕ
ratelimit_per_min_max = 10000

abbrev pub ratelimit_burst_max : ℕ
ratelimit_burst_max = 10000

abbrev pub ratelimit_global_max : ℕ
ratelimit_global_max = 10000

abbrev pub ratelimit_max_conns_max : ℕ
ratelimit_max_conns_max = 4096

-- `ratelimit_verdict_t`
pub data Verdict : Type 0 where
  allow deny_conns deny_addr deny_global deny_table deny_no_addr : Verdict

-- `ratelimit_entry_t`; `key_len` 0 is a free entry.
pub record RatelimitEntry : Type 0 where
  pub key : List ℕ
  pub key_len : ℕ
  pub tokens_milli : ℕ
  pub last_ms : ℕ
  pub conns : ℕ

-- `ratelimit_t`
pub record Ratelimit : Type 0 where
  pub hash_key : List ℕ
  pub per_min : ℕ
  pub burst : ℕ
  pub global_per_sec : ℕ
  pub max_conns : ℕ
  pub global_tokens_milli : ℕ
  pub global_last_ms : ℕ
  pub e : List RatelimitEntry
  pub admitted : ℕ
  pub denied_conns : ℕ
  pub denied_addr : ℕ
  pub denied_global : ℕ
  pub denied_table : ℕ
  pub refunded : ℕ

-- An entry of zeros.
abbrev pub zero_ratelimit_entry : RatelimitEntry
zero_ratelimit_entry = record {
  key = zeros 16;
  key_len = 0;
  tokens_milli = 0;
  last_ms = 0;
  conns = 0;
}

abbrev pub clamp_u32 : ℕ → ℕ → ℕ → ℕ
clamp_u32 v lo hi = if ltb v lo then lo else if ltb hi v then hi else v

-- `hash_key` is what crypto_shorthash_keygen draws.
pub ratelimit_init : List ℕ → ℕ → ℕ → ℕ → ℕ → ℕ → Ratelimit
ratelimit_init hash_key per_min burst global_per_sec max_conns now_ms = record {
  hash_key = hash_key;
  per_min = clamp_u32 per_min 1 ratelimit_per_min_max;
  burst = clamp_u32 burst 1 ratelimit_burst_max;
  global_per_sec = clamp_u32 global_per_sec 1 ratelimit_global_max;
  max_conns = clamp_u32 max_conns 1 ratelimit_max_conns_max;
  global_tokens_milli = clamp_u32 global_per_sec 1 ratelimit_global_max * 1000;
  global_last_ms = now_ms;
  e = replicate ratelimit_entries zero_ratelimit_entry;
  admitted = 0;
  denied_conns = 0;
  denied_addr = 0;
  denied_global = 0;
  denied_table = 0;
  refunded = 0;
}

-- The tokens and the time after it.
unfoldable pub refill : ℕ → ℕ → ℕ → ℕ → ℕ → ℕ → ℕ × ℕ
refill tokens_milli last_ms now_ms num den cap_milli =
    let elapsed = now_ms - last_ms in
    let add = (elapsed * num % 2 ^ 64) / den in
    let sum = (tokens_milli + add) % 2 ^ 64 in
    if leb now_ms last_ms
    then (tokens_milli, last_ms)
    else if add == 0
    then (tokens_milli, last_ms)
    else (
      if ltb cap_milli sum then cap_milli else sum,
      (last_ms + (add * den % 2 ^ 64) / num) % 2 ^ 64,
    )

-- `burst` in milli-tokens, what a bucket holds at most.
abbrev pub cap_milli : Ratelimit → ℕ
cap_milli r = r.burst * 1000

unfoldable pub refill_addr : Ratelimit → RatelimitEntry → ℕ → RatelimitEntry
refill_addr r e now_ms =
    let (tokens, last) = refill e.tokens_milli e.last_ms now_ms r.per_min 60 (cap_milli r) in
    record e { tokens_milli = tokens; last_ms = last }

unfoldable pub refill_global : Ratelimit → ℕ → Ratelimit
refill_global r now_ms =
    let (tokens, last) =
      refill r.global_tokens_milli r.global_last_ms now_ms r.global_per_sec 1
        (r.global_per_sec * 1000) in
    record r { global_tokens_milli = tokens; global_last_ms = last }

-- The bytes of the hash as one number, big end first.
unfoldable pub hash_value : List ℕ → ℕ → ℕ
hash_value [] v = v
hash_value (b ∷ h) v = hash_value h ((v * 256 + b) % 2 ^ 64)

abbrev pub bucket_of : (List ℕ → List ℕ → List ℕ) → Ratelimit → List ℕ → ℕ
bucket_of shorthash r key = hash_value (shorthash r.hash_key key) 0 % ratelimit_entries

unfoldable pub same_key : RatelimitEntry → List ℕ → Bool
same_key e key = (e.key_len == length key) && bytes_eq (take (length key) e.key) key

unfoldable pub reclaimable : Ratelimit → RatelimitEntry → ℕ → Bool
reclaimable r e now_ms =
    if e.key_len == 0
    then true
    else if not (e.conns == 0)
    then false
    else leb (cap_milli r) (refill_addr r e now_ms).tokens_milli

-- `r->e[i]`
abbrev pub entry_at : List RatelimitEntry → ℕ → RatelimitEntry
entry_at es i = elim (get_elem? es i) [ none ↦ zero_ratelimit_entry | some e ↦ e ]

-- The loop of `find_idx` from round `n` on, over `left` rounds.
unfoldable pub find_rounds : List RatelimitEntry → List ℕ → ℕ → ℕ → ℕ → Option ℕ
find_rounds es key b n zero = none
find_rounds es key b n (suc left) =
    let i = (b + n) % ratelimit_entries in
    elim ((entry_at es i).key_len == 0) [
      | true ↦ none
      | false ↦ elim (same_key (entry_at es i) key) [
        | true ↦ some i
        | false ↦ find_rounds es key b (n + 1) left
      ]
    ]

unfoldable pub find_idx : (List ℕ → List ℕ → List ℕ) → Ratelimit → List ℕ → Option ℕ
find_idx shorthash r key = find_rounds r.e key (bucket_of shorthash r key) 0 ratelimit_entries

-- The second loop of `find_or_add`: the first entry that may be taken.
unfoldable pub room_rounds : Ratelimit → ℕ → ℕ → ℕ → ℕ → Option ℕ
room_rounds r now_ms b n zero = none
room_rounds r now_ms b n (suc left) =
    let i = (b + n) % ratelimit_entries in
    elim (reclaimable r (entry_at r.e i) now_ms) [
      | true ↦ some i
      | false ↦ room_rounds r now_ms b (n + 1) left
    ]

-- A new address starts full.
abbrev pub fresh_entry : Ratelimit → List ℕ → ℕ → RatelimitEntry
fresh_entry r key now_ms = record {
  key = blit (zeros 16) key;
  key_len = length key;
  tokens_milli = cap_milli r;
  last_ms = now_ms;
  conns = 0;
}

abbrev pub put_entry : Ratelimit → ℕ → RatelimitEntry → Ratelimit
put_entry r i e = record r { e = set r.e i e }

-- The index of the entry, and the limiter after it.
unfoldable pub find_or_add :
    (List ℕ → List ℕ → List ℕ) → Ratelimit → List ℕ → ℕ → Option ℕ × Ratelimit
find_or_add shorthash r key now_ms = elim (find_idx shorthash r key) [
  | some at ↦ (some at, r)
  | none ↦ elim (room_rounds r now_ms (bucket_of shorthash r key) 0 ratelimit_entries) [
    | some i ↦ (some i, put_entry r i (fresh_entry r key now_ms))
    | none ↦ (none, r)
  ]
]
