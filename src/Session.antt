-- ===== src/Session.antt =====
-- src/protocol/session.h and session.c: the padded record layer. Each reading of the clock is an
-- argument `now`; a buffer is the list of its bytes with the address at which it stands. The
-- pointers that the code compares with NULL are taken to be there.
pub mod Records
pub mod Numbers
pub mod Padding
pub mod Seal
pub mod Open
pub mod RoundTrip
pub mod Sequence
pub mod Nonces
pub mod Ended
pub mod Terminal
pub mod Init
mod Tests
use mathlib.Core.Option
use mldsa_auth.Base.{
  Bool, List, Option, [], drop, false, if◌then◌else◌, leb, ltb, none, not, replicate, some, suc,
  take, true, zero, ℕ, ◌%◌, ◌&&◌, ◌*◌, ◌++◌, ◌+◌, ◌-◌, ◌/◌, ◌==◌, ◌^◌, ◌||◌, ◌∷◌,
}
use mldsa_auth.Crypto.Aead.{aead_key_bytes}
use mldsa_auth.Transcript.{codes}

abbrev pub session_record_type : ℕ
session_record_type = 0x04

abbrev pub session_header_bytes : ℕ
session_header_bytes = 9

abbrev pub session_overhead_bytes : ℕ
session_overhead_bytes = 25

abbrev pub session_max_plaintext_bytes : ℕ
session_max_plaintext_bytes = 65536

abbrev pub session_content_len_bytes : ℕ
session_content_len_bytes = 2

abbrev pub session_max_content_bytes : ℕ
session_max_content_bytes = session_max_plaintext_bytes - session_content_len_bytes

abbrev pub session_max_record_bytes : ℕ
session_max_record_bytes = session_max_plaintext_bytes + session_overhead_bytes

abbrev pub session_min_record_bytes : ℕ
session_min_record_bytes = session_content_len_bytes + session_overhead_bytes

abbrev pub session_rekey_after_messages : ℕ
session_rekey_after_messages = 2 ^ 32

abbrev pub session_reject_after_messages : ℕ
session_reject_after_messages = 2 ^ 33

abbrev pub session_rekey_after_ms : ℕ
session_rekey_after_ms = 3600000

abbrev pub session_reject_after_ms : ℕ
session_reject_after_ms = 3900000

abbrev pub session_pad_bucket_default : ℕ
session_pad_bucket_default = 256

abbrev pub session_ad_label : List ℕ
session_ad_label = codes "mldsa-auth/v2/record"

abbrev pub key_block_len : ℕ
key_block_len = 2 * aead_key_bytes

-- `session_state_t`
pub data State : Type 0 where
  empty active expired failed : State

-- `session_status_t`
pub data Status : Type 0 where
  ok invalid_arg unexpected_state malformed replay out_of_order auth limit err_expired : Status
  resource_exhausted internal : Status

-- `handshake_role_t`
pub data Role : Type 0 where
  initiator responder : Role

-- `session_limits_t`
pub record Limits : Type 0 where
  pub rekey_after_messages : ℕ
  pub reject_after_messages : ℕ
  pub rekey_after_ms : ℕ
  pub reject_after_ms : ℕ
  pub pad_bucket : ℕ

-- `session_t`; `keys` is the block [send | recv], `none` for NULL.
pub record Session : Type 0 where
  pub state : State
  pub role : Role
  pub peer_confirmed : Bool
  pub keys : Option (List ℕ)
  pub send_dir : ℕ
  pub recv_dir : ℕ
  pub handshake_id : List ℕ
  pub send_seq : ℕ
  pub recv_seq : ℕ
  pub start_ms : ℕ
  pub limits : Limits

abbrev pub is_active : State → Bool
is_active active = true
is_active empty = false
is_active expired = false
is_active failed = false

abbrev pub is_empty : State → Bool
is_empty empty = true
is_empty active = false
is_empty expired = false
is_empty failed = false

abbrev pub has_block : Option (List ℕ) → Bool
has_block none = false
has_block (some block) = true

abbrev pub is_initiator : Role → Bool
is_initiator initiator = true
is_initiator responder = false

unfoldable pub session_default_limits : Limits
session_default_limits = record {
  rekey_after_messages = session_rekey_after_messages;
  reject_after_messages = session_reject_after_messages;
  rekey_after_ms = session_rekey_after_ms;
  reject_after_ms = session_reject_after_ms;
  pad_bucket = session_pad_bucket_default;
}

unfoldable pub pad_bucket_valid : ℕ → Bool
pad_bucket_valid bucket =
    bucket == 1 || bucket == 16 || bucket == 64 || bucket == 256 || bucket == 1024 || bucket == 4096

unfoldable pub limits_valid : Limits → Bool
unfolding pad_bucket_valid
limits_valid l =
    leb 1 l.rekey_after_messages
    && leb l.rekey_after_messages l.reject_after_messages
    && leb l.reject_after_messages session_reject_after_messages
    && leb l.rekey_after_messages session_rekey_after_messages
    && leb 1 l.rekey_after_ms
    && leb l.rekey_after_ms l.reject_after_ms
    && leb l.reject_after_ms session_reject_after_ms
    && leb l.rekey_after_ms session_rekey_after_ms
    && pad_bucket_valid l.pad_bucket

abbrev pub uint64_max : ℕ
uint64_max = 2 ^ 64 - 1

-- An unreadable clock, or one that went backwards, reports the maximum age.
unfoldable pub session_age_ms : Session → ℕ → ℕ
session_age_ms s now =
    if now == uint64_max || ltb now s.start_ms then uint64_max else now - s.start_ms

-- The session after a terminal transition.
pub terminate : Session → State → Session
terminate s state = record s {
  keys = Option.map (λ block. replicate key_block_len 0) s.keys;
  peer_confirmed = false;
  state = state;
}

-- `out[i] = (uint8_t)(v >> (56 - 8 * i))`, with `n` bytes to go.
pub store_be64_loop : ℕ → ℕ → List ℕ
store_be64_loop zero v = []
store_be64_loop (suc n) v = (v / 2 ^ (8 * n) % 256) ∷ store_be64_loop n v

pub store_be64 : ℕ → List ℕ
unfolding store_be64_loop
store_be64 v = store_be64_loop 8 v

-- `v = (v << 8) | in[i]`, over the bytes to go.
pub load_be64_loop : List ℕ → ℕ → ℕ
load_be64_loop [] v = v
load_be64_loop (b ∷ bs) v = load_be64_loop bs ((v * 2 ^ 8 + b) % 2 ^ 64)

-- The first eight bytes of the buffer.
pub load_be64 : List ℕ → ℕ
unfolding load_be64_loop
load_be64 buf = load_be64_loop (take 8 buf) 0

unfoldable pub build_nonce : ℕ → List ℕ
build_nonce seq = replicate 4 0 ++ store_be64 seq

unfoldable pub build_ad : Session → ℕ → ℕ → List ℕ
build_ad s direction seq =
    session_ad_label
    ++ ((0x00 ∷ [])
        ++ (s.handshake_id ++ ((direction ∷ []) ++ ((session_record_type ∷ []) ++ store_be64 seq))))

pub store_be16 : ℕ → List ℕ
store_be16 v = (v / 2 ^ 8 % 256) ∷ (v % 256) ∷ []

-- The first two bytes; 0 of a buffer that has them not, which `session_open` rules out.
pub load_be16 : List ℕ → ℕ
load_be16 [] = 0
load_be16 (b ∷ []) = 0
load_be16 (hi ∷ lo ∷ rest) = (hi * 2 ^ 8 + lo) % 2 ^ 16

pub inner_len_for : ℕ → ℕ → ℕ
inner_len_for content_len bucket =
    (content_len + session_content_len_bytes + bucket - 1) / bucket * bucket

unfoldable pub session_sealed_len : Session → ℕ → ℕ
session_sealed_len s content_len =
    if ltb session_max_content_bytes content_len || not (pad_bucket_valid s.limits.pad_bucket)
    then 0
    else inner_len_for content_len s.limits.pad_bucket + session_overhead_bytes

-- On addresses. The sums are of `uintptr_t`.
unfoldable pub ranges_overlap : ℕ → ℕ → ℕ → ℕ → Bool
ranges_overlap a a_len b b_len =
    if a_len == 0 || b_len == 0
    then false
    else ltb a ((b + b_len) % 2 ^ 64) && ltb b ((a + a_len) % 2 ^ 64)

abbrev pub send_key : Session → List ℕ
send_key s = elim s.keys [ none ↦ [] | some block ↦ take aead_key_bytes block ]

abbrev pub recv_key : Session → List ℕ
recv_key s = elim s.keys [ none ↦ [] | some block ↦ drop aead_key_bytes block ]

-- `out` is what the call left in the caller's buffer, none of it if it wrote nothing; `len` is
-- `*out_len` or `*pt_len`.
pub record Outcome : Type 0 where
  pub status : Status
  pub session : Session
  pub out : List ℕ
  pub len : ℕ

abbrev pub refuse : Session → Status → Outcome
refuse s why = record { status = why; session = s; out = []; len = 0 }

abbrev pub end_session : Session → State → Status → List ℕ → Outcome
end_session s state why out = record {
  status = why;
  session = terminate s state;
  out = out;
  len = 0;
}
