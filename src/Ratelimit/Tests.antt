-- ===== src/Ratelimit/Tests.antt =====
-- Calls of the limiter of apps/authd/ratelimit.c on concrete addresses.
use mldsa_auth.Base.{List, [], arith, drop, refl, replicate, take, ℕ, ◌∷◌, ◌≡◌, ◌≤◌}
use mldsa_auth.Base.Bytes.{blit, bytes_eq, zeros}
use mldsa_auth.ProxyV2.{AuthdAddr, authd_addr_key}
use mldsa_auth.Ratelimit.{
  Ratelimit, RatelimitEntry, allow, find_idx, find_or_add, find_rounds, hash_value, ratelimit_init,
  reclaimable, refill, refill_addr, refill_global, room_rounds, same_key,
}
use mldsa_auth.Ratelimit.Calls.{Admits}
use mldsa_auth.Ratelimit.Gate.{admit_entry, ratelimit_admit, ratelimit_conns}
use mldsa_auth.Ratelimit.Limiter.{IsLimiter, ratelimit_init-IsLimiter}
use mldsa_auth.Ratelimit.Refill.{refill_settles}
use mldsa_auth.Ratelimit.Runs.{
  LimiterCall, admit-Admits, admits, limiter_count, limiter_counts, limiter_run,
}

-- A hash that is documented to be a function of its key and its input.
abbrev first_bytes : List ℕ → List ℕ → List ℕ
first_bytes key input = input

abbrev ten_0_0_1 : AuthdAddr
ten_0_0_1 = record { family = 4; addr = 10 ∷ 0 ∷ 0 ∷ 1 ∷ [] }

abbrev fresh_limiter : Ratelimit
fresh_limiter = ratelimit_init (zeros 16) 5 10 50 2 1000

abbrev three_calls : List LimiterCall
three_calls = admits ten_0_0_1 1000 ∷ admits ten_0_0_1 1001 ∷ admits ten_0_0_1 1002 ∷ []

allows : (ratelimit_admit first_bytes fresh_limiter ten_0_0_1 1000).0 ≡ allow
unfolding ratelimit_admit find_or_add find_idx find_rounds room_rounds admit_entry refill_addr
    refill_global refill reclaimable authd_addr_key take drop replicate blit hash_value same_key
    bytes_eq ratelimit_init
allows = refl

fresh-IsLimiter : IsLimiter first_bytes fresh_limiter
fresh-IsLimiter = ratelimit_init-IsLimiter first_bytes (zeros 16) 5 10 50 2 1000

admit-Admits_example :
    Admits first_bytes fresh_limiter
      (authd_addr_key ten_0_0_1)
      (ratelimit_admit first_bytes fresh_limiter ten_0_0_1 1000)
admit-Admits_example = admit-Admits first_bytes fresh_limiter ten_0_0_1 1000 fresh-IsLimiter

limiter_counts_example :
    (ratelimit_conns first_bytes (limiter_run first_bytes fresh_limiter three_calls) ten_0_0_1
      ≡ limiter_count first_bytes fresh_limiter three_calls (authd_addr_key ten_0_0_1) 0)
    × (ratelimit_conns first_bytes (limiter_run first_bytes fresh_limiter three_calls) ten_0_0_1
        ≤ 2)
limiter_counts_example = limiter_counts first_bytes (zeros 16) 5 10 50 2 1000 three_calls ten_0_0_1

abbrev one_entry : RatelimitEntry
one_entry = record { key = zeros 16; key_len = 4; tokens_milli = 0; last_ms = 0; conns = 0 }

refill_settles_example :
    (refill_addr fresh_limiter (refill_addr fresh_limiter one_entry 17) 17
      ≡ refill_addr fresh_limiter one_entry 17)
    × (refill_global (refill_global fresh_limiter 17) 17 ≡ refill_global fresh_limiter 17)
unfolding ratelimit_init
refill_settles_example =
    refill_settles fresh_limiter one_entry 12 17 refl (omega arith) (omega arith) (omega arith)

-- At a rate of 7 a minute, that does not divide 60, a second refill at the same time credits once more.
refill_credits_twice : (refill 0 0 17 7 60 10000 ≡ (1, 8)) × (refill 1 8 17 7 60 10000 ≡ (2, 16))
unfolding refill
refill_credits_twice = (refl, refl)
