-- ===== src/Ratelimit/Refill.antt =====
-- The accrual of a bucket of apps/authd/ratelimit.c.
use native.Mathlib.Nat.{
  div-eq_of_lt, div-mul-le_self, le_of_mul-le-mul_right, lt-div-mul-add, mod-eq_of_lt,
  mul-div_cancel, mul_assoc, mul_comm, mul-le-mul,
}
use mldsa_auth.Base.{
  ap, arith, if_elim, inl, inr, leb, refl, subst, suc, zero, ℕ, ◌%◌, ◌*◌, ◌+◌, ◌-◌, ◌/◌, ◌<◌, ◌==◌,
  ◌^◌, ◌∙◌, ◌≡◌, ◌≤◌, ◌⊎◌,
}
use mldsa_auth.Ratelimit.{
  Ratelimit, RatelimitEntry, cap_milli, ratelimit_global_max, refill, refill_addr, refill_global,
}

product_pos : (m n : ℕ) → 0 < m → 0 < n → 0 < m * n
product_pos m n h k = grind arith

-- The whole milli-tokens of `e` milliseconds, where a milli-token takes `k` of them: the time that is left
-- over is too short for one more.
rest_short :
    (e num k : ℕ)
    → 0 < num
    → 0 < k
    → let q = e * num / (k * num) in
      (q * (k * num) / num ≡ q * k) × (q * k ≤ e) × ((e - q * k) * num / (k * num) ≡ 0)
rest_short e num k n p =
    let q = e * num / (k * num) in
    let pos = product_pos k num p n in
    let below : q * (k * num) ≤ e * num = div-mul-le_self (e * num) (k * num) in
    let above : e * num < q * (k * num) + k * num = lt-div-mul-add {a = e * num} pos in
    let assoc : q * k * num ≡ q * (k * num) = mul_assoc q k num in
    let le : q * k ≤ e =
      le_of_mul-le-mul_right {m = q * k} {n = e} (omega (arith, assoc, below)) n in
    let left : (e - q * k) * num ≡ e * num - q * k * num = grind (arith, le) in
    (
      rw (← assoc) (mul-div_cancel (q * k) n),
      le,
      div-eq_of_lt (omega (arith, left, assoc, above, below)),
    )

still :
    (tokens last now num den cap : ℕ)
    → (now - last) * num % 2 ^ 64 / den ≡ 0
    → refill tokens last now num den cap ≡ (tokens, last)
unfolding refill
still tokens last now num den cap h =
    if_elim (λ (r : ℕ × ℕ). r ≡ (tokens, last)) (leb now last) (λ e. refl)
      (λ e.
        if_elim (λ (r : ℕ × ℕ). r ≡ (tokens, last)) ((now - last) * num % 2 ^ 64 / den == 0)
          (λ f. refl) (λ f. absurd (ground (arith, f, h))))

-- Either nothing has accrued, or the time moves on by what has produced whole milli-tokens.
refill_cases :
    (tokens last now num den cap : ℕ)
    → let e = now - last in
      let add = e * num % 2 ^ 64 / den in
      let r = refill tokens last now num den cap in
      (r ≡ (tokens, last)) ⊎ ((last < now) × (r.1 ≡ (last + (add * den % 2 ^ 64) / num) % 2 ^ 64))
unfolding refill
refill_cases tokens last now num den cap =
    let add = (now - last) * num % 2 ^ 64 / den in
    let P : ℕ × ℕ → Type 0 = λ r.
      (r ≡ (tokens, last))
      ⊎ ((last < now) × (r.1 ≡ (last + (add * den % 2 ^ 64) / num) % 2 ^ 64)) in
    if_elim P (leb now last) (λ e. inl refl)
      (λ e. if_elim P (add == 0) (λ f. inl refl) (λ f. inr (ground (arith, e), refl)))

-- Where a milli-token takes a whole number of milliseconds.
refill_once :
    (tokens last now num k cap : ℕ)
    → 0 < num
    → 0 < k
    → now < 2 ^ 64
    → now * num < 2 ^ 64
    → let r = refill tokens last now num (k * num) cap in refill r.0 r.1 now num (k * num) cap ≡ r
refill_once tokens last now num k cap n p c b =
    let e = now - last in
    let r = refill tokens last now num (k * num) cap in
    let small : e * num < 2 ^ 64 = grind (arith, b) in
    let (time, le, rest) = rest_short e num k n p in
    elim (refill_cases tokens last now num (k * num) cap) [
      | inl same ↦ rw (same, same) refl
      | inr (l, at) ↦
          let q = e * num / (k * num) in
          let made : e * num % 2 ^ 64 ≡ e * num = mod-eq_of_lt small in
          let back : q * (k * num) ≤ e * num = div-mul-le_self (e * num) (k * num) in
          let stays : q * (k * num) % 2 ^ 64 ≡ q * (k * num) = omega (arith, back, small) in
          let moved : r.1 ≡ last + q * k = at ∙ rw (made, stays, time) (omega (arith, le, l, c)) in
          let gap : now - r.1 ≡ e - q * k = omega (arith, moved) in
          let tiny : (e - q * k) * num < 2 ^ 64 = grind (arith, small) in
          still r.0 r.1 now num (k * num) cap
            (rw gap (ap (λ x. x / (k * num)) (mod-eq_of_lt tiny) ∙ rest))
    ]

-- Where a millisecond makes a whole number of milli-tokens.
refill_once_whole :
    (tokens last now num cap : ℕ)
    → 0 < num
    → now < 2 ^ 64
    → now * num < 2 ^ 64
    → let r = refill tokens last now num 1 cap in refill r.0 r.1 now num 1 cap ≡ r
refill_once_whole tokens last now num cap n c b =
    let e = now - last in
    let r = refill tokens last now num 1 cap in
    let small : e * num < 2 ^ 64 = grind (arith, b) in
    elim (refill_cases tokens last now num 1 cap) [
      | inl same ↦ rw (same, same) refl
      | inr (l, at) ↦
          let made : e * num % 2 ^ 64 / 1 * 1 % 2 ^ 64 ≡ e * num = omega (arith, small) in
          let moved : r.1 ≡ now = at ∙ rw (made, mul-div_cancel e n) (omega (arith, l, c)) in
          let gap : now - r.1 ≡ 0 = omega (arith, moved) in
          still r.0 r.1 now num 1 cap (rw gap (omega arith))
    ]

factor_pos : (m n : ℕ) → m * n ≡ 60 → 0 < n
factor_pos m zero h = grind arith
factor_pos m (suc n) h = omega arith

factor_le : (m n : ℕ) → m * n ≡ 60 → n ≤ 60
factor_le zero n h = grind arith
factor_le (suc m) n h = grind arith

product_small : (m n : ℕ) → m < 2 ^ 50 → n ≤ 10000 → m * n < 2 ^ 64
product_small m n h k =
    let a : m * n ≤ 2 ^ 50 * 10000 =
      mul-le-mul {n₁ = m} {m₁ = n} {n₂ = 2 ^ 50} {m₂ = 10000} (omega arith) k in
    omega (arith, a)

-- Refilling again at one time changes nothing: for the bucket of an address if a milli-token takes
-- a whole number of milliseconds, that is if the rate per minute divides 60, and for the bucket of the
-- whole daemon at any rate, as long as the clock is below 2 ^ 50 milliseconds.
pub refill_settles :
    (r : Ratelimit) (e : RatelimitEntry) (k now_ms : ℕ)
    → k * r.per_min ≡ 60
    → 0 < r.global_per_sec
    → r.global_per_sec ≤ ratelimit_global_max
    → now_ms < 2 ^ 50
    → (refill_addr r (refill_addr r e now_ms) now_ms ≡ refill_addr r e now_ms)
      × (refill_global (refill_global r now_ms) now_ms ≡ refill_global r now_ms)
unfolding refill_addr refill_global
refill_settles r e k now_ms sixty pos most clock =
    let rate : 0 < r.per_min = factor_pos k r.per_min sixty in
    let step : 0 < k = factor_pos r.per_min k (mul_comm r.per_min k ∙ sixty) in
    let low : r.per_min ≤ 60 = factor_le k r.per_min sixty in
    let one =
      refill_once e.tokens_milli e.last_ms now_ms r.per_min k (cap_milli r) rate step (omega arith)
        (product_small now_ms r.per_min clock (omega (arith, low))) in
    let two =
      refill_once_whole r.global_tokens_milli r.global_last_ms now_ms r.global_per_sec
        (r.global_per_sec * 1000) pos (omega arith)
        (product_small now_ms r.global_per_sec clock most) in
    (
      ap (λ (x : ℕ × ℕ). record e { tokens_milli = x.0; last_ms = x.1 })
          (subst
            (λ d.
              let x = refill e.tokens_milli e.last_ms now_ms r.per_min d (cap_milli r) in
              refill x.0 x.1 now_ms r.per_min d (cap_milli r) ≡ x)
            sixty one),
      ap (λ (x : ℕ × ℕ). record r { global_tokens_milli = x.0; global_last_ms = x.1 }) two,
    )
