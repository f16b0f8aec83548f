-- ===== src/ProxyV2/Later.antt =====
-- The parts of `proxy_v2_consume` of apps/authd/proxy_v2.c when more bytes stood before theirs in the
-- call: the same but for the count.
use mldsa_auth.Base.{
  Bool-cases, List, arith, false, if2_elim, if◌then◌else◌, inl, inr, length, length-append, ltb,
  not, refl, take, true, ℕ, ◌++◌, ◌+◌, ◌-◌, ◌<◌, ◌==◌, ◌||◌, ◌≡◌, ◌≤◌,
}
use mldsa_auth.Base.Bytes.{bytes_eq}
use mldsa_auth.ProxyV2.{
  ProxyStatus, ProxyV2, consume_block, consume_header, hdr_blen, hdr_blk, hdr_cmd, hdr_ver,
  need_more, proxy_v2_consume, proxy_v2_fail, proxy_v2_finish, proxy_v2_len_max, proxy_v2_sig,
  skip_tlv, stage,
}
use mldsa_auth.ProxyV2.Stage.{stage-rest_le}

abbrev pub Result : Type 0
Result = ProxyStatus × ProxyV2 × ℕ

pub finish_later :
    (p : ProxyV2) (n k : ℕ)
    → ((proxy_v2_finish p (n + k)).0 ≡ (proxy_v2_finish p k).0)
      × ((proxy_v2_finish p (n + k)).1 ≡ (proxy_v2_finish p k).1)
      × ((proxy_v2_finish p (n + k)).2 ≡ n + (proxy_v2_finish p k).2)
unfolding proxy_v2_finish
finish_later p n k = (refl, refl, refl)

-- Two results that differ by `n` in the count.
abbrev pub Later : ℕ → Result → Result → Type 0
Later n a b = (a.0 ≡ b.0) × (a.1 ≡ b.1) × (a.2 ≡ n + b.2)

pub tlv-Later :
    (p : ProxyV2) (rest ys : List ℕ) (n : ℕ)
    → length rest ≤ n
    → length rest < p.skip
    → Later n
        (skip_tlv p (rest ++ ys) (n + length ys))
        (skip_tlv (record p { skip = p.skip - length rest }) ys (length ys))
unfolding skip_tlv
tlv-Later p rest ys n h l =
    let total : length (rest ++ ys) ≡ length rest + length ys = length-append rest ys in
    let pos : ltb 0 p.skip ≡ true = ground arith in
    let pos' : ltb 0 (p.skip - length rest) ≡ true = ground arith in
    elim (Bool-cases (ltb (length ys) (p.skip - length rest))) [
      | inl t ↦
          let t' : ltb (length rest + length ys) p.skip ≡ true = ground (arith, t) in
          let s : p.skip - (length rest + length ys) ≡ p.skip - length rest - length ys =
            omega arith in
          let u : ltb 0 (p.skip - length rest - length ys) ≡ true = ground (arith, t) in
          rw (total, pos, pos', t, t', s, u) (refl, refl, omega arith)
      | inr f ↦
          let f' : ltb (length rest + length ys) p.skip ≡ false = ground (arith, f) in
          let s : p.skip - p.skip ≡ p.skip - length rest - (p.skip - length rest) = omega arith in
          let u : ltb 0 (p.skip - length rest - (p.skip - length rest)) ≡ false = ground arith in
          let c : n + length ys - (length rest + length ys) + p.skip
              ≡ n + (length ys - length ys + (p.skip - length rest)) =
            ground (arith, f) in
          rw (total, pos, pos', f, f', s, u, c) (finish_later _ n _)
    ]

-- The second piece goes on with what the first one has staged.
pub tlv_count :
    (p : ProxyV2) (rest : List ℕ) (n k : ℕ)
    → length rest ≤ k
    → Later n (skip_tlv p rest (n + k)) (skip_tlv p rest k)
unfolding skip_tlv proxy_v2_finish
tlv_count p rest n k h = elim (Bool-cases (ltb 0 p.skip)) [
  | inr z ↦ rw z (refl, refl, omega arith)
  | inl z ↦ elim (Bool-cases (ltb (length rest) p.skip)) [
    | inl t ↦
        let u : ltb 0 (p.skip - length rest) ≡ true = ground (arith, t) in
        rw (z, t, u) (refl, refl, omega arith)
    | inr f ↦
        let u : ltb 0 (p.skip - p.skip) ≡ false = ground arith in
        rw (z, f, u) (refl, refl, omega arith)
  ]
]

pub block_count :
    (p : ProxyV2) (rest : List ℕ) (n k : ℕ)
    → length rest ≤ k
    → Later n (consume_block p rest (n + k)) (consume_block p rest k)
unfolding consume_block
block_count p rest n k h =
    let short = stage-rest_le p.want p.buf rest in
    if2_elim (Later n) (ltb (length (stage p.want p.buf rest).0) p.want)
      (λ e. (refl, refl, omega (arith, h, short)))
      (λ e. tlv_count _ (stage p.want p.buf rest).1 n k (omega (arith, h, short)))

pub header_count :
    (p : ProxyV2) (rest : List ℕ) (n k : ℕ)
    → length rest ≤ k
    → Later n (consume_header p rest (n + k)) (consume_header p rest k)
unfolding consume_header
header_count p rest n k h =
    let failed : Later n (proxy_v2_fail p (n + k - length rest))
        (proxy_v2_fail p (k - length rest)) =
      (refl, refl, omega (arith, h)) in
    if2_elim (Later n) (not (bytes_eq (take 12 p.buf) proxy_v2_sig)) (λ e. failed)
      (λ e.
        if2_elim (Later n)
          (not (hdr_ver p.buf == 2)
            || not (hdr_cmd p.buf == 0 || hdr_cmd p.buf == 1)
            || ltb proxy_v2_len_max (hdr_blen p.buf))
          (λ e. failed)
          (λ e.
            if2_elim (Later n) (ltb (hdr_blen p.buf) (hdr_blk p.buf)) (λ e. failed)
              (λ e. block_count _ rest n k h)))

pub block-Later :
    (p : ProxyV2) (staged ys both : List ℕ) (n : ℕ)
    → stage p.want p.buf both ≡ stage p.want staged ys
    → Later n
        (consume_block p both (n + length ys))
        (consume_block (record p { buf = staged }) ys (length ys))
block-Later p staged ys both n e =
    let same : consume_block p both (n + length ys)
        ≡ consume_block (record p { buf = staged }) ys (n + length ys) =
      unfold consume_block in rw e refl in
    rw same (block_count (record p { buf = staged }) ys n (length ys) (omega arith))

-- A call on a parser that has not seen the whole header, after its first loop.
unfoldable pub header_step : ProxyV2 → List ℕ → List ℕ → ℕ → Result
header_step p staged rest n =
    let q = record p { buf = staged } in
    if ltb (length staged) 16 then (need_more, q, n - length rest) else consume_header q rest n

pub header_step_lem :
    (p : ProxyV2) (xs : List ℕ)
    → p.done ≡ false
    → p.hdr_ok ≡ false
    → proxy_v2_consume p xs ≡ header_step p (stage 16 p.buf xs).0 (stage 16 p.buf xs).1 (length xs)
unfolding proxy_v2_consume header_step
header_step_lem p xs d o = rw (d, o) refl

pub header_step-Later :
    (p : ProxyV2) (old staged rest : List ℕ) (n k : ℕ)
    → length rest ≤ k
    → Later n
        (header_step p staged rest (n + k))
        (header_step (record p { buf = old }) staged rest k)
unfolding header_step
header_step-Later p old staged rest n k h =
    if2_elim (Later n) (ltb (length staged) 16) (λ t. (refl, refl, omega (arith, h)))
      (λ f. header_count _ rest n k h)
