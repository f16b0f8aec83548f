-- ===== src/ProxyV2/Chunks.antt =====
-- apps/authd/proxy_v2.c: the parser does not see how the network has cut the preamble into pieces.
use mldsa_auth.Base.{
  Bool-cases, List, [], ap, arith, false, if2_elim, inl, inr, length, length-append, ltb, ltb→lt,
  not, refl, take, true, ℕ, ◌++◌, ◌+◌, ◌-◌, ◌<◌, ◌==◌, ◌||◌, ◌∙◌, ◌≡◌, ◌≤◌,
}
use mldsa_auth.Base.Bytes.{bytes_eq}
use mldsa_auth.ProxyV2.{
  ProxyStatus, ProxyV2, consume_block, consume_header, hdr_blen, hdr_blk, hdr_cmd, hdr_ver,
  need_more, proxy_v2_consume, proxy_v2_finish, proxy_v2_len_max, proxy_v2_sig, skip_tlv, stage,
}
use mldsa_auth.ProxyV2.Later.{
  Later, Result, block-Later, header_step, header_step-Later, header_step_lem, tlv-Later,
}
use mldsa_auth.ProxyV2.Stage.{
  length-stage, stage-append_full, stage-append_more, stage-rest_le, stage_full, stage_rest,
}

-- `r` is what a first piece of `n` bytes gave, `whole` what it gave together with a second piece.
pub data Continues (r : ProxyStatus × ProxyV2 × ℕ) (n : ℕ) (more : List ℕ)
    (whole : ProxyStatus × ProxyV2 × ℕ) : Type 0 where
  goes_on :
      r.1.done ≡ false
      → (r.0 ≡ need_more)
        × (r.2 ≡ n)
        × (whole.0 ≡ (proxy_v2_consume r.1 more).0)
        × (whole.1 ≡ (proxy_v2_consume r.1 more).1)
        × (whole.2 ≡ n + (proxy_v2_consume r.1 more).2)
      → Continues r n more whole
  settled : r.1.done ≡ true → whole ≡ r → Continues r n more whole

finished : (r : Result) (n : ℕ) (more : List ℕ) → r.1.done ≡ true → Continues r n more r
finished r n more h = settled h refl

finish-done : (p : ProxyV2) (used : ℕ) → (proxy_v2_finish p used).1.done ≡ true
unfolding proxy_v2_finish
finish-done p used = refl

block_open :
    (q : ProxyV2) (ys : List ℕ)
    → q.done ≡ false
    → q.hdr_ok ≡ true
    → proxy_v2_consume q ys ≡ consume_block q ys (length ys)
unfolding proxy_v2_consume
block_open q ys d h = rw (d, h) refl

block_full :
    (q : ProxyV2) (ys : List ℕ) (n : ℕ)
    → ltb (length q.buf) q.want ≡ false
    → consume_block q ys n ≡ skip_tlv q ys n
unfolding consume_block
block_full q ys n h = rw (stage_full q.want q.buf ys h, h) refl

-- What is left covers the TLV region.
tlv_done :
    (p : ProxyV2) (rest : List ℕ) (n : ℕ)
    → ltb (length rest) p.skip ≡ false
    → (skip_tlv p rest n).1.done ≡ true
unfolding skip_tlv
tlv_done p rest n f =
    let u : ltb 0 (p.skip - p.skip) ≡ false = ground arith in
    elim (Bool-cases (ltb 0 p.skip)) [
      | inl t ↦ rw (f, t, u) (finish-done _ _)
      | inr z ↦ rw (f, z) (finish-done _ _)
    ]

tlv_same :
    (p : ProxyV2) (rest ys : List ℕ) (n : ℕ)
    → length rest ≤ n
    → ltb (length rest) p.skip ≡ false
    → skip_tlv p (rest ++ ys) (n + length ys) ≡ skip_tlv p rest n
unfolding skip_tlv
tlv_same p rest ys n h f =
    let total : length (rest ++ ys) ≡ length rest + length ys = length-append rest ys in
    let f' : ltb (length rest + length ys) p.skip ≡ false = ground (arith, f) in
    let c : n + length ys - (length rest + length ys) ≡ n - length rest = omega arith in
    rw (total, f, f', c) refl

-- The TLV region, over a second piece, from a parser whose address block is staged.
tlv-Continues :
    (p : ProxyV2) (rest ys : List ℕ) (n : ℕ)
    → p.done ≡ false
    → p.hdr_ok ≡ true
    → ltb (length p.buf) p.want ≡ false
    → length rest ≤ n
    → Continues (skip_tlv p rest n) n ys (skip_tlv p (rest ++ ys) (n + length ys))
tlv-Continues p rest ys n d o full h = elim (Bool-cases (ltb (length rest) p.skip)) [
  | inl t ↦
      let l : length rest < p.skip = ltb→lt (length rest) p.skip t in
      let q : ProxyV2 = record p { skip = p.skip - length rest } in
      let first : skip_tlv p rest n ≡ (need_more, q, n) =
        (let pos : ltb 0 p.skip ≡ true = ground arith in
          let pos' : ltb 0 (p.skip - length rest) ≡ true = ground arith in
          let c : n - length rest + length rest ≡ n = omega arith in
          unfold skip_tlv in rw (pos, t, pos', c) refl) in
      let later = tlv-Later p rest ys n h l in
      let next : proxy_v2_consume q ys ≡ skip_tlv q ys (length ys) =
        block_open q ys d o ∙ block_full q ys (length ys) full in
      rw (first) (goes_on d (refl, refl, rw next later.0, rw next later.1, rw next later.2))
  | inr f ↦
      let same : skip_tlv p (rest ++ ys) (n + length ys) ≡ skip_tlv p rest n =
        tlv_same p rest ys n h f in
      rw same (finished (skip_tlv p rest n) n ys (tlv_done p rest n f))
]

-- The address block and what follows it.
block-Continues :
    (p : ProxyV2) (xs ys : List ℕ) (n : ℕ)
    → p.done ≡ false
    → p.hdr_ok ≡ true
    → length xs ≤ n
    → Continues (consume_block p xs n) n ys (consume_block p (xs ++ ys) (n + length ys))
block-Continues p xs ys n d o h =
    let staged = (stage p.want p.buf xs).0 in
    let rest = (stage p.want p.buf xs).1 in
    let q : ProxyV2 = record p { buf = staged } in
    let size = length-stage p.want p.buf xs in
    elim (Bool-cases (ltb (length staged) p.want)) [
      | inl t ↦
          let gone : rest ≡ [] = stage_rest p.want p.buf xs t in
          let first : consume_block p xs n ≡ (need_more, q, n) =
            unfold consume_block in rw (t, gone) (ap (λ k. (need_more, q, k)) (omega arith)) in
          let both = stage-append_more p.want p.buf xs ys t in
          let next : proxy_v2_consume q ys ≡ consume_block q ys (length ys) = block_open q ys d o in
          rw first (
            goes_on d (
              let later = block-Later p staged ys (xs ++ ys) n both in
              (refl, refl, rw next later.0, rw next later.1, rw next later.2)))
      | inr f ↦
          let first : consume_block p xs n ≡ skip_tlv q rest n =
            unfold consume_block in rw f refl in
          let both : consume_block p (xs ++ ys) (n + length ys)
              ≡ skip_tlv q (rest ++ ys) (n + length ys) =
            unfold consume_block in rw (stage-append_full p.want p.buf xs ys f, f) refl in
          rw (first, both)
            (tlv-Continues q rest ys n d o f (omega (arith, h, stage-rest_le p.want p.buf xs)))
    ]

header_later :
    (p : ProxyV2) (rest ys : List ℕ) (n : ℕ)
    → p.done ≡ false
    → length rest ≤ n
    → Continues (consume_header p rest n) n ys (consume_header p (rest ++ ys) (n + length ys))
unfolding consume_header
header_later p rest ys n d h =
    let same : n + length ys - length (rest ++ ys) ≡ n - length rest =
      omega (arith, length-append rest ys) in
    if2_elim (λ a b. Continues a n ys b) (not (bytes_eq (take 12 p.buf) proxy_v2_sig))
      (λ e. rw same (finished _ n ys refl))
      (λ e.
        if2_elim (λ a b. Continues a n ys b)
          (not (hdr_ver p.buf == 2)
            || not (hdr_cmd p.buf == 0 || hdr_cmd p.buf == 1)
            || ltb proxy_v2_len_max (hdr_blen p.buf))
          (λ e. rw same (finished _ n ys refl))
          (λ e.
            if2_elim (λ a b. Continues a n ys b) (ltb (hdr_blen p.buf) (hdr_blk p.buf))
              (λ e. rw same (finished _ n ys refl)) (λ e. block-Continues _ rest ys n d refl h)))

header_open :
    (p : ProxyV2) (xs : List ℕ)
    → p.done ≡ false
    → p.hdr_ok ≡ false
    → ltb (length (stage 16 p.buf xs).0) 16 ≡ false
    → proxy_v2_consume p xs
      ≡ consume_header (record p { buf = (stage 16 p.buf xs).0 }) (stage 16 p.buf xs).1 (length xs)
unfolding proxy_v2_consume
header_open p xs d o f = rw (d, o, f) refl

resumed :
    (p : ProxyV2) (old ys both : List ℕ) (n : ℕ)
    → p.done ≡ false
    → p.hdr_ok ≡ false
    → length both ≡ n + length ys
    → stage 16 p.buf both ≡ stage 16 old ys
    → Later n (proxy_v2_consume p both) (proxy_v2_consume (record p { buf = old }) ys)
resumed p old ys both n d o total e =
    rw (header_step_lem p both d o, header_step_lem (record p { buf = old }) ys d o, total, e)
      (header_step-Later p old _ _ n (length ys) (stage-rest_le 16 old ys))

-- The first piece ends in the header.
short_header :
    (p : ProxyV2) (xs ys : List ℕ)
    → p.done ≡ false
    → p.hdr_ok ≡ false
    → ltb (length (stage 16 p.buf xs).0) 16 ≡ true
    → Continues (proxy_v2_consume p xs) (length xs) ys (proxy_v2_consume p (xs ++ ys))
short_header p xs ys d o t =
    let q : ProxyV2 = record p { buf = (stage 16 p.buf xs).0 } in
    let gone = stage_rest 16 p.buf xs t in
    let first : proxy_v2_consume p xs ≡ (need_more, q, length xs) =
      header_step_lem p xs d o
      ∙ (unfold header_step in rw (t, gone) (ap (λ k. (need_more, q, k)) (omega arith))) in
    let later =
      resumed p (stage 16 p.buf xs).0 ys (xs ++ ys) (length xs) d o (length-append xs ys)
        (stage-append_more 16 p.buf xs ys t) in
    rw first (goes_on d ((refl, refl, later.0, later.1, later.2)))

-- Cutting a call's bytes into two calls changes nothing: after a first piece that does not complete the
-- preamble, all of it is taken and the second piece gives the verdict, the state and (with the
-- first piece's length) the count that both give at once; after one that does, the second piece
-- is not looked at.
pub consume-Continues :
    (p : ProxyV2) (xs ys : List ℕ)
    → Continues (proxy_v2_consume p xs) (length xs) ys (proxy_v2_consume p (xs ++ ys))
consume-Continues p xs ys = elim (Bool-cases p.done) [
  | inl d ↦
      let all : (zs : List ℕ) → proxy_v2_consume p zs ≡ (p.result, p, 0) =
        λ zs. unfold proxy_v2_consume in rw d refl in
      rw (all xs, all (xs ++ ys)) (finished _ (length xs) ys d)
  | inr d ↦
      let total = length-append xs ys in
      elim (Bool-cases p.hdr_ok) [
        | inl o ↦
            rw (block_open p xs d o, block_open p (xs ++ ys) d o, total)
              (block-Continues p xs ys (length xs) d o (omega arith))
        | inr o ↦ elim (Bool-cases (ltb (length (stage 16 p.buf xs).0) 16)) [
          | inl t ↦ short_header p xs ys d o t
          | inr f ↦
              let q : ProxyV2 = record p { buf = (stage 16 p.buf xs).0 } in
              let both : proxy_v2_consume p (xs ++ ys)
                  ≡ consume_header q ((stage 16 p.buf xs).1 ++ ys) (length (xs ++ ys)) =
                unfold proxy_v2_consume in rw (d, o, stage-append_full 16 p.buf xs ys f, f) refl in
              rw (header_open p xs d o f, both, total)
                (header_later q (stage 16 p.buf xs).1 ys (length xs) d (stage-rest_le 16 p.buf xs))
        ]
      ]
]
