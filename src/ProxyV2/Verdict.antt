-- ===== src/ProxyV2/Verdict.antt =====
-- What each part of `proxy_v2_consume` of apps/authd/proxy_v2.c has seen when it ends in PROXY_V2_OK.
use mldsa_auth.Base.{
  Bool-cases, List, ap, arith, drop, false, if2_elim, if_elim, if◌then◌else◌, inl, inr, length,
  length-append, length-drop, length-take, ltb, not, refl, sym, take, true, ℕ, ◌++◌, ◌+◌, ◌-◌, ◌==◌,
  ◌||◌, ◌∙◌, ◌≡◌, ◌≤◌, ◌⊎◌,
}
use mldsa_auth.Base.Bytes.{blit, bytes_eq, eq_of_bytes_eq}
use mldsa_auth.ProxyV2.{
  ProxyStatus, ProxyV2, accepted, addr_block_len, consume_block, consume_header, hdr_blen, hdr_blk,
  hdr_cmd, hdr_fam, hdr_ver, need_more, proxy_v2_finish, proxy_v2_hdr_len, proxy_v2_len_max,
  proxy_v2_sig, settle, skip_tlv, stage,
}
use mldsa_auth.ProxyV2.Stage.{stage_lem}

-- The verdict and the address do not hang on what is left to skip.
settle_skip :
    (p : ProxyV2) (k : ℕ)
    → ((settle (record p { skip = k })).0 ≡ (settle p).0)
      × ((settle (record p { skip = k })).1.client ≡ (settle p).1.client)
unfolding settle
settle_skip p k =
    let Same : ProxyStatus × ProxyV2 → ProxyStatus × ProxyV2 → Type 0 =
      λ a b. (a.0 ≡ b.0) × (a.1.client ≡ b.1.client) in
    if2_elim Same (hdr_cmd p.buf == 0) (λ e. (refl, refl))
      (λ e.
        if2_elim Same (hdr_fam p.buf == 1) (λ e. (refl, refl))
          (λ e. if2_elim Same (hdr_fam p.buf == 2) (λ e. (refl, refl)) (λ e. (refl, refl))))

-- What is known once a call has accepted, from the TLV region on.
abbrev pub AcceptsBy : ProxyV2 → List ℕ → ℕ → ProxyStatus × ProxyV2 × ℕ → Type 0
AcceptsBy p rest n r =
    r.0 ≡ accepted
    → (p.skip ≤ length rest)
      × (r.2 ≡ n - length rest + p.skip)
      × ((settle p).0 ≡ accepted)
      × (r.1.client ≡ (settle p).1.client)

pub tlv-AcceptsBy : (p : ProxyV2) (rest : List ℕ) (n : ℕ) → AcceptsBy p rest n (skip_tlv p rest n)
unfolding skip_tlv proxy_v2_finish
tlv-AcceptsBy p rest n =
    if_elim (AcceptsBy p rest n) (ltb 0 p.skip)
      (λ z.
        if_elim
          (λ took. AcceptsBy p rest n (
            if ltb 0 (p.skip - took)
            then (need_more, record p { skip = p.skip - took }, n - length rest + took)
            else proxy_v2_finish (record p { skip = p.skip - took }) (n - length rest + took)))
          (ltb (length rest) p.skip)
          (λ t.
            if_elim (AcceptsBy p rest n) (ltb 0 (p.skip - length rest)) (λ u h. absurd (cc))
              (λ u h. absurd (ground (arith, t, u))))
          (λ f.
            if_elim (AcceptsBy p rest n) (ltb 0 (p.skip - p.skip)) (λ u h. absurd (cc))
              (λ u h.
                let same = settle_skip p (p.skip - p.skip) in
                (ground (arith, f), refl, sym same.0 ∙ h, same.1))))
      (λ z h. (ground (arith, z), ground (arith, z), h, refl))

pub block-accepts :
    (p : ProxyV2) (rest : List ℕ) (n k : ℕ)
    → length p.buf ≡ 16
    → p.want ≡ 16 + k
    → length rest ≤ n
    → (consume_block p rest n).0 ≡ accepted
    → (k + p.skip ≤ length rest)
      × ((consume_block p rest n).2 ≡ n - length rest + k + p.skip)
      × ((settle (record p { buf = p.buf ++ take k rest })).0 ≡ accepted)
      × ((consume_block p rest n).1.client
          ≡ (settle (record p { buf = p.buf ++ take k rest })).1.client)
unfolding consume_block
block-accepts p rest n k size want h a =
    let missing : p.want - length p.buf ≡ k = omega arith in
    let staged : stage p.want p.buf rest ≡ (p.buf ++ take k rest, drop k rest) =
      stage_lem p.want p.buf rest (omega arith)
      ∙ ap (λ m. (p.buf ++ take m rest, drop m rest)) missing in
    let left = length-drop k rest in
    let all = length-append p.buf (take k rest) in
    let got = length-take k rest in
    let q : ProxyV2 = record p { buf = p.buf ++ take k rest } in
    elim (Bool-cases (ltb (length (p.buf ++ take k rest)) p.want)) [
      | inl t ↦
          let e : consume_block p rest n ≡ (need_more, q, n - length (drop k rest)) =
            unfold consume_block in rw (staged, t) refl in
          let clash : need_more ≡ accepted =
            sym (ap (λ (r : ProxyStatus × ProxyV2 × ℕ). r.0) e) ∙ a in
          absurd (cc)
      | inr f ↦
          let e : consume_block p rest n ≡ skip_tlv q (drop k rest) n =
            unfold consume_block in rw (staged, f) refl in
          let (room, count, st, who) =
            tlv-AcceptsBy q (drop k rest) n
              (sym (ap (λ (r : ProxyStatus × ProxyV2 × ℕ). r.0) e) ∙ a) in
          let enough : k ≤ length rest = ground (arith, f, all, got) in
          (
            omega (arith, room, left, enough),
            ap (λ (r : ProxyStatus × ProxyV2 × ℕ). r.2) e ∙ omega (arith, count, left, enough, h),
            st,
            ap (λ (r : ProxyStatus × ProxyV2 × ℕ). r.1.client) e ∙ who,
          )
    ]

pub settle-accepts :
    (p : ProxyV2)
    → (settle p).0 ≡ accepted
    → ((hdr_cmd p.buf == 0) ≡ false)
      × (((hdr_fam p.buf ≡ 1)
            × ((settle p).1.client
                ≡ record { family = 4; addr = blit p.client.addr (take 4 (drop 16 p.buf)) }))
          ⊎ ((hdr_fam p.buf ≡ 2)
              × ((settle p).1.client
                  ≡ record { family = 6; addr = blit p.client.addr (take 16 (drop 16 p.buf)) })))
unfolding settle
settle-accepts p =
    let Says : ProxyStatus × ProxyV2 → Type 0 = λ r.
      r.0 ≡ accepted
      → ((hdr_cmd p.buf == 0) ≡ false)
        × (((hdr_fam p.buf ≡ 1)
              × (r.1.client
                  ≡ record { family = 4; addr = blit p.client.addr (take 4 (drop 16 p.buf)) }))
            ⊎ ((hdr_fam p.buf ≡ 2)
                × (r.1.client ≡ record {
                  family = 6;
                  addr = blit p.client.addr (take 16 (drop 16 p.buf));
                }))) in
    if_elim Says (hdr_cmd p.buf == 0) (λ e h. absurd (cc))
      (λ c.
        if_elim Says (hdr_fam p.buf == 1) (λ e h. (c, inl (ground (arith, e), refl)))
          (λ e.
            if_elim Says (hdr_fam p.buf == 2) (λ e h. (c, inr (ground (arith, e), refl)))
              (λ e h. absurd (cc))))

-- The header is not refused, and the rest of the call is that of the parser it sets up.
abbrev pub after_header : ProxyV2 → ProxyV2
after_header p = record p {
  want = proxy_v2_hdr_len + hdr_blk p.buf;
  skip = hdr_blen p.buf - hdr_blk p.buf;
  hdr_ok = true;
}

header_tests :
    (ver cmd len : ℕ)
    → (not (ver == 2) || not (cmd == 0 || cmd == 1) || ltb 1024 len) ≡ false
    → (ver ≡ 2) × ((cmd ≡ 0) ⊎ (cmd ≡ 1)) × (len ≤ 1024)
header_tests ver cmd len h = ground arith

pub header-accepts :
    (p : ProxyV2) (rest : List ℕ) (n : ℕ)
    → (consume_header p rest n).0 ≡ accepted
    → (take 12 p.buf ≡ proxy_v2_sig)
      × (hdr_ver p.buf ≡ 2)
      × ((hdr_cmd p.buf ≡ 0) ⊎ (hdr_cmd p.buf ≡ 1))
      × (hdr_blen p.buf ≤ 1024)
      × (hdr_blk p.buf ≤ hdr_blen p.buf)
      × (consume_header p rest n ≡ consume_block (after_header p) rest n)
unfolding consume_header
header-accepts p rest n =
    let Says : ProxyStatus × ProxyV2 × ℕ → Type 0 = λ r.
      r.0 ≡ accepted
      → (take 12 p.buf ≡ proxy_v2_sig)
        × (hdr_ver p.buf ≡ 2)
        × ((hdr_cmd p.buf ≡ 0) ⊎ (hdr_cmd p.buf ≡ 1))
        × (hdr_blen p.buf ≤ 1024)
        × (hdr_blk p.buf ≤ hdr_blen p.buf)
        × (r ≡ consume_block (after_header p) rest n) in
    if_elim Says (not (bytes_eq (take 12 p.buf) proxy_v2_sig)) (λ e h. absurd (cc))
      (λ s.
        if_elim Says
          (not (hdr_ver p.buf == 2)
            || not (hdr_cmd p.buf == 0 || hdr_cmd p.buf == 1)
            || ltb proxy_v2_len_max (hdr_blen p.buf))
          (λ e h. absurd (cc))
          (λ v.
            if_elim Says (ltb (hdr_blen p.buf) (hdr_blk p.buf)) (λ e h. absurd (cc))
              (λ b h.
                let tests = header_tests (hdr_ver p.buf) (hdr_cmd p.buf) (hdr_blen p.buf) v in
                (
                  eq_of_bytes_eq (take 12 p.buf) proxy_v2_sig (ground (arith, s)),
                  tests.0,
                  tests.1,
                  tests.2,
                  ground (arith, b),
                  refl,
                ))))

pub hdr_blk-4 : (buf : List ℕ) → (hdr_cmd buf ≡ 1) → (hdr_fam buf ≡ 1) → hdr_blk buf ≡ 12
unfolding addr_block_len
hdr_blk-4 buf c f = rw (c, f) refl

pub hdr_blk-6 : (buf : List ℕ) → (hdr_cmd buf ≡ 1) → (hdr_fam buf ≡ 2) → hdr_blk buf ≡ 36
unfolding addr_block_len
hdr_blk-6 buf c f = rw (c, f) refl
