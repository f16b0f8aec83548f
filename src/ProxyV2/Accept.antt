-- ===== src/ProxyV2/Accept.antt =====
-- apps/authd/proxy_v2.c: what a preamble that is accepted says.
use mldsa_auth.Base.{
  Bool-cases, List, [], ap, append-nil, arith, drop, drop-append, inl, inr, length, length-drop,
  length-take, ltb, refl, replicate, subst, sym, take, ℕ, ◌++◌, ◌+◌, ◌-◌, ◌/◌, ◌<◌, ◌∙◌, ◌≡◌, ◌≤◌,
  ◌⊎◌,
}
use mldsa_auth.Base.Bytes.{blit, byte_at, byte_at-append, byte_at-take, take-take, zeros}
use mldsa_auth.ProxyV2.{
  AuthdAddr, ProxyStatus, ProxyV2, accepted, be16, consume_block, consume_header, hdr_blen, hdr_blk,
  hdr_cmd, hdr_fam, need_more, proxy_v2_consume, proxy_v2_init, proxy_v2_sig, stage,
}
use mldsa_auth.ProxyV2.Stage.{stage_lem}
use mldsa_auth.ProxyV2.Verdict.{
  after_header, block-accepts, hdr_blk-4, hdr_blk-6, header-accepts, settle-accepts,
}

-- The address that `who` is, of a family and behind the header.
abbrev IsClient : List ℕ → ℕ → AuthdAddr → Type 0
IsClient rest fam who =
    ((fam ≡ 1) × (who ≡ record { family = 4; addr = take 4 rest ++ zeros 12 }))
    ⊎ ((fam ≡ 2) × (who ≡ record { family = 6; addr = take 16 rest }))

-- What an accepted preamble says: the signature, version 2 and the command PROXY, a body within its
-- bound that is all there and all taken, and the client's address behind the header.
pub record IsPreamble (input : List ℕ) (r : ProxyStatus × ProxyV2 × ℕ) : Type 0 where
  pub sig : take 12 input ≡ proxy_v2_sig
  pub command : byte_at input 12 ≡ 33
  pub used : r.2 ≡ 16 + be16 (byte_at input 14) (byte_at input 15)
  pub bounded : r.2 ≤ 1040
  pub within : r.2 ≤ length input
  pub client : IsClient (drop 16 input) (byte_at input 13 / 16) r.1.client

-- The first bytes behind the header, where the address block holds them.
block_bytes :
    (buf rest : List ℕ) (m k : ℕ)
    → length buf ≡ 16
    → m ≤ k
    → take m (drop 16 (buf ++ take k rest)) ≡ take m rest
block_bytes buf rest m k size le =
    rw (drop-append 16 buf (take k rest) size) (take-take m k rest le)

blit_4 : (xs : List ℕ) → length xs ≡ 4 → blit (zeros 16) xs ≡ xs ++ zeros 12
unfolding blit
blit_4 xs h = rw h (unfold drop replicate in refl)

blit_16 : (xs : List ℕ) → length xs ≡ 16 → blit (zeros 16) xs ≡ xs
unfolding blit
blit_16 xs h = rw h (unfold drop replicate in append-nil xs)

abbrev Settled : List ℕ → AuthdAddr → Type 0
Settled buf who =
    ((hdr_fam buf ≡ 1)
      × (who ≡ record { family = 4; addr = blit (zeros 16) (take 4 (drop 16 buf)) }))
    ⊎ ((hdr_fam buf ≡ 2)
        × (who ≡ record { family = 6; addr = blit (zeros 16) (take 16 (drop 16 buf)) }))

IsClient-of :
    (hdr rest : List ℕ) (who : AuthdAddr)
    → length hdr ≡ 16
    → hdr_cmd hdr ≡ 1
    → hdr_blk hdr ≤ length rest
    → byte_at (hdr ++ take (hdr_blk hdr) rest) 13 ≡ byte_at hdr 13
    → Settled (hdr ++ take (hdr_blk hdr) rest) who
    → IsClient rest (hdr_fam hdr) who
IsClient-of hdr rest who size cmd room same (inl (f, e)) =
    let fam : hdr_fam hdr ≡ 1 = omega (arith, same, f) in
    let k : hdr_blk hdr ≡ 12 = hdr_blk-4 hdr cmd fam in
    let first : take 4 (drop 16 (hdr ++ take (hdr_blk hdr) rest)) ≡ take 4 rest =
      block_bytes hdr rest 4 (hdr_blk hdr) size (omega (arith, k)) in
    let four : length (take 4 rest) ≡ 4 = omega (arith, length-take 4 rest, room, k) in
    inl (
      fam,
      e
          ∙ ap (λ a. record { family = 4; addr = a })
              (ap (blit (zeros 16)) first ∙ blit_4 (take 4 rest) four),
    )
IsClient-of hdr rest who size cmd room same (inr (f, e)) =
    let fam : hdr_fam hdr ≡ 2 = omega (arith, same, f) in
    let k : hdr_blk hdr ≡ 36 = hdr_blk-6 hdr cmd fam in
    let first : take 16 (drop 16 (hdr ++ take (hdr_blk hdr) rest)) ≡ take 16 rest =
      block_bytes hdr rest 16 (hdr_blk hdr) size (omega (arith, k)) in
    let all : length (take 16 rest) ≡ 16 = omega (arith, length-take 16 rest, room, k) in
    inr (
      fam,
      e
          ∙ ap (λ a. record { family = 6; addr = a })
              (ap (blit (zeros 16)) first ∙ blit_16 (take 16 rest) all),
    )

client_step :
    (buf : List ℕ) (who who' : AuthdAddr) → who ≡ who' → Settled buf who' → Settled buf who
client_step buf who who' e (inl (f, g)) = inl (f, e ∙ g)
client_step buf who who' e (inr (f, g)) = inr (f, e ∙ g)

-- A preamble that a fresh parser accepts in one call has the signature, version 2 and the command
-- PROXY, announces a body of at most 1024 bytes, which is all there, and is taken with that body and no
-- byte more; the client's address is the one behind its header, IPv4 or IPv6 as its family says.
pub accepted-IsPreamble :
    (input : List ℕ)
    → (proxy_v2_consume proxy_v2_init input).0 ≡ accepted
    → IsPreamble input (proxy_v2_consume proxy_v2_init input)
accepted-IsPreamble input a =
    let hdr = take 16 input in
    let rest = drop 16 input in
    let p : ProxyV2 = record proxy_v2_init { buf = hdr } in
    let staged : stage 16 [] input ≡ (hdr, rest) = stage_lem 16 [] input (omega arith) in
    elim (Bool-cases (ltb (length hdr) 16)) [
      | inl t ↦
          let e : proxy_v2_consume proxy_v2_init input
              ≡ (need_more, p, length input - length rest) =
            unfold proxy_v2_consume in rw (staged, t) refl in
          let clash : need_more ≡ accepted = rw e at a in absurd (cc)
      | inr f ↦
          let size : length hdr ≡ 16 = ground (arith, f, length-take 16 input) in
          let left : length rest + 16 ≡ length input =
            ground (arith, f, length-take 16 input, length-drop 16 input) in
          let e : proxy_v2_consume proxy_v2_init input ≡ consume_header p rest (length input) =
            unfold proxy_v2_consume in rw (staged, f) refl in
          let (sig, ver, cmd, len, blk, e') = header-accepts p rest (length input) (rw e at a) in
          let (room, count, st, who) =
            block-accepts (after_header p) rest (length input) (hdr_blk hdr) size refl (omega arith)
              (rw (e, e') at a) in
          let h = λ (i : ℕ) (l : i < 16). byte_at-take 16 i input l in
          let w = λ (i : ℕ) (l : i < 16).
            byte_at-append i hdr (take (hdr_blk hdr) rest) (omega (arith, size, l)) ∙ h i l in
          let (c0, fam) = settle-accepts _ st in
          let cmd1 : hdr_cmd hdr ≡ 1 =
            ground (arith, cmd, c0, h 12 (omega arith), w 12 (omega arith)) in
          let total : (consume_block (after_header p) rest (length input)).2 ≡ 16 + hdr_blen hdr =
            omega (arith, count, left, blk) in
          rw (e, e')
            (record {
              sig = sym (take-take 12 16 input (omega arith)) ∙ sig;
              command = omega (arith, ver, cmd1, h 12 (omega arith));
              used = total ∙ rw (h 14 (omega arith), h 15 (omega arith)) refl;
              bounded = omega (arith, total, len);
              within = omega (arith, total, room, left, blk);
              client =
                  subst
                    (λ b.
                      IsClient rest (b / 16)
                        (consume_block (after_header p) rest (length input)).1.client)
                    (h 13 (omega arith))
                    (IsClient-of hdr rest _ size cmd1 (omega (arith, room))
                      (byte_at-append 13 hdr (take (hdr_blk hdr) rest) (omega (arith, size)))
                      (client_step _ _ _ who fam));
            })
    ]
