-- ===== src/ProxyV2/Tests.antt =====
-- Preambles for the parser of apps/authd/proxy_v2.c, and what it makes of them.
use mldsa_auth.Base.{List, [], drop, refl, take, ℕ, ◌++◌, ◌∷◌, ◌≡◌}
use mldsa_auth.Base.Bytes.{blit, byte_at, bytes_eq}
use mldsa_auth.ProxyV2.{
  accepted, addr_block_len, consume_block, consume_header, proxy_v2_consume, proxy_v2_finish,
  proxy_v2_init, proxy_v2_sig, settle, skip_tlv, stage,
}
use mldsa_auth.ProxyV2.Accept.{IsPreamble, accepted-IsPreamble}
use mldsa_auth.ProxyV2.Chunks.{Continues, consume-Continues}

-- PROXY over IPv4 from 10.0.0.1, then two bytes of the client.
abbrev preamble_4 : List ℕ
preamble_4 =
    proxy_v2_sig
    ++ 33 ∷ 17 ∷ 0 ∷ 13 ∷ 10 ∷ 0 ∷ 0 ∷ 1 ∷ 192 ∷ 168 ∷ 0 ∷ 1 ∷ 4 ∷ 210 ∷ 0 ∷ 80 ∷ 9 ∷ 71 ∷ 69 ∷ []

accepts : (proxy_v2_consume proxy_v2_init preamble_4).0 ≡ accepted
unfolding proxy_v2_consume consume_header consume_block skip_tlv proxy_v2_finish settle stage
    addr_block_len take drop bytes_eq byte_at blit
accepts = refl

takes_29 : (proxy_v2_consume proxy_v2_init preamble_4).2 ≡ 29
unfolding proxy_v2_consume consume_header consume_block skip_tlv proxy_v2_finish settle stage
    addr_block_len take drop bytes_eq byte_at blit
takes_29 = refl

accepted-IsPreamble_example : IsPreamble preamble_4 (proxy_v2_consume proxy_v2_init preamble_4)
accepted-IsPreamble_example = accepted-IsPreamble preamble_4 accepts

consume-Continues_example :
    Continues
      (proxy_v2_consume proxy_v2_init (13 ∷ 10 ∷ []))
      2
      (13 ∷ 10 ∷ 0 ∷ [])
      (proxy_v2_consume proxy_v2_init (13 ∷ 10 ∷ 13 ∷ 10 ∷ 0 ∷ []))
consume-Continues_example = consume-Continues proxy_v2_init (13 ∷ 10 ∷ []) (13 ∷ 10 ∷ 0 ∷ [])
