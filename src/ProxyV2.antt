-- ===== src/ProxyV2.antt =====
-- The PROXY protocol v2 preamble of apps/authd/proxy_v2.h and proxy_v2.c, and the address key that
-- the rate limiter uses. `buf` is the part of the staging array that is filled, so `have` is its
-- length; the array is zero behind it. The count in `*used` is the third part of a result.
pub mod Stage
pub mod Later
pub mod Chunks
pub mod Verdict
pub mod Accept
mod Tests
use mldsa_auth.Base.{
  Bool, List, [], drop, false, if◌then◌else◌, length, ltb, not, take, true, ℕ, ◌%◌, ◌*◌, ◌++◌, ◌+◌,
  ◌-◌, ◌/◌, ◌==◌, ◌^◌, ◌||◌, ◌∷◌,
}
use mldsa_auth.Base.Bytes.{blit, byte_at, bytes_eq, zeros}

abbrev pub proxy_v2_hdr_len : ℕ
proxy_v2_hdr_len = 16

abbrev pub proxy_v2_addr_max : ℕ
proxy_v2_addr_max = 216

abbrev pub proxy_v2_len_max : ℕ
proxy_v2_len_max = 1024

-- `PROXY_V2_SIG`
abbrev pub proxy_v2_sig : List ℕ
proxy_v2_sig = 13 ∷ 10 ∷ 13 ∷ 10 ∷ 0 ∷ 13 ∷ 10 ∷ 81 ∷ 85 ∷ 73 ∷ 84 ∷ 10 ∷ []

-- `authd_addr_t`; family 0 is no address.
pub record AuthdAddr : Type 0 where
  pub family : ℕ
  pub addr : List ℕ

-- `proxy_v2_status_t`
pub data ProxyStatus : Type 0 where
  need_more accepted no_addr err : ProxyStatus

-- `proxy_v2_t`
pub record ProxyV2 : Type 0 where
  pub buf : List ℕ
  pub want : ℕ
  pub skip : ℕ
  pub hdr_ok : Bool
  pub done : Bool
  pub result : ProxyStatus
  pub client : AuthdAddr

abbrev pub proxy_v2_init : ProxyV2
proxy_v2_init = record {
  buf = [];
  want = proxy_v2_hdr_len;
  skip = 0;
  hdr_ok = false;
  done = false;
  result = need_more;
  client = record { family = 0; addr = zeros 16 };
}

-- The key, of the length that the code returns; no key for an address that is not there.
unfoldable pub authd_addr_key : AuthdAddr → List ℕ
authd_addr_key a =
    if a.family == 4 then take 4 a.addr else if a.family == 6 then take 8 a.addr else []

abbrev pub be16 : ℕ → ℕ → ℕ
be16 hi lo = (hi * 256 + lo) % 2 ^ 16

unfoldable pub addr_block_len : ℕ → ℕ
addr_block_len fam = if fam == 1 then 12 else if fam == 2 then 36 else if fam == 3 then 216 else 0

abbrev pub proxy_v2_fail : ProxyV2 → ℕ → ProxyStatus × ProxyV2 × ℕ
proxy_v2_fail p used = (err, record p { done = true; result = err }, used)

abbrev pub hdr_ver : List ℕ → ℕ
hdr_ver buf = byte_at buf 12 / 16

abbrev pub hdr_cmd : List ℕ → ℕ
hdr_cmd buf = byte_at buf 12 % 16

abbrev pub hdr_fam : List ℕ → ℕ
hdr_fam buf = byte_at buf 13 / 16

abbrev pub hdr_blen : List ℕ → ℕ
hdr_blen buf = be16 (byte_at buf 14) (byte_at buf 15)

-- The address block that the header announces.
abbrev pub hdr_blk : List ℕ → ℕ
hdr_blk buf = if hdr_cmd buf == 1 then addr_block_len (hdr_fam buf) else 0

unfoldable pub settle : ProxyV2 → ProxyStatus × ProxyV2
settle p =
    if hdr_cmd p.buf == 0
    then (no_addr, p)
    else if hdr_fam p.buf == 1
    then (
      accepted,
      record p {
        client = record {
          family = 4;
          addr = blit p.client.addr (take 4 (drop proxy_v2_hdr_len p.buf));
        };
      },
    )
    else if hdr_fam p.buf == 2
    then (
      accepted,
      record p {
        client = record {
          family = 6;
          addr = blit p.client.addr (take 16 (drop proxy_v2_hdr_len p.buf));
        };
      },
    )
    else (no_addr, p)

-- The loop `while (have < bound && i < n)`: what is staged after it, and the data that is left.
unfoldable pub stage : ℕ → List ℕ → List ℕ → List ℕ × List ℕ
stage bound buf [] = (buf, [])
stage bound buf (b ∷ input) =
    let more = stage bound (buf ++ b ∷ []) input in
    if ltb (length buf) bound then more else (buf, b ∷ input)

-- The end of `proxy_v2_consume`.
unfoldable pub proxy_v2_finish : ProxyV2 → ℕ → ProxyStatus × ProxyV2 × ℕ
proxy_v2_finish p used = let (st, q) = settle p in (st, record q { done = true; result = st }, used)

-- The TLV region. `n` is the length of all the data of the call, `rest` what is left of it.
unfoldable pub skip_tlv : ProxyV2 → List ℕ → ℕ → ProxyStatus × ProxyV2 × ℕ
skip_tlv p rest n =
    let avail = length rest in
    let took = if ltb avail p.skip then avail else p.skip in
    let q = record p { skip = p.skip - took } in
    if ltb 0 p.skip
    then (if ltb 0 q.skip
        then (need_more, q, n - avail + took)
        else proxy_v2_finish q (n - avail + took))
    else proxy_v2_finish p (n - avail)

-- From the address block on.
unfoldable pub consume_block : ProxyV2 → List ℕ → ℕ → ProxyStatus × ProxyV2 × ℕ
consume_block p input n =
    let (staged, rest) = stage p.want p.buf input in
    let q = record p { buf = staged } in
    if ltb (length staged) p.want then (need_more, q, n - length rest) else skip_tlv q rest n

-- The header that is staged in `buf`, refused or accepted.
unfoldable pub consume_header : ProxyV2 → List ℕ → ℕ → ProxyStatus × ProxyV2 × ℕ
consume_header p rest n =
    if not (bytes_eq (take 12 p.buf) proxy_v2_sig)
    then proxy_v2_fail p (n - length rest)
    else if not (hdr_ver p.buf == 2)
        || not (hdr_cmd p.buf == 0 || hdr_cmd p.buf == 1)
        || ltb proxy_v2_len_max (hdr_blen p.buf)
    then proxy_v2_fail p (n - length rest)
    else if ltb (hdr_blen p.buf) (hdr_blk p.buf)
    then proxy_v2_fail p (n - length rest)
    else consume_block
        (record p {
          want = proxy_v2_hdr_len + hdr_blk p.buf;
          skip = hdr_blen p.buf - hdr_blk p.buf;
          hdr_ok = true;
        })
        rest n

unfoldable pub proxy_v2_consume : ProxyV2 → List ℕ → ProxyStatus × ProxyV2 × ℕ
proxy_v2_consume p input =
    let (staged, rest) = stage proxy_v2_hdr_len p.buf input in
    let q = record p { buf = staged } in
    if p.done
    then (p.result, p, 0)
    else if p.hdr_ok
    then consume_block p input (length input)
    else if ltb (length staged) proxy_v2_hdr_len
    then (need_more, q, length input - length rest)
    else consume_header q rest (length input)
