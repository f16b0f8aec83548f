-- ===== src/Session/RoundTrip.antt =====
-- `session_open` of src/protocol/session.c undoes `session_seal` of the peer.
use mldsa_auth.Base.{
  List, [], append_assoc, arith, drop, drop-append, false, if◌then◌else◌, length, length-append,
  length-replicate, ltb, ltb-false, refl, replicate, some, some_inj, sym, take, take-append, true,
  ℕ, ◌%◌, ◌++◌, ◌+◌, ◌-◌, ◌<◌, ◌^◌, ◌∙◌, ◌∷◌, ◌≡◌, ◌≤◌,
}
use mldsa_auth.Base.Bytes.{all_zero-replicate, bytes_eq_refl}
use mldsa_auth.Crypto.Aead.{Aead, IsAead, aead_decrypt, aead_encrypt, aead_tag_bytes}
use mldsa_auth.Pending.Cell.{live}
use mldsa_auth.Session.{
  Outcome, Session, build_ad, build_nonce, inner_len_for, is_active, is_initiator, limits_valid,
  load_be16, load_be64, ok, ranges_overlap, recv_key, send_key, session_age_ms,
  session_content_len_bytes, session_header_bytes, session_max_content_bytes,
  session_max_plaintext_bytes, session_max_record_bytes, session_min_record_bytes,
  session_overhead_bytes, session_record_type, session_sealed_len, store_be16, store_be64,
}
use mldsa_auth.Session.Numbers.{
  length-store_be16, length-store_be64, load_be16-store_be16, load_be64-store_be64,
}
use mldsa_auth.Session.Open.{OpenChecks, body, open_checked, writable}
use mldsa_auth.Session.Padding.{inner_len_for-Padded, limits_bound}
use mldsa_auth.Session.Records.{open_finish, open_inner, padded_inner, session_open, session_seal}
use mldsa_auth.Session.Seal.{
  SealChecks, reserved, seal_checked, seal_checks, seal_finish_done, seal_finish_ok, sealed_len_lem,
  sealed_text,
}

-- The sender's next record is the one that the receiver expects.
pub record InSync (s r : Session) : Type 0 where
  pub key : send_key s ≡ recv_key r
  pub handshake : s.handshake_id ≡ r.handshake_id
  pub direction : s.send_dir ≡ r.recv_dir
  pub seq : s.send_seq ≡ r.recv_seq

length-padded_inner :
    (pt : List ℕ) (n : ℕ)
    → length pt + session_content_len_bytes ≤ n
    → length (padded_inner pt n) ≡ n
unfolding padded_inner
length-padded_inner pt n h =
    let pad = n - (session_content_len_bytes + length pt) in
    omega (
      arith,
      length-append (store_be16 (length pt)) (pt ++ replicate {A = ℕ} pad 0),
      length-append pt (replicate {A = ℕ} pad 0),
      length-replicate {A = ℕ} pad 0,
      length-store_be16 (length pt),
    )

-- The inner text of a seal passes the checks behind the AEAD, and gives its content back.
open_inner-padded :
    (r : Session) (seq n : ℕ) (pt : List ℕ)
    → length pt ≤ session_max_content_bytes
    → length pt + session_content_len_bytes ≤ n
    → open_inner r seq n (padded_inner pt n) ≡ record {
      status = ok;
      session = record r {
        recv_seq = (seq + 1) % 2 ^ 64;
        peer_confirmed = if is_initiator r.role then true else r.peer_confirmed;
      };
      out = pt ++ replicate (n - length pt) 0;
      len = length pt;
    }
unfolding open_inner padded_inner
open_inner-padded r seq n pt h fits =
    let pad : List ℕ = replicate (n - (session_content_len_bytes + length pt)) 0 in
    let got : load_be16 (store_be16 (length pt) ++ (pt ++ pad)) ≡ length pt =
      load_be16-store_be16 (length pt) (pt ++ pad) (omega arith) in
    let content : drop session_content_len_bytes (store_be16 (length pt) ++ (pt ++ pad))
        ≡ pt ++ pad =
      drop-append session_content_len_bytes (store_be16 (length pt)) (pt ++ pad)
        (length-store_be16 (length pt)) in
    let behind : drop (session_content_len_bytes + length pt)
          (store_be16 (length pt) ++ (pt ++ pad))
        ≡ pad =
      rw (← append_assoc) (
        drop-append (session_content_len_bytes + length pt) (store_be16 (length pt) ++ pt) pad (
          omega
            (arith, length-append (store_be16 (length pt)) pt, length-store_be16 (length pt)))) in
    rw (got, behind, content, take-append (length pt) pt pad refl, all_zero-replicate)
      (ground arith)

build_ad_same :
    (s r : Session) (seq : ℕ)
    → s.handshake_id ≡ r.handshake_id
    → s.send_dir ≡ r.recv_dir
    → build_ad s s.send_dir seq ≡ build_ad r r.recv_dir seq
unfolding build_ad
build_ad_same s r seq h d = rw (h, d)

-- The record as `session_open` takes it apart.
pub record_parts :
    (seq : ℕ) (ct : List ℕ)
    → seq < 2 ^ 64
    → let rec = (session_record_type ∷ store_be64 seq) ++ ct in
      (take 1 rec ≡ session_record_type ∷ [])
      × (load_be64 (drop 1 rec) ≡ seq)
      × (drop session_header_bytes rec ≡ ct)
      × (length rec ≡ session_header_bytes + length ct)
record_parts seq ct h = (
  take-append 1 (session_record_type ∷ []) (store_be64 seq ++ ct) refl,
  rw (drop-append 1 (session_record_type ∷ []) (store_be64 seq ++ ct) refl)
      (load_be64-store_be64 seq ct h),
  drop-append session_header_bytes (session_record_type ∷ store_be64 seq) ct
      (omega (arith, length-store_be64 seq)),
  omega (arith, length-append (session_record_type ∷ store_be64 seq) ct, length-store_be64 seq),
)

open_finish_ok :
    (s : Session) (seq body : ℕ) (inner : List ℕ)
    → length inner ≡ body
    → open_finish s seq body (some inner) ≡ open_inner s seq body inner
unfolding open_finish
open_finish_ok s seq body inner h = ground arith

decrypts-encrypts :
    (a : Aead) (msg ad nonce key ct : List ℕ)
    → IsAead a
    → aead_encrypt a msg ad nonce key ≡ some ct
    → (aead_decrypt a ct ad nonce key ≡ some msg) × (length ct ≡ length msg + aead_tag_bytes)
unfolding aead_encrypt aead_decrypt
decrypts-encrypts a msg ad nonce key ct law e =
    let (ct', e', l) = law.encrypts key nonce ad msg in
    let same : ct' ≡ ct = some_inj (sym e' ∙ e) in
    let size : length ct ≡ length msg + aead_tag_bytes = rw (← same) l in
    (
      rw (ltb-false (length ct) aead_tag_bytes (omega arith)) (law.decrypts key nonce ad msg ct e),
      size,
    )

aead_encrypt_lem :
    (a : Aead) (msg ad nonce key ct : List ℕ)
    → a.encrypt key nonce ad msg ≡ some ct
    → aead_encrypt a msg ad nonce key ≡ some ct
unfolding aead_encrypt
aead_encrypt_lem a msg ad nonce key ct e = e

-- With a session in use, a buffer that has room for `session_sealed_len` bytes apart from the
-- content, and an AEAD that does not fail, `session_seal` gives a record of just that length.
pub seal_succeeds :
    (a : Aead) (s : Session) (now : ℕ) (pt : List ℕ) (pt_at out_at room : ℕ)
    → IsAead a
    → limits_valid s.limits ≡ true
    → length pt ≤ session_max_content_bytes
    → is_active s.state ≡ true
    → session_age_ms s now < s.limits.reject_after_ms
    → s.send_seq < s.limits.reject_after_messages
    → session_sealed_len s (length pt) ≤ room
    → ranges_overlap pt_at (length pt) out_at (session_sealed_len s (length pt)) ≡ false
    → ((session_seal a s now pt pt_at out_at room).status ≡ ok)
      × (length (session_seal a s now pt pt_at out_at room).out ≡ session_sealed_len s (length pt))
      × ((session_seal a s now pt pt_at out_at room).len ≡ session_sealed_len s (length pt))
      × (session_sealed_len s (length pt) ≤ session_max_record_bytes)
      × (session_min_record_bytes ≤ session_sealed_len s (length pt))
seal_succeeds a s now pt pt_at out_at room law valid content up young below fits apart =
    let bucket = (limits_bound s.limits valid).1 in
    let p = inner_len_for-Padded (length pt) s.limits.pad_bucket content bucket in
    let n = inner_len_for (length pt) s.limits.pad_bucket in
    let size = sealed_len_lem s (length pt) content bucket in
    let (ct, enc, long) =
      law.encrypts (send_key s) (build_nonce s.send_seq) (build_ad s s.send_dir s.send_seq)
        (padded_inner pt n) in
    let c : SealChecks a s now pt pt_at out_at room = record {
      content = content;
      live = up;
      bucket = bucket;
      fits = rw (← size) fits;
      young = young;
      below = below;
    } in
    let width : length ct + session_header_bytes ≡ n + session_overhead_bytes =
      omega (arith, long, length-padded_inner pt n p.holds) in
    let enc' =
      aead_encrypt_lem a (padded_inner pt n) (build_ad s s.send_dir s.send_seq)
        (build_nonce s.send_seq) (send_key s) ct enc in
    let finished = seal_checked a s now pt pt_at out_at room c (rw size at apart) in
    let done =
      (rw enc' at finished)
      ∙ seal_finish_done (reserved a s now pt pt_at out_at room) s.send_seq
          (n + session_overhead_bytes) ct width in
    rw (done, size)
      (
        refl,
        omega (
          arith,
          width,
          length-append (session_record_type ∷ store_be64 s.send_seq) ct,
          length-store_be64 s.send_seq,
        ),
        refl,
        omega (arith, p.bounded),
        omega (arith, p.holds),
      )

-- What `session_open` hands back of a record whose ciphertext decrypts to a padded content.
pub opened : Session → ℕ → ℕ → List ℕ → Outcome
opened r seq n pt = record {
  status = ok;
  session = record r {
    recv_seq = (seq + 1) % 2 ^ 64;
    peer_confirmed = if is_initiator r.role then true else r.peer_confirmed;
  };
  out = pt ++ replicate (n - length pt) 0;
  len = length pt;
}

open_record :
    (a : Aead) (r : Session) (now rec_at buf_at cap seq n : ℕ) (pt ct : List ℕ)
    → length pt ≤ session_max_content_bytes
    → length pt + session_content_len_bytes ≤ n
    → n ≤ session_max_plaintext_bytes
    → n ≤ cap
    → seq ≡ r.recv_seq
    → seq < 2 ^ 64
    → length ct ≡ n + aead_tag_bytes
    → aead_decrypt a ct (build_ad r r.recv_dir seq) (build_nonce seq) (recv_key r)
      ≡ some (padded_inner pt n)
    → is_active r.state ≡ true
    → session_age_ms r now < r.limits.reject_after_ms
    → r.recv_seq < r.limits.reject_after_messages
    → ranges_overlap rec_at
        (length ((session_record_type ∷ store_be64 seq) ++ ct))
        buf_at
        (writable a r now ((session_record_type ∷ store_be64 seq) ++ ct) rec_at buf_at cap)
      ≡ false
    → session_open a r now ((session_record_type ∷ store_be64 seq) ++ ct) rec_at buf_at cap
      ≡ opened r seq n pt
unfolding opened
open_record a r now rec_at buf_at cap seq n pt ct content holds bounded room inseq small size dec
      live young below apart =
    let (type_ok, number, text, long) = record_parts seq ct small in
    let rec = (session_record_type ∷ store_be64 seq) ++ ct in
    let c : OpenChecks a r now rec rec_at buf_at cap = record {
      apart = apart;
      live = live;
      young = young;
      long = omega (arith, long, size);
      short = omega (arith, long, size);
      type_ok = rw type_ok (bytes_eq_refl (session_record_type ∷ []));
      fits = omega (arith, long, size);
      in_order = number ∙ inseq;
      below = below;
    } in
    let here : body a r now rec rec_at buf_at cap ≡ n = omega (arith, long, size) in
    open_checked a r now rec rec_at buf_at cap c
    ∙ rw (here, number, text, dec)
        (open_finish_ok r seq n (padded_inner pt n) (length-padded_inner pt n holds)
          ∙ open_inner-padded r seq n pt content holds)

-- A record that `session_seal` has sealed, given to the `session_open` of the peer that is in step,
-- comes back as the content with zeros behind it, and the two stay in step: the peer is active and
-- within its limits, and its buffer is apart from the record and as long as the inner text.
pub open-seal :
    (a : Aead) (s r : Session) (now now' : ℕ) (pt : List ℕ)
    (pt_at out_at room rec_at buf_at cap : ℕ)
    → IsAead a
    → InSync s r
    → limits_valid s.limits ≡ true
    → (session_seal a s now pt pt_at out_at room).status ≡ ok
    → is_active r.state ≡ true
    → session_age_ms r now' < r.limits.reject_after_ms
    → r.recv_seq < r.limits.reject_after_messages
    → inner_len_for (length pt) s.limits.pad_bucket ≤ cap
    → ranges_overlap rec_at
        (length (session_seal a s now pt pt_at out_at room).out)
        buf_at
        (if ltb cap session_max_plaintext_bytes then cap else session_max_plaintext_bytes)
      ≡ false
    → let sealing = session_seal a s now pt pt_at out_at room in
      let got = session_open a r now' sealing.out rec_at buf_at cap in
      (got.status ≡ ok)
      × (got.len ≡ length pt)
      × (got.out ≡ pt ++ replicate (inner_len_for (length pt) s.limits.pad_bucket - length pt) 0)
      × InSync sealing.session got.session
unfolding opened
open-seal a s r now now' pt pt_at out_at room rec_at buf_at cap law sync valid sealed live young
      below fits apart =
    let (c, e) = seal_checks a s now pt pt_at out_at room sealed in
    let n = inner_len_for (length pt) s.limits.pad_bucket in
    let (ct, enc, size, fin) =
      seal_finish_ok (reserved a s now pt pt_at out_at room) s.send_seq (n + session_overhead_bytes)
        (sealed_text a s now pt pt_at out_at room) (rw e at sealed) in
    let p = inner_len_for-Padded (length pt) s.limits.pad_bucket c.content c.bucket in
    let small : s.send_seq < 2 ^ 64 = omega (arith, (limits_bound s.limits valid).0, c.below) in
    let (dec, long) =
      decrypts-encrypts a (padded_inner pt n) (build_ad s s.send_dir s.send_seq)
        (build_nonce s.send_seq) (send_key s) ct law enc in
    let dec' : aead_decrypt a ct (build_ad r r.recv_dir s.send_seq) (build_nonce s.send_seq)
          (recv_key r)
        ≡ some (padded_inner pt n) =
      rw (← build_ad_same s r s.send_seq sync.handshake sync.direction, ← sync.key) dec in
    let whole = e ∙ fin in
    let got =
      open_record a r now' rec_at buf_at cap s.send_seq n pt ct c.content p.holds p.bounded fits
        sync.seq small (omega (arith, size)) dec' live young below (rw whole at apart) in
    rw (whole, got)
      (
        refl,
        refl,
        refl,
        record {
          key = sync.key;
          handshake = sync.handshake;
          direction = sync.direction;
          seq = refl;
        },
      )
