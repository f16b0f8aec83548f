-- ===== src/Frame/Stream.antt =====
-- Frames of apps/frame.c over a stream: what is sent is received, frame by frame.
use mldsa_auth.Base.{
  List, [], ap, append-nil, append_assoc, ap₂, arith, false, length, ltb, map, refl, subst, suc,
  sym, zero, ℕ, ◌%◌, ◌++◌, ◌<◌, ◌==◌, ◌^◌, ◌||◌, ◌∙◌, ◌∷◌, ◌≡◌, ◌≤◌,
}
use mldsa_auth.Base.Bytes.{byte_at}
use mldsa_auth.Frame.{
  FrameStatus, Net, frame_get_header, frame_header_bytes, frame_max_payload, frame_ok,
  frame_put_header, frame_recv, frame_recv_bounded, frame_send, from_net, net_ok, take_header,
  take_payload,
}

-- What the socket layer documents of a stream that neither ends nor times out: a write appends its
-- bytes, and a read of as many bytes as are there takes just these, in order.
pub record IsStream (net : Net) : Type 0 where
  pub pending : net.Conn → List ℕ
  pub writes :
      (c : net.Conn) (bytes : List ℕ) (deadline : ℕ)
      → ((net.write_all c bytes deadline).0 ≡ net_ok)
        × (pending (net.write_all c bytes deadline).1 ≡ pending c ++ bytes)
  pub reads :
      (c : net.Conn) (bytes rest : List ℕ) (deadline : ℕ)
      → pending c ≡ bytes ++ rest
      → (c' : net.Conn) × (net.read_exact c (length bytes) deadline ≡ (net_ok, bytes, c'))
        × (pending c' ≡ rest)

frame_get_header-put_header :
    (len : ℕ) → len < 2 ^ 32 → frame_get_header (frame_put_header len) ≡ len
unfolding frame_get_header frame_put_header byte_at
frame_get_header-put_header len h = omega arith

length-frame_put_header : (len : ℕ) → length (frame_put_header len) ≡ 4
unfolding frame_put_header
length-frame_put_header len = refl

module _ (net : Net) where
  -- A header that was read is followed by the test of its number.
  frame_recv-read :
      (c c' : net.Conn) (got : List ℕ) (min_len max_len deadline : ℕ)
      → (min_len == 0 || ltb max_len min_len || ltb frame_max_payload max_len) ≡ false
      → net.read_exact c frame_header_bytes deadline ≡ (net_ok, got, c')
      → frame_recv net c min_len max_len deadline
        ≡ frame_recv_bounded net c' (frame_get_header got) min_len max_len deadline
  unfolding frame_recv take_header
  frame_recv-read c c' got min_len max_len deadline args read =
      rw args (ap (take_header net min_len max_len deadline) read)

  frame_recv_bounded-read :
      (c c' : net.Conn) (payload : List ℕ) (min_len max_len deadline : ℕ)
      → (ltb (length payload) min_len || ltb max_len (length payload)) ≡ false
      → net.read_exact c (length payload) deadline ≡ (net_ok, payload, c')
      → frame_recv_bounded net c (length payload) min_len max_len deadline ≡ (frame_ok, payload, c')
  unfolding frame_recv_bounded take_payload
  frame_recv_bounded-read c c' payload min_len max_len deadline bounds read = rw (bounds, read) refl

module _ (net : Net) (stream : IsStream net) where
  -- A frame at the front of a stream.
  recv_front :
      (c : net.Conn) (payload rest : List ℕ) (min_len max_len deadline : ℕ)
      → 1 ≤ min_len
      → min_len ≤ length payload
      → length payload ≤ max_len
      → max_len ≤ frame_max_payload
      → stream.pending c ≡ frame_put_header (length payload) ++ (payload ++ rest)
      → (c' : net.Conn) × (frame_recv net c min_len max_len deadline ≡ (frame_ok, payload, c'))
        × (stream.pending c' ≡ rest)
  recv_front c payload rest min_len max_len deadline lo min max hi front =
      let hdr = frame_put_header (length payload) in
      let (c₁, e₁, p₁) = stream.reads c hdr (payload ++ rest) deadline front in
      let (c₂, e₂, p₂) = stream.reads c₁ payload rest deadline p₁ in
      let four : net.read_exact c 4 deadline ≡ (net_ok, hdr, c₁) =
        subst (λ n. net.read_exact c n deadline ≡ (net_ok, hdr, c₁))
          (length-frame_put_header (length payload)) e₁ in
      let len = frame_get_header-put_header (length payload) (omega (arith, max, hi)) in
      let args : (min_len == 0 || ltb max_len min_len || ltb frame_max_payload max_len) ≡ false =
        ground arith in
      let bounds : (ltb (length payload) min_len || ltb max_len (length payload)) ≡ false =
        ground arith in
      (
        c₂,
        frame_recv-read net c c₁ hdr min_len max_len deadline args four
            ∙ ap (λ n. frame_recv_bounded net c₁ n min_len max_len deadline) len
            ∙ frame_recv_bounded-read net c₁ c₂ payload min_len max_len deadline bounds e₂,
        p₂,
      )

  sent_bytes :
      (c : net.Conn) (payload : List ℕ) (deadline : ℕ)
      → 1 ≤ length payload
      → length payload ≤ frame_max_payload
      → ((frame_send net c payload deadline).0 ≡ frame_ok)
        × (stream.pending (frame_send net c payload deadline).1
            ≡ stream.pending c ++ (frame_put_header (length payload) ++ payload))
  unfolding frame_send from_net
  sent_bytes c payload deadline lo hi =
      let fits : (length payload == 0 || ltb frame_max_payload (length payload)) ≡ false =
        ground arith in
      let wrap : length payload % 2 ^ 32 ≡ length payload = omega arith in
      let w = stream.writes c (frame_put_header (length payload) ++ payload) deadline in
      rw (fits, wrap, w.0) (refl, w.1)

-- Payloads that the two bounds of a receiver admit.
pub data AreWithin (min_len max_len : ℕ) : List (List ℕ) → Type 0 where
  no_frame : AreWithin min_len max_len []
  one_frame :
      {payload : List ℕ} {payloads : List (List ℕ)}
      → min_len ≤ length payload
      → length payload ≤ max_len
      → AreWithin min_len max_len payloads
      → AreWithin min_len max_len (payload ∷ payloads)

unfoldable frames : List (List ℕ) → List ℕ
frames [] = []
frames (payload ∷ payloads) = frame_put_header (length payload) ++ (payload ++ frames payloads)

module _ (net : Net) where
  -- `frame_send` for one payload after another, with the statuses.
  unfoldable pub send_all : net.Conn → List (List ℕ) → ℕ → List FrameStatus × net.Conn
  send_all c [] deadline = ([], c)
  send_all c (payload ∷ payloads) deadline =
      let (st, c₁) = frame_send net c payload deadline in
      let (sts, c₂) = send_all c₁ payloads deadline in (st ∷ sts, c₂)

  -- `frame_recv` as often as the number says.
  unfoldable pub recv_all : ℕ → net.Conn → ℕ → ℕ → ℕ → List (FrameStatus × List ℕ) × net.Conn
  recv_all zero c min_len max_len deadline = ([], c)
  recv_all (suc n) c min_len max_len deadline =
      let (st, payload, c₁) = frame_recv net c min_len max_len deadline in
      let (results, c₂) = recv_all n c₁ min_len max_len deadline in ((st, payload) ∷ results, c₂)

module _ (net : Net) (stream : IsStream net) (min_len max_len deadline : ℕ) (lo : 1 ≤ min_len)
    (hi : max_len ≤ frame_max_payload) where
  sent_all :
      (c : net.Conn) (payloads : List (List ℕ))
      → AreWithin min_len max_len payloads
      → ((send_all net c payloads deadline).0 ≡ map (λ payload. frame_ok) payloads)
        × (stream.pending (send_all net c payloads deadline).1
            ≡ stream.pending c ++ frames payloads)
  unfolding send_all frames
  sent_all c [] no_frame = (refl, sym (append-nil (stream.pending c)))
  sent_all c (payload ∷ payloads) (one_frame min max all) =
      let (ok, bytes) =
        sent_bytes net stream c payload deadline (omega (arith, lo, min))
          (omega (arith, max, hi)) in
      let (oks, more) = sent_all (frame_send net c payload deadline).1 payloads all in
      (
        ap₂ (λ st sts. st ∷ sts) ok oks,
        more
            ∙ ap (λ b. b ++ frames payloads) bytes
            ∙ append_assoc (stream.pending c) (frame_put_header (length payload) ++ payload)
                (frames payloads)
            ∙ ap (λ b. stream.pending c ++ b)
                (append_assoc (frame_put_header (length payload)) payload (frames payloads)),
      )

  received_all :
      (c : net.Conn) (payloads : List (List ℕ)) (rest : List ℕ)
      → AreWithin min_len max_len payloads
      → min_len ≤ max_len
      → stream.pending c ≡ frames payloads ++ rest
      → (c' : net.Conn) × (recv_all net (length payloads) c min_len max_len deadline
          ≡ (map (λ payload. (frame_ok, payload)) payloads, c'))
        × (stream.pending c' ≡ rest)
  unfolding recv_all frames
  received_all c [] rest no_frame order front = (c, refl, front)
  received_all c (payload ∷ payloads) rest (one_frame min max all) order front =
      let (c₁, e₁, p₁) =
        recv_front net stream c payload (frames payloads ++ rest) min_len max_len deadline lo min
          max hi
          (front
            ∙ append_assoc (frame_put_header (length payload)) (payload ++ frames payloads) rest
            ∙ ap (λ b. frame_put_header (length payload) ++ b)
                (append_assoc payload (frames payloads) rest)) in
      let (c₂, e₂, p₂) = received_all c₁ payloads rest all order p₁ in (c₂, rw (e₁, e₂) refl, p₂)

  -- Whatever frame_send was called with on one connection, payload by payload and each within the
  -- bounds of the receiver, comes out of as many calls of frame_recv at the other end, with the
  -- bounds kept, in order and whole; all calls report FRAME_OK, and what came behind the frames is
  -- left in the stream.
  pub recv-send :
      (sender receiver : net.Conn) (payloads : List (List ℕ)) (rest : List ℕ)
      → AreWithin min_len max_len payloads
      → min_len ≤ max_len
      → stream.pending sender ≡ []
      → stream.pending receiver ≡ stream.pending (send_all net sender payloads deadline).1 ++ rest
      → ((send_all net sender payloads deadline).0 ≡ map (λ payload. frame_ok) payloads)
        × (c' : net.Conn) × (recv_all net (length payloads) receiver min_len max_len deadline
            ≡ (map (λ payload. (frame_ok, payload)) payloads, c'))
        × (stream.pending c' ≡ rest)
  recv-send sender receiver payloads rest within order empty_stream arrived =
      let (oks, bytes) = sent_all sender payloads within in
      let front =
        arrived ∙ ap (λ b. b ++ rest) bytes ∙ ap (λ b. b ++ frames payloads ++ rest) empty_stream in
      let (c', results, left) = received_all receiver payloads rest within order front in
      (oks, c', results, left)
