-- ===== src/Frame/Tests.antt =====
-- Frames of apps/frame.c over a list of bytes.
use mldsa_auth.Base.{
  List, [], ap, arith, drop, drop-append, false, if◌then◌else◌, length, length-append, ltb, map,
  refl, replicate, take, take-append, ℕ, ◌++◌, ◌∷◌, ◌≡◌,
}
use mldsa_auth.Base.Bytes.{byte_at}
use mldsa_auth.Frame.{
  Net, NetStatus, frame_bad_length, frame_get_header, frame_ok, frame_put_header, frame_recv,
  frame_recv_bounded, frame_send, frame_truncated, net_eof, net_ok, take_header, take_payload,
}
use mldsa_auth.Frame.Stream.{IsStream, no_frame, one_frame, recv-send, recv_all, send_all}

unfoldable list_read : List ℕ → ℕ → NetStatus × List ℕ × List ℕ
list_read c n = if ltb (length c) n then (net_eof, c, []) else (net_ok, take n c, drop n c)

-- A connection that is the list of what is still to be read.
abbrev list_net : Net
list_net = record {
  Conn = List ℕ;
  read_exact = λ c n deadline. list_read c n;
  write_all = λ c bytes deadline. (net_ok, c ++ bytes);
}

list_net-reads :
    (c bytes rest : List ℕ) → c ≡ bytes ++ rest → list_read c (length bytes) ≡ (net_ok, bytes, rest)
unfolding list_read
list_net-reads c bytes rest front =
    let there : ltb (length c) (length bytes) ≡ false =
      ground (arith, length-append bytes rest, ap (length {A = ℕ}) front) in
    rw
      (
        there,
        front,
        take-append (length bytes) bytes rest refl,
        drop-append (length bytes) bytes rest refl,
      )
      refl

abbrev list_stream : IsStream list_net
list_stream = record {
  pending = λ c. c;
  writes = λ c bytes deadline. (refl, refl);
  reads = λ c bytes rest deadline front. (rest, list_net-reads c bytes rest front, refl);
}

abbrev two_payloads : List (List ℕ)
two_payloads = replicate 300 7 ∷ (1 ∷ 2 ∷ 3 ∷ []) ∷ []

abbrev on_the_wire : List ℕ
on_the_wire = (send_all list_net [] two_payloads 5000).1 ++ (9 ∷ [])

first_header : take 4 on_the_wire ≡ 0 ∷ 0 ∷ 1 ∷ 44 ∷ []
unfolding send_all frame_send frame_put_header take replicate
first_header = refl

-- A length that is out of bounds is refused with the payload unread.
too_long_unread :
    frame_recv list_net on_the_wire 1 200 5000 ≡ (frame_bad_length, [], drop 4 on_the_wire)
unfolding frame_recv take_header frame_recv_bounded send_all frame_send frame_put_header
    frame_get_header byte_at replicate take drop list_read
too_long_unread = refl

cut_short : frame_recv list_net (0 ∷ 0 ∷ 0 ∷ 2 ∷ 8 ∷ []) 1 200 5000 ≡ (frame_truncated, [], [])
unfolding frame_recv take_header take_payload frame_recv_bounded frame_get_header byte_at take drop
    list_read
cut_short = refl

recv-send_example :
    ((send_all list_net [] two_payloads 5000).0 ≡ frame_ok ∷ frame_ok ∷ [])
    × (c' : List ℕ) × (recv_all list_net 2 on_the_wire 2 400 5000
        ≡ (map (λ payload. (frame_ok, payload)) two_payloads, c'))
    × (c' ≡ 9 ∷ [])
unfolding replicate
recv-send_example =
    recv-send list_net list_stream 2 400 5000 (omega arith) (omega arith) [] on_the_wire
      two_payloads (9 ∷ [])
      (one_frame (omega arith) (omega arith) (one_frame (omega arith) (omega arith) no_frame))
      (omega arith) refl refl
