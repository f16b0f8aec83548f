-- ===== src/Frame.antt =====
-- The transport framing of apps/frame.h and frame.c, over the two calls of the socket layer (apps/net_io.h)
-- that it makes. No pointer is null.
pub mod Stream
mod Tests
use mldsa_auth.Base.{
  List, [], if◌then◌else◌, length, ltb, ℕ, ◌%◌, ◌*◌, ◌++◌, ◌+◌, ◌/◌, ◌==◌, ◌^◌, ◌||◌, ◌∷◌,
}
use mldsa_auth.Base.Bytes.{byte_at}
use mldsa_auth.Session.{session_max_record_bytes}

-- `net_status_t`
pub data NetStatus : Type 0 where
  net_ok net_eof net_timeout net_err_io net_err_invalid_arg : NetStatus

-- A connection, `net_read_exact` with the bytes that were read, and `net_write_all`; the number is
-- the deadline.
pub record Net : Type 1 where
  pub Conn : Type 0
  pub read_exact : Conn → ℕ → ℕ → NetStatus × List ℕ × Conn
  pub write_all : Conn → List ℕ → ℕ → NetStatus × Conn

-- `frame_status_t`
pub data FrameStatus : Type 0 where
  frame_ok frame_eof frame_truncated frame_timeout frame_io frame_bad_length : FrameStatus
  frame_invalid_arg : FrameStatus

abbrev pub frame_header_bytes : ℕ
frame_header_bytes = 4

abbrev pub frame_max_payload : ℕ
frame_max_payload = session_max_record_bytes

unfoldable pub frame_put_header : ℕ → List ℕ
frame_put_header len =
    (len / 2 ^ 24 % 256) ∷ (len / 2 ^ 16 % 256) ∷ (len / 2 ^ 8 % 256) ∷ (len % 256) ∷ []

unfoldable pub frame_get_header : List ℕ → ℕ
frame_get_header hdr =
    byte_at hdr 0 * 2 ^ 24 + byte_at hdr 1 * 2 ^ 16 + byte_at hdr 2 * 2 ^ 8 + byte_at hdr 3

unfoldable pub from_net : NetStatus → FrameStatus
from_net net_ok = frame_ok
from_net net_timeout = frame_timeout
from_net net_err_invalid_arg = frame_invalid_arg
from_net net_eof = frame_io
from_net net_err_io = frame_io

module _ (net : Net) where
  -- The payload is what stands behind the header in the caller's buffer.
  unfoldable pub frame_send : net.Conn → List ℕ → ℕ → FrameStatus × net.Conn
  frame_send c payload deadline =
      let (st, c') =
        net.write_all c (frame_put_header (length payload % 2 ^ 32) ++ payload) deadline in
      if length payload == 0 || ltb frame_max_payload (length payload)
      then (frame_invalid_arg, c)
      else (from_net st, c')

  -- What the second read, of the payload, makes of the call: the status, the payload (empty but on
  -- success) and the connection.
  unfoldable pub take_payload : NetStatus × List ℕ × net.Conn → FrameStatus × List ℕ × net.Conn
  take_payload (net_ok, payload, c) = (frame_ok, payload, c)
  take_payload (net_eof, payload, c) = (frame_truncated, [], c)
  take_payload (net_timeout, payload, c) = (from_net net_timeout, [], c)
  take_payload (net_err_io, payload, c) = (from_net net_err_io, [], c)
  take_payload (net_err_invalid_arg, payload, c) = (from_net net_err_invalid_arg, [], c)

  -- The bounds of the announced length, which come before the second read.
  unfoldable pub frame_recv_bounded : net.Conn → ℕ → ℕ → ℕ → ℕ → FrameStatus × List ℕ × net.Conn
  frame_recv_bounded c len min_len max_len deadline =
      if ltb len min_len || ltb max_len len
      then (frame_bad_length, [], c)
      else take_payload (net.read_exact c len deadline)

  -- What the first read, of the header, makes of it.
  unfoldable pub take_header :
      ℕ → ℕ → ℕ → NetStatus × List ℕ × net.Conn → FrameStatus × List ℕ × net.Conn
  take_header min_len max_len deadline (net_eof, got, c) =
      (if length got == 0 then frame_eof else frame_truncated, [], c)
  take_header min_len max_len deadline (net_timeout, got, c) = (from_net net_timeout, [], c)
  take_header min_len max_len deadline (net_err_io, got, c) = (from_net net_err_io, [], c)
  take_header min_len max_len deadline (net_err_invalid_arg, got, c) =
      (from_net net_err_invalid_arg, [], c)
  take_header min_len max_len deadline (net_ok, got, c) =
      frame_recv_bounded c (frame_get_header got) min_len max_len deadline

  unfoldable pub frame_recv : net.Conn → ℕ → ℕ → ℕ → FrameStatus × List ℕ × net.Conn
  frame_recv c min_len max_len deadline =
      if min_len == 0 || ltb max_len min_len || ltb frame_max_payload max_len
      then (frame_invalid_arg, [], c)
      else take_header min_len max_len deadline (net.read_exact c frame_header_bytes deadline)
