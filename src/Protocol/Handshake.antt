-- ===== src/Protocol/Handshake.antt =====
-- internal/protocol/client.go and server.go: the exchange that opens a tunnelled connection. What
-- the other side sends is a stream of bytes; what is written goes through the writer.
pub mod Exchange
pub mod Tests
use nightveil.Prelude.{
  Bool, Bytes, Option, Result, [], byte, get_or, if◌then◌else◌, length, ltb, none, not, some, wrap,
  ℕ, ◌&&◌, ◌==◌, ◌>>=◌, ◌||◌, ◌∷◌, err, ok,
}
use nightveil.Io.{ReadError}
use nightveil.Protocol.Framing.{Frame, WriteError, FrameError, write_frame, read_frame}
use nightveil.Protocol.Address.{AddressError, encode_connect_payload, decode_connect_payload}

abbrev pub cmd_connect : ℕ
cmd_connect = 1

abbrev pub cmd_ack : ℕ
cmd_ack = 2

abbrev pub cmd_udp : ℕ
cmd_udp = 4

abbrev pub status_ok : ℕ
status_ok = 0

abbrev pub status_refused : ℕ
status_refused = 1

-- `Request`
pub record Request : Type 0 where
  pub command : ℕ
  pub host : Bytes
  pub port : ℕ

pub data ClientError : Type 0 where
  send_failed : WriteError → ClientError
  ack_not_read : FrameError → ClientError
  not_an_ack : ℕ → ClientError
  refused : ℕ → ClientError

-- The frame that `Handshake` sends.
abbrev pub request_frame : Request → Frame
request_frame req = record {
  command = if req.command == 0 then cmd_connect else req.command;
  payload = encode_connect_payload req.host req.port;
}

-- The first byte of the acknowledgement, `StatusRefused` where there is none.
abbrev pub ack_status : Bytes → ℕ
ack_status [] = status_refused
ack_status (s ∷ _) = s

abbrev pub is_accepted : Bytes → Bool
is_accepted p = not (ltb (length p) 1 || not (get_or p 0 0 == status_ok))

-- `Handshake` once the request is sent: on success, what is left of the input.
unfoldable pub await_ack : Bytes → Result ClientError Bytes
await_ack input = do
  (ack, rest) ← wrap ack_not_read (read_frame input)
  if not (ack.command == cmd_ack)
      then err (not_an_ack ack.command)
      else if is_accepted ack.payload
      then ok rest
      else err (refused (ack_status ack.payload))

pub data ServerError : Type 0 where
  request_not_read : FrameError → ServerError
  unexpected_command : ℕ → ServerError
  payload_not_decoded : AddressError → ServerError

abbrev pub ack_frame : ℕ → Frame
ack_frame status = record { command = cmd_ack; payload = byte status ∷ [] }

module _ {W : Type 0} (write : W → Bytes → W × Bool) where
  unfoldable pub handshake : W → Bytes → Request → W × Result ClientError Bytes
  handshake w input req =
      let (w₁, failed) = write_frame write w (request_frame req) in
      elim failed [ some e ↦ (w₁, err (send_failed e)) | none ↦ (w₁, await_ack input) ]

  -- The request, and what is left of the input. A refusal is sent without looking at its error.
  unfoldable pub accept_payload : W → Frame → Bytes → W × Result ServerError (Request × Bytes)
  accept_payload w f rest = elim (decode_connect_payload f.payload) [
    | err e ↦ ((write_frame write w (ack_frame status_refused)).0, err (payload_not_decoded e))
    | ok (host, port) ↦ (w, ok (record { command = f.command; host = host; port = port }, rest))
  ]

  unfoldable pub handle_connection : W → Bytes → W × Result ServerError (Request × Bytes)
  unfolding accept_payload
  handle_connection w input = elim (read_frame input) [
    | err e ↦ (w, err (request_not_read e))
    | ok (f, rest) ↦
        if not (f.command == cmd_connect) && not (f.command == cmd_udp)
        then (w, err (unexpected_command f.command))
        else accept_payload w f rest
  ]

  unfoldable pub send_ack : W → ℕ → W × Option WriteError
  send_ack w status = write_frame write w (ack_frame status)
