-- ===== src/Protocol/Handshake/Exchange.antt =====
-- The two sides of the handshake meet.
use nightveil.Prelude.{
  Bool, Bytes, arith, if◌then◌else◌, none, ℕ, ◌++◌, ◌<◌, ◌==◌, ◌≡◌, ◌⊎◌, ok, err, false, not, refl,
  ◌&&◌,
}
use nightveil.Io.{IsWriter}
use nightveil.Protocol.Framing.{Frame, write_frame, read_frame}
use nightveil.Protocol.Framing.RoundTrip.{encode, Fits, write_frame-ok, read_frame-encode}
use nightveil.Protocol.Address.{encode_connect_payload, decode_connect_payload, AddressError}
use nightveil.Protocol.Handshake.{
  Request, request_frame, ack_frame, status_ok, status_refused, await_ack, refused,
  handle_connection, accept_payload, send_ack, cmd_connect, cmd_udp, payload_not_decoded,
}

-- The command that the server sees: none given stands for CONNECT.
abbrev pub command_of : Request → ℕ
command_of req = if req.command == 0 then cmd_connect else req.command

-- A request for a connection, or for datagrams.
abbrev pub IsRequest : Request → Type 0
IsRequest req = (command_of req ≡ cmd_connect) ⊎ (command_of req ≡ cmd_udp)

module _ {W : Type 0} {write : W → Bytes → W × Bool} {contents : W → Bytes}
    (law : IsWriter write contents) where
  -- What a client puts on the wire when its request is sent without an error, a server accepts as a
  -- request with the client's command, CONNECT where none was given, and with the host and port
  -- that its payload decodes to; the server writes nothing, and leaves what follows unread.
  pub handle_connection-request :
      {V : Type 0} (write' : V → Bytes → V × Bool) (w : W) (v : V) (req : Request) (rest : Bytes)
      {host : Bytes} {port : ℕ}
      → IsRequest req
      → (write_frame write w (request_frame req)).1 ≡ none
      → decode_connect_payload (encode_connect_payload req.host req.port) ≡ ok (host, port)
      → (s : Bytes) × (contents (write_frame write w (request_frame req)).0 ≡ contents w ++ s)
        × (handle_connection write' v (s ++ rest)
            ≡ (v, ok (record { command = command_of req; host = host; port = port }, rest)))
  unfolding handle_connection
  handle_connection-request write' w v req rest {host} {port} kind sent decoded =
      let (wire, small) = write_frame-ok law w (request_frame req) sent in
      let fits : Fits (request_frame req) = record {
        command_byte = ground arith;
        payload_size = small;
      } in
      (
        encode (request_frame req),
        wire,
        rw (read_frame-encode (request_frame req) rest fits, handle_connection) (ground arith),
      )

  -- A client to which the server's `SendACK` of a status got through goes on exactly if the status
  -- is StatusOK, with what follows the acknowledgement unread; on any other it is refused with that
  -- very status.
  pub await_ack-send_ack :
      (w : W) (status : ℕ) (rest : Bytes)
      → status < 256
      → (send_ack write w status).1 ≡ none
      → (s : Bytes) × (contents (send_ack write w status).0 ≡ contents w ++ s)
        × (await_ack (s ++ rest) ≡ (if status == status_ok then ok rest else err (refused status)))
  unfolding send_ack await_ack
  await_ack-send_ack w status rest small sent =
      let (wire, _) = write_frame-ok law w (ack_frame status) sent in
      (
        encode (ack_frame status),
        wire,
        rw (read_frame-encode (ack_frame status) rest (omega arith)) (ground arith),
      )

-- A request whose payload does not decode is answered by an acknowledgement with StatusRefused, so
-- that the client, if that is written without an error, gives up with this status.
pub handle_connection-undecodable :
    {W : Type 0} {write : W → Bytes → W × Bool} {contents : W → Bytes}
    (law : IsWriter write contents) (w : W) (input : Bytes) (f : Frame) (rest more : Bytes)
    {e : AddressError}
    → read_frame input ≡ ok (f, rest)
    → (f.command ≡ cmd_connect) ⊎ (f.command ≡ cmd_udp)
    → decode_connect_payload f.payload ≡ err e
    → (send_ack write w status_refused).1 ≡ none
    → let (w', r) = handle_connection write w input in
      (r ≡ err (payload_not_decoded e))
      × (s : Bytes) × (contents w' ≡ contents w ++ s)
      × (await_ack (s ++ more) ≡ err (refused status_refused))
unfolding handle_connection
handle_connection-undecodable law w input f rest more {e} got kind bad sent =
    let (s, wire, answer) = await_ack-send_ack law w status_refused more (omega arith) sent in
    let allowed : (not (f.command == cmd_connect) && not (f.command == cmd_udp)) ≡ false =
      ground arith in
    rw (got, handle_connection)
      (rw allowed (rw (bad, accept_payload) (refl, s, unfold send_ack in wire, answer)))
