-- ===== src/Protocol/Handshake/Tests.antt =====
-- The handshake at concrete inputs.
use nightveil.Prelude.{Bytes, [], arith, codes, inl, refl, ◌++◌, ◌∷◌, ◌≡◌, ok, err}
use nightveil.Io.{buffer_write, buffer-IsWriter, read_full}
use nightveil.Protocol.Framing.{write_frame, read_frame, header}
use nightveil.Protocol.Decimal.{scan_byte, scan_digits, scan_number, skip_space, scan_char}
use nightveil.Protocol.Quad.{parse_ipv4}
use nightveil.Protocol.Address.{
  encode_connect_payload, decode_connect_payload, unknown_address_type,
}
use nightveil.Protocol.Handshake.{
  Request, request_frame, refused, status_refused, await_ack, handle_connection, send_ack,
  payload_not_decoded,
}
use nightveil.Protocol.Handshake.Exchange.{
  handle_connection-request, await_ack-send_ack, handle_connection-undecodable,
}

abbrev lookup_request : Request
lookup_request = record { command = 0; host = codes "a.b"; port = 53 }

handle_connection-request_example :
    (s : Bytes) × ((write_frame buffer_write [] (request_frame lookup_request)).0 ≡ [] ++ s)
    × (handle_connection buffer_write [] (s ++ 7 ∷ [])
        ≡ ([], ok (record { command = 1; host = codes "a.b"; port = 53 }, 7 ∷ [])))
unfolding write_frame header encode_connect_payload decode_connect_payload parse_ipv4 scan_byte
    scan_digits scan_number skip_space scan_char
handle_connection-request_example =
    handle_connection-request buffer-IsWriter buffer_write [] [] lookup_request (7 ∷ []) (inl refl)
      refl refl

await_ack-send_ack_example :
    (s : Bytes) × ((send_ack buffer_write [] 2).0 ≡ [] ++ s)
    × (await_ack (s ++ 9 ∷ []) ≡ err (refused 2))
unfolding send_ack write_frame header
await_ack-send_ack_example = await_ack-send_ack buffer-IsWriter [] 2 (9 ∷ []) (omega arith) refl

-- A CONNECT whose address type is 9.
abbrev odd_request : Bytes
odd_request = 2 ∷ 0 ∷ 1 ∷ 9 ∷ []

handle_connection-undecodable_example :
    let (w, r) = handle_connection buffer_write [] odd_request in
    (r ≡ err (payload_not_decoded (unknown_address_type 9)))
    × (s : Bytes) × (w ≡ [] ++ s)
    × (await_ack (s ++ []) ≡ err (refused status_refused))
unfolding send_ack write_frame header read_frame read_full decode_connect_payload
handle_connection-undecodable_example =
    handle_connection-undecodable buffer-IsWriter [] odd_request
      (record { command = 1; payload = 9 ∷ [] }) [] [] refl (inl refl) refl refl
