-- ===== src/Protocol/Datagram/Tests.antt =====
-- internal/protocol/udp.go at concrete inputs.
use nightveil.Prelude.{Bytes, List, Option, [], arith, codes, none, ok, refl, ◌++◌, ◌∷◌, ◌≡◌}
use nightveil.Io.{buffer_write, buffer-IsWriter}
use nightveil.Protocol.Decimal.{scan_byte, scan_digits, scan_number, skip_space, scan_char}
use nightveil.Protocol.Quad.{Quad, IsQuad, format_quad, parse_ipv4}
use nightveil.Protocol.Datagram.{Message, write_message}
use nightveil.Protocol.Datagram.RoundTrip.{
  as_name, as_quad, read_messages, read_messages-write_messages, write_messages,
}

abbrev parse_ip6 : Bytes → Option Bytes
parse_ip6 s = none

abbrev ip_string : Bytes → Bytes
ip_string ip = ip

abbrev resolver : Quad
resolver = record { a = 8; b = 8; c = 4; d = 4 }

resolver-IsQuad : IsQuad resolver
resolver-IsQuad = omega arith

abbrev queries : List Message
queries =
    record { host = format_quad resolver; port = 53; payload = 1 ∷ 2 ∷ 3 ∷ [] }
    ∷ record { host = codes "dns.a"; port = 443; payload = [] }
    ∷ []

read_messages-write_messages_example :
    (s : Bytes) × ((write_messages parse_ip6 buffer_write [] queries).0 ≡ s)
    × (read_messages ip_string 2 (s ++ 9 ∷ []) ≡ ok (queries, 9 ∷ []))
unfolding parse_ipv4 scan_byte scan_digits scan_number skip_space scan_char format_quad
    write_messages write_message nightveil.Protocol.Decimal.format_byte
read_messages-write_messages_example =
    read_messages-write_messages buffer-IsWriter parse_ip6 ip_string [] queries (9 ∷ [])
      (as_quad resolver resolver-IsQuad refl, (as_name refl refl (omega arith), tt))
      (omega arith, (omega arith, tt)) refl
