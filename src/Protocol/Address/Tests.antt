-- ===== src/Protocol/Address/Tests.antt =====
-- Runs of the address codec, and the theorems about it at concrete inputs.
use nightveil.Prelude.{Bytes, arith, codes, none, refl, replicate, some, ◌++◌, ◌≡◌, ◌≢◌, ok}
use nightveil.Protocol.Decimal.{
  format_byte, scan_byte, scan_digits, scan_number, skip_space, scan_char,
}
use nightveil.Protocol.Quad.{Quad, IsQuad, format_quad, parse_ipv4}
use nightveil.Protocol.Address.{encode_connect_payload, decode_connect_payload}
use nightveil.Protocol.Address.RoundTrip.{
  decode-encode_domain, decode-encode_quad, decode-encode_prefix, decode-encode_long,
}

abbrev local : Quad
local = record { a = 10; b = 0; c = 0; d = 201 }

local-IsQuad : IsQuad local
local-IsQuad = omega arith

format_local : format_quad local ≡ codes "10.0.0.201"
unfolding format_quad format_byte
format_local = refl

parse_local : parse_ipv4 (codes "10.0.0.201.example.com") ≡ some local
unfolding parse_ipv4 scan_byte scan_digits scan_number skip_space scan_char
parse_local = refl

not_a_quad : parse_ipv4 (codes "1.2.3.256") ≡ none
unfolding parse_ipv4 scan_byte scan_digits scan_number skip_space scan_char
not_a_quad = refl

decode-encode_domain_example :
    decode_connect_payload (encode_connect_payload (codes "ab.c") 443) ≡ ok (codes "ab.c", 443)
unfolding parse_ipv4 scan_byte scan_digits scan_number skip_space scan_char
decode-encode_domain_example =
    decode-encode_domain (codes "ab.c") 443 refl (omega arith) (omega arith)

decode-encode_quad_example :
    decode_connect_payload (encode_connect_payload (format_quad local) 80)
    ≡ ok (format_quad local, 80)
decode-encode_quad_example = decode-encode_quad local 80 local-IsQuad (omega arith)

decode-encode_prefix_example :
    decode_connect_payload (encode_connect_payload (format_quad local ++ codes ".example.com") 80)
    ≡ ok (format_quad local, 80)
decode-encode_prefix_example =
    decode-encode_prefix local (codes ".example.com") 80 local-IsQuad refl (omega arith)

abbrev long_name : Bytes
long_name = replicate 300 b'a'

decode-encode_long_example :
    decode_connect_payload (encode_connect_payload long_name 80) ≢ ok (long_name, 80)
unfolding parse_ipv4 scan_byte scan_digits scan_number skip_space scan_char
decode-encode_long_example = decode-encode_long long_name 80 refl (omega arith)
