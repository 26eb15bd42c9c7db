-- ===== src/Protocol/Address.antt =====
-- internal/protocol/framing.go: the payload of a CONNECT frame. A host is the list of its bytes.
pub mod RoundTrip
pub mod Tests
use nightveil.Prelude.{
  Bytes, Option, Result, [], byte, drop, get_or, high_byte, if◌then◌else◌, join_bytes, length,
  low_byte, ltb, none, not, some, take, ℕ, ◌%◌, ◌++◌, ◌+◌, ◌-◌, ◌/◌, ◌==◌, ◌>>=◌, ◌||◌, ◌∷◌, err,
  ok,
}
use nightveil.Protocol.Quad.{Quad, format_quad, parse_ipv4}

-- `parseIPv6` finds an address in no text.
unfoldable pub parse_ipv6 : Bytes → Option Bytes
parse_ipv6 s = if ltb (length s) 2 || not (get_or s 0 0 == b'[') then none else none

abbrev pub addr_ipv4 : ℕ
addr_ipv4 = 1

abbrev pub addr_domain : ℕ
addr_domain = 3

abbrev pub addr_ipv6 : ℕ
addr_ipv6 = 4

-- `binary.BigEndian.PutUint16`
abbrev pub put_be : ℕ → Bytes
put_be v = high_byte v ∷ low_byte v ∷ []

abbrev pub quad_bytes : Quad → Bytes
quad_bytes q = q.a ∷ q.b ∷ q.c ∷ q.d ∷ []

unfoldable pub encode_connect_payload : Bytes → ℕ → Bytes
unfolding parse_ipv6
encode_connect_payload host port = elim (parse_ipv4 host) [
  | some q ↦ addr_ipv4 ∷ (quad_bytes q ++ put_be port)
  | none ↦ elim (parse_ipv6 host) [
    | some ip ↦ addr_ipv6 ∷ (ip ++ put_be port)
    | none ↦ addr_domain ∷ byte (length host) ∷ (host ++ put_be port)
  ]
]

pub data AddressError : Type 0 where
  payload_too_short ipv4_too_short ipv6_too_short domain_too_short : AddressError
  domain_name_too_short : ℕ → AddressError
  unknown_address_type : ℕ → AddressError

-- `binary.BigEndian.Uint16(s[i:i+2])`, within bounds.
abbrev pub get_be : Bytes → ℕ → ℕ
get_be s i = let t = drop i s in join_bytes (get_or t 1 0) (get_or t 0 0)

-- `%x` of a 16-bit number: no leading zeros.
abbrev hex_digit : ℕ → ℕ
hex_digit n = if ltb n 10 then b'0' + n else b'a' + (n - 10)

format_hex : ℕ → Bytes
format_hex n =
    if ltb n 16
    then hex_digit n ∷ []
    else if ltb n 256
    then hex_digit (n / 16) ∷ hex_digit (n % 16) ∷ []
    else if ltb n 4096
    then hex_digit (n / 256) ∷ hex_digit (n / 16 % 16) ∷ hex_digit (n % 16) ∷ []
    else hex_digit (n / 4096)
      ∷ hex_digit (n / 256 % 16)
      ∷ hex_digit (n / 16 % 16)
      ∷ hex_digit (n % 16)
      ∷ []

-- The eight groups in brackets.
unfoldable pub format_ipv6 : Bytes → Bytes
unfolding format_hex
format_ipv6 s =
    b'['
    ∷ (format_hex (get_be s 1)
        ++ b':'
          ∷ (format_hex (get_be s 3)
              ++ b':'
                ∷ (format_hex (get_be s 5)
                    ++ b':'
                      ∷ (format_hex (get_be s 7)
                          ++ b':'
                            ∷ (format_hex (get_be s 9)
                                ++ b':'
                                  ∷ (format_hex (get_be s 11)
                                      ++ b':'
                                        ∷ (format_hex (get_be s 13)
                                            ++ b':' ∷ (format_hex (get_be s 15) ++ b']' ∷ []))))))))

abbrev pub decode_domain : Bytes → Result AddressError (Bytes × ℕ)
decode_domain s =
    let name_len = get_or s 1 0 in
    if ltb (length s) 2
    then err domain_too_short
    else if ltb (length s) (2 + name_len + 2)
    then err (domain_name_too_short name_len)
    else ok (take name_len (drop 2 s), get_be s (2 + name_len))

unfoldable pub decode_connect_payload : Bytes → Result AddressError (Bytes × ℕ)
decode_connect_payload s =
    let kind = get_or s 0 0 in
    let quad : Quad = record {
      a = get_or s 1 0;
      b = get_or s 2 0;
      c = get_or s 3 0;
      d = get_or s 4 0;
    } in
    if ltb (length s) 1
    then err payload_too_short
    else if kind == addr_ipv4
    then if ltb (length s) 7 then err ipv4_too_short else ok (format_quad quad, get_be s 5)
    else if kind == addr_ipv6
    then if ltb (length s) 19 then err ipv6_too_short else ok (format_ipv6 s, get_be s 17)
    else if kind == addr_domain
    then decode_domain s
    else err (unknown_address_type kind)
