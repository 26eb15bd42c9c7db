-- ===== src/Protocol/Address/RoundTrip.antt =====
-- Which hosts a CONNECT payload carries unchanged, and which it does not.
use nightveil.Prelude.{
  ℕ, Bytes, [], append-nil, arith, byte, length, none, some, ◌++◌, ◌<◌, ◌∷◌, ◌≡◌, ◌≢◌, ◌≤◌, ok, ap,
  drop-append_self, drop-drop, if◌then◌else◌, length-append, length-take, ltb, take,
  take-append_self, ◌+◌, err,
}
use nightveil.Protocol.Decimal.{Stops}
use nightveil.Protocol.Quad.{Quad, IsQuad, format_quad, parse_ipv4, parse_ipv4-format_quad}
use nightveil.Protocol.Address.{
  encode_connect_payload, decode_connect_payload, parse_ipv6, addr_domain, addr_ipv4, put_be,
  quad_bytes, get_be, domain_name_too_short,
}

domain_payload : Bytes → ℕ → Bytes
domain_payload host port = addr_domain ∷ byte (length host) ∷ (host ++ put_be port)

encode_domain :
    (host : Bytes) (port : ℕ)
    → parse_ipv4 host ≡ none
    → encode_connect_payload host port ≡ domain_payload host port
unfolding encode_connect_payload parse_ipv6 domain_payload
encode_domain host port e = ground (arith, e)

encode_quad :
    (host : Bytes) (q : Quad) (port : ℕ)
    → parse_ipv4 host ≡ some q
    → encode_connect_payload host port ≡ addr_ipv4 ∷ (quad_bytes q ++ put_be port)
unfolding encode_connect_payload
encode_quad host q port e = ground (arith, e)

-- What is decoded behind the two bytes that announce a name of `n` bytes.
decode_name :
    (n : ℕ) (body : Bytes)
    → decode_connect_payload (addr_domain ∷ n ∷ body) ≡ (
        if ltb (length body) (n + 2)
        then err (domain_name_too_short n)
        else ok (take n body, get_be body n))
unfolding decode_connect_payload
decode_name n body = ground (arith, drop-drop 2 n (2 + n) (addr_domain ∷ n ∷ body))

-- A host of at most 255 bytes that does not begin like an IPv4 address arrives unchanged, with its
-- port.
pub decode-encode_domain :
    (host : Bytes) (port : ℕ)
    → parse_ipv4 host ≡ none
    → length host < 256
    → port < 65536
    → decode_connect_payload (encode_connect_payload host port) ≡ ok (host, port)
unfolding domain_payload
decode-encode_domain host port e h p =
    let size : byte (length host) ≡ length host = omega arith in
    rw (encode_domain host port e, size, decode_name (length host) (host ++ put_be port))
      (ground (
        arith,
        length-append host (put_be port),
        take-append_self host (put_be port),
        drop-append_self host (put_be port),
      ))

-- An IPv4 address arrives unchanged, with its port.
pub decode-encode_quad :
    (q : Quad) (port : ℕ)
    → IsQuad q
    → port < 65536
    → decode_connect_payload (encode_connect_payload (format_quad q) port)
      ≡ ok (format_quad q, port)
unfolding decode_connect_payload
decode-encode_quad q port v p =
    let parsed = rw (append-nil (format_quad q)) at (parse_ipv4-format_quad q [] v tt) in
    rw (encode_quad (format_quad q) q port parsed) (ground arith)

-- A host name that begins with an IPv4 address, as 10.0.0.1.example.com does, is sent and decoded
-- as that address: the rest of the name is lost.
pub decode-encode_prefix :
    (q : Quad) (rest : Bytes) (port : ℕ)
    → IsQuad q
    → Stops rest
    → port < 65536
    → decode_connect_payload (encode_connect_payload (format_quad q ++ rest) port)
      ≡ ok (format_quad q, port)
unfolding decode_connect_payload
decode-encode_prefix q rest port v stop p =
    rw (encode_quad (format_quad q ++ rest) q port (parse_ipv4-format_quad q rest v stop))
      (ground arith)

-- A name of 256 bytes or more never arrives: its length byte has wrapped.
pub decode-encode_long :
    (host : Bytes) (port : ℕ)
    → parse_ipv4 host ≡ none
    → 256 ≤ length host
    → decode_connect_payload (encode_connect_payload host port) ≢ ok (host, port)
unfolding domain_payload
decode-encode_long host port e h r =
    let n = byte (length host) in
    let body = host ++ put_be port in
    let r' = rw (encode_domain host port e, decode_name n body) at r in
    let same : take n body ≡ host = ground arith in
    omega (arith, length-take n body, ap length same)
