-- ===== src/Protocol/Datagram.antt =====
-- internal/protocol/udp.go: datagrams on the tunnel. Of package net, `ParseIP` and `IP.String` are
-- parameters: `parse_ip6` gives the 16 bytes of a text that is an IPv6 address and not an IPv4 one.
pub mod RoundTrip
pub mod Tests
use nightveil.Prelude.{
  Bool, Bytes, Option, Result, [], byte, drop, get_or, high_byte, if◌then◌else◌, join_bytes, length,
  low_byte, ltb, none, not, some, take, uint16, wrap, ℕ, ◌++◌, ◌+◌, ◌==◌, ◌>>=◌, ◌∷◌, err, ok,
}
use nightveil.Io.{ReadError, read_full}
use nightveil.Protocol.Quad.{Quad, format_quad, parse_ipv4}
use nightveil.Protocol.Address.{addr_domain, addr_ipv4, addr_ipv6, get_be, put_be, quad_bytes}

-- `UDPMessage`
pub record Message : Type 0 where
  pub host : Bytes
  pub port : ℕ
  pub payload : Bytes

pub data AddrError : Type 0 where
  empty_addr ipv4_too_short ipv6_too_short domain_too_short domain_truncated : AddrError
  unknown_type : ℕ → AddrError

pub data WriteError : Type 0 where
  too_large : ℕ → WriteError
  not_written : WriteError

pub data MessageError : Type 0 where
  header_not_read body_not_read : ReadError → MessageError
  too_short : ℕ → MessageError
  addr_not_parsed : AddrError → MessageError

-- `WriteMessage` behind the call of `encodeAddr`.
unfoldable pub write_parts :
    {W : Type 0} → (W → Bytes → W × Bool) → W → Bytes → Bytes → W × Option WriteError
write_parts write w addr payload =
    let total_len = length addr + length payload in
    let (w₁, sent) = write w (low_byte (uint16 total_len) ∷ high_byte (uint16 total_len) ∷ []) in
    let (w₂, addr_sent) = write w₁ addr in
    let (w₃, done) = write w₂ payload in
    if ltb 65535 total_len
    then (w, some (too_large total_len))
    else if not sent
    then (w₁, some not_written)
    else if not addr_sent
    then (w₂, some not_written)
    else if not done
    then (w₃, some not_written)
    else (w₃, none)

module _ (parse_ip6 : Bytes → Option Bytes) where
  unfoldable pub encode_addr : Bytes → ℕ → Bytes
  encode_addr host port = elim (parse_ipv4 host) [
    | some q ↦ addr_ipv4 ∷ (quad_bytes q ++ put_be port)
    | none ↦ elim (parse_ip6 host) [
      | some ip ↦ addr_ipv6 ∷ (take 16 ip ++ put_be port)
      | none ↦ addr_domain ∷ byte (length host) ∷ (host ++ put_be port)
    ]
  ]

  unfoldable pub write_message :
      {W : Type 0} → (W → Bytes → W × Bool) → W → Message → W × Option WriteError
  unfolding encode_addr write_parts
  write_message write w m = write_parts write w (encode_addr m.host m.port) m.payload

module _ (ip_string : Bytes → Bytes) where
  -- The host, the port, and how many bytes they take.
  unfoldable pub decode_addr : Bytes → Result AddrError (Bytes × ℕ × ℕ)
  decode_addr s =
      let kind = get_or s 0 0 in
      let name_len = get_or s 1 0 in
      let quad : Quad = record {
        a = get_or s 1 0;
        b = get_or s 2 0;
        c = get_or s 3 0;
        d = get_or s 4 0;
      } in
      if ltb (length s) 1
      then err empty_addr
      else if kind == addr_ipv4
      then if ltb (length s) 7 then err ipv4_too_short else ok (format_quad quad, get_be s 5, 7)
      else if kind == addr_ipv6
      then if ltb (length s) 19
        then err ipv6_too_short
        else ok (ip_string (take 16 (drop 1 s)), get_be s 17, 19)
      else if kind == addr_domain
      then if ltb (length s) 2
        then err domain_too_short
        else if ltb (length s) (2 + name_len + 2)
        then err domain_truncated
        else ok (take name_len (drop 2 s), get_be s (2 + name_len), 2 + name_len + 2)
      else err (unknown_type kind)

  abbrev pub check_total : ℕ → Result MessageError ℕ
  check_total n = if ltb n 4 then err (too_short n) else ok n

  -- The message, and the rest of the stream.
  unfoldable pub read_message : Bytes → Result MessageError (Message × Bytes)
  unfolding decode_addr
  read_message s = do
    (h, body) ← wrap header_not_read (read_full s 2)
    total_len ← check_total (join_bytes (get_or h 0 0) (get_or h 1 0))
    (buf, rest) ← wrap body_not_read (read_full body total_len)
    (host, port, addr_len) ← wrap addr_not_parsed (decode_addr buf)
    ok (record { host = host; port = port; payload = drop addr_len buf }, rest)
