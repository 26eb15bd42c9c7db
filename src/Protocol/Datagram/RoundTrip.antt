-- ===== src/Protocol/Datagram/RoundTrip.antt =====
-- internal/protocol/udp.go: a row of datagrams through the tunnel.
use nightveil.Prelude.{
  All, Bool, Bytes, List, Option, Option-cases, [], ap, append-nil, append_assoc, arith, byte,
  drop-append_self, drop-drop, high_byte, inl, inr, length, length-append, low_byte, none, ok, refl,
  some, suc, sym, take-append_self, take_ge, uint16, zero, ℕ, ◌++◌, ◌+◌, ◌<◌, ◌∙◌, ◌∷◌, ◌≡◌, ◌≤◌,
  Result, ◌>>=◌, join_bytes, drop-append_of, take-append_of, join_bytes_lem, true,
}
use nightveil.Io.{IsWriter, read_full-append}
use nightveil.Protocol.Quad.{Quad, IsQuad, format_quad, parse_ipv4, parse_ipv4-format_quad}
use nightveil.Protocol.Address.{addr_domain, addr_ipv4, addr_ipv6, put_be, quad_bytes}
use nightveil.Protocol.Datagram.{
  Message, MessageError, WriteError, decode_addr, encode_addr, read_message, write_message,
  check_total, write_parts,
}

module _ (parse_ip6 : Bytes → Option Bytes) (ip_string : Bytes → Bytes) where
  -- A host that the address codec keeps: an IPv4 address, an IPv6 address in the form that
  -- `IP.String` prints, or a name of at most 255 bytes that begins like neither.
  pub data IsSendable (host : Bytes) : Type 0 where
    as_quad : (q : Quad) → IsQuad q → host ≡ format_quad q → IsSendable host
    as_ip6 :
        (ip : Bytes)
        → parse_ipv4 host ≡ none
        → parse_ip6 host ≡ some ip
        → length ip ≡ 16
        → ip_string ip ≡ host
        → IsSendable host
    as_name : parse_ipv4 host ≡ none → parse_ip6 host ≡ none → length host < 256 → IsSendable host

  decode_quad :
      (q : Quad) (port : ℕ) (payload : Bytes)
      → port < 65536
      → decode_addr ip_string ((addr_ipv4 ∷ (quad_bytes q ++ put_be port)) ++ payload)
        ≡ ok (format_quad q, port, 7)
  unfolding decode_addr
  decode_quad q port payload p = ground arith

  decode_ip6 :
      (ip : Bytes) (port : ℕ) (payload : Bytes)
      → length ip ≡ 16
      → port < 65536
      → decode_addr ip_string (addr_ipv6 ∷ ((ip ++ put_be port) ++ payload))
        ≡ ok (ip_string ip, port, 19)
  unfolding decode_addr
  decode_ip6 ip port payload e p =
      let tail = put_be port ++ payload in
      rw (append_assoc ip (put_be port) payload) (
        ground
          (arith, length-append ip tail, take-append_of 16 ip tail e, drop-append_of 16 ip tail e))

  decode_name :
      (host : Bytes) (port : ℕ) (payload : Bytes)
      → length host < 256
      → port < 65536
      → decode_addr ip_string
          (addr_domain ∷ byte (length host) ∷ ((host ++ put_be port) ++ payload))
        ≡ ok (host, port, 2 + length host + 2)
  unfolding decode_addr
  decode_name host port payload l p =
      let tail = put_be port ++ payload in
      let size : byte (length host) ≡ length host = omega arith in
      let n = length host in
      rw (size, append_assoc host (put_be port) payload)
        (ground (
          arith,
          length-append host tail,
          take-append_self host tail,
          drop-append_self host tail,
          drop-drop 2 n (2 + n) (addr_domain ∷ n ∷ (host ++ tail)),
        ))

  encode_quad :
      (host : Bytes) (q : Quad) (port : ℕ)
      → parse_ipv4 host ≡ some q
      → encode_addr parse_ip6 host port ≡ addr_ipv4 ∷ (quad_bytes q ++ put_be port)
  unfolding encode_addr
  encode_quad host q port h = ground (arith, h)

  encode_ip6 :
      (host ip : Bytes) (port : ℕ)
      → parse_ipv4 host ≡ none
      → parse_ip6 host ≡ some ip
      → length ip ≡ 16
      → encode_addr parse_ip6 host port ≡ addr_ipv6 ∷ (ip ++ put_be port)
  unfolding encode_addr
  encode_ip6 host ip port h k l = ground (arith, h, k, take_ge 16 ip)

  encode_name :
      (host : Bytes) (port : ℕ)
      → parse_ipv4 host ≡ none
      → parse_ip6 host ≡ none
      → encode_addr parse_ip6 host port ≡ addr_domain ∷ byte (length host) ∷ (host ++ put_be port)
  unfolding encode_addr
  encode_name host port h k = ground (arith, h, k)

  -- A host that can be sent comes back with its port, and so does how many bytes they took.
  decode_addr-encode_addr :
      (host : Bytes) (port : ℕ) (payload : Bytes)
      → IsSendable host
      → port < 65536
      → let addr = encode_addr parse_ip6 host port in
        (decode_addr ip_string (addr ++ payload) ≡ ok (host, port, length addr)) × (4 ≤ length addr)
  unfolding encode_addr
  decode_addr-encode_addr host port payload (as_quad q v e) p =
      let parsed : parse_ipv4 host ≡ some q =
        rw e (rw (append-nil (format_quad q)) at (parse_ipv4-format_quad q [] v tt)) in
      rw (encode_quad host q port parsed)
        (decode_quad q port payload p ∙ ap (λ h. ok (h, port, 7)) (sym e), omega arith)
  decode_addr-encode_addr host port payload (as_ip6 ip h k l e) p =
      let size : length (addr_ipv6 ∷ (ip ++ put_be port)) ≡ 19 =
        omega (arith, l, length-append ip (put_be port)) in
      rw (encode_ip6 host ip port h k l, size)
        (decode_ip6 ip port payload l p ∙ ap (λ x. ok (x, port, 19)) e, omega arith)
  decode_addr-encode_addr host port payload (as_name h k l) p =
      let size : length (addr_domain ∷ byte (length host) ∷ (host ++ put_be port))
          ≡ 2 + length host + 2 =
        omega (arith, length-append host (put_be port)) in
      rw (encode_name host port h k, size) (decode_name host port payload l p, omega arith)

  -- What `WriteMessage` puts on the wire.
  abbrev pub message_bytes : Message → Bytes
  message_bytes m =
      let body = encode_addr parse_ip6 m.host m.port ++ m.payload in
      low_byte (length body) ∷ high_byte (length body) ∷ body

  check_total_lem :
      (body : Bytes)
      → 4 ≤ length body
      → length body ≤ 65535
      → check_total ip_string (join_bytes (low_byte (length body)) (high_byte (length body)))
        ≡ ok (length body)
  check_total_lem body h k = ground (arith, join_bytes_lem (length body) (omega arith))

  read_message-message_bytes :
      (m : Message) (rest : Bytes)
      → IsSendable m.host
      → m.port < 65536
      → length (encode_addr parse_ip6 m.host m.port ++ m.payload) ≤ 65535
      → read_message ip_string (message_bytes m ++ rest) ≡ ok (m, rest)
  unfolding read_message
  read_message-message_bytes m rest s p l =
      let addr = encode_addr parse_ip6 m.host m.port in
      let body = addr ++ m.payload in
      let (back, four) = decode_addr-encode_addr m.host m.port m.payload s p in
      let long : 4 ≤ length body = omega (arith, length-append addr m.payload) in
      rw
        (read_full-append (low_byte (length body) ∷ high_byte (length body) ∷ []) (body ++ rest) 2
          refl)
        (rw (check_total_lem body long l) (
          rw (read_full-append body rest (length body) refl)
            (rw (back, drop-append_self addr m.payload) refl)))

-- A sender that stops at the first error.
unfoldable pub write_messages :
    {W : Type 0}
    → (Bytes → Option Bytes)
    → (W → Bytes → W × Bool)
    → W
    → List Message
    → W × Option WriteError
write_messages parse_ip6 write w [] = (w, none)
write_messages parse_ip6 write w (m ∷ ms) =
    let one = write_message parse_ip6 write w m in
    let rest = write_messages parse_ip6 write one.0 ms in
    elim one.1 [ none ↦ rest | some e ↦ (one.0, some e) ]

-- A receiver of a number of datagrams.
unfoldable pub read_messages :
    (Bytes → Bytes) → ℕ → Bytes → Result MessageError (List Message × Bytes)
read_messages ip_string zero s = ok ([], s)
read_messages ip_string (suc n) s = do
  (m, rest) ← read_message ip_string s
  (ms, last) ← read_messages ip_string n rest
  ok (m ∷ ms, last)

module _ {W : Type 0} {write : W → Bytes → W × Bool} {contents : W → Bytes}
    (law : IsWriter write contents) (parse_ip6 : Bytes → Option Bytes)
    (ip_string : Bytes → Bytes) where
  -- Without an error, all three writes report success and the length fits its field.
  write_parts-none :
      (w : W) (addr payload : Bytes)
      → (write_parts write w addr payload).1 ≡ none
      → let n = length addr + length payload in
        let first = write w (low_byte (uint16 n) ∷ high_byte (uint16 n) ∷ []) in
        let second = write first.0 addr in
        let third = write second.0 payload in
        (n ≤ 65535)
        × (first.1 ≡ true)
        × (second.1 ≡ true)
        × (third.1 ≡ true)
        × ((write_parts write w addr payload).0 ≡ third.0)
  unfolding write_parts
  write_parts-none w addr payload h = ground arith

  write_parts-ok :
      (w : W) (addr payload : Bytes)
      → (write_parts write w addr payload).1 ≡ none
      → let body = addr ++ payload in
        (contents (write_parts write w addr payload).0
          ≡ contents w ++ (low_byte (length body) ∷ high_byte (length body) ∷ body))
        × (length body ≤ 65535)
  write_parts-ok w addr payload h =
      let n = length addr + length payload in
      let head : ℕ → Bytes = λ k. low_byte k ∷ high_byte k ∷ [] in
      let first = write w (head (uint16 n)) in
      let second = write first.0 addr in
      let (fits, sent, addr_sent, done, last) = write_parts-none w addr payload h in
      let size : uint16 n ≡ length (addr ++ payload) = omega (arith, length-append addr payload) in
      let grown =
        ap contents last
        ∙ law.appends second.0 payload done
        ∙ ap (λ c. c ++ payload)
            (law.appends first.0 addr addr_sent
              ∙ ap (λ c. c ++ addr) (law.appends w (head (uint16 n)) sent))
        ∙ append_assoc (contents w ++ head (uint16 n)) addr payload
        ∙ append_assoc (contents w) (head (uint16 n)) (addr ++ payload)
        ∙ ap (λ k. contents w ++ (head k ++ (addr ++ payload))) size in
      (grown, omega (arith, length-append addr payload))

  write_message-ok :
      (w : W) (m : Message)
      → (write_message parse_ip6 write w m).1 ≡ none
      → (contents (write_message parse_ip6 write w m).0
          ≡ contents w ++ message_bytes parse_ip6 ip_string m)
        × (length (encode_addr parse_ip6 m.host m.port ++ m.payload) ≤ 65535)
  unfolding write_message
  write_message-ok w m h = write_parts-ok w (encode_addr parse_ip6 m.host m.port) m.payload h

  -- If every datagram of a row is written without an error, what the writer has passed on grew by a
  -- byte string from which the receiver reads exactly these datagrams in order, and leaves whatever
  -- follows; each host being one that can be sent, each port a 16-bit number.
  pub read_messages-write_messages :
      (w : W) (ms : List Message) (rest : Bytes)
      → All (λ m. IsSendable parse_ip6 ip_string m.host) ms
      → All (λ m. m.port < 65536) ms
      → (write_messages parse_ip6 write w ms).1 ≡ none
      → (s : Bytes) × (contents (write_messages parse_ip6 write w ms).0 ≡ contents w ++ s)
        × (read_messages ip_string (length ms) (s ++ rest) ≡ ok (ms, rest))
  unfolding write_messages read_messages
  read_messages-write_messages w [] rest b p h = ([], sym (append-nil (contents w)), refl)
  read_messages-write_messages w (m ∷ ms) rest (b, bs) (p, ps) h =
      elim (Option-cases (write_message parse_ip6 write w m).1) [
        | inr (x, e) ↦ let bad = rw (e, write_messages) at h in cc
        | inl e ↦
            let (one, small) = write_message-ok w m e in
            let bytes = message_bytes parse_ip6 ip_string m in
            let (s, more, back) =
              read_messages-write_messages (write_message parse_ip6 write w m).0 ms rest bs ps
                (rw (e, write_messages) at h) in
            (
              bytes ++ s,
              rw (e, write_messages)
                  (more ∙ ap (λ c. c ++ s) one ∙ append_assoc (contents w) bytes s),
              rw (append_assoc bytes s rest) (
                  rw (read_message-message_bytes parse_ip6 ip_string m (s ++ rest) b p small)
                    (rw back)),
            )
      ]
