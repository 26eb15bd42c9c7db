-- ===== src/Proxy/Socks/Accepted.antt =====
-- internal/proxy/socks5.go: which inputs the handshake accepts, and what the client is client_receives.
use nightveil.Prelude.{
  Bool, Bytes, [], ap, append_assoc, arith, high_byte, inl, inr, length, low_byte, ok, refl, sym, ℕ,
  ◌++◌, ◌<◌, ◌∷◌, ◌≡◌, Result, true, join_bytes, join_bytes_lem, err, Result-cases, false,
  if◌then◌else◌,
}
use nightveil.Io.{read_full, read_full-append}
use nightveil.Protocol.Quad.{Quad, format_quad}
use nightveil.Protocol.Address.{put_be, quad_bytes}
use nightveil.Proxy.Socks.{
  auth_reply_not_written, auth_header_not_read, methods_not_read, request_not_read,
  address_not_read, port_not_read, unsupported_version, bad_version, unsupported_command,
  unsupported_address_type, reply, SocksError, Target, atyp_domain, atyp_ipv4, atyp_ipv6, handshake,
  read_address, read_greeting, read_request, finish, check_request, cmd_connect, socks5_version,
  after_greeting, auth_header_not_read, unsupported_command, unsupported_version, reply,
  methods_not_read, unsupported_address_type,
}

-- The negotiation message of a client with these methods.
abbrev pub greeting : Bytes → Bytes
greeting methods = socks5_version ∷ length methods ∷ methods

-- A CONNECT request with this type of address, these bytes for it, and this port.
abbrev pub request : ℕ → ℕ → Bytes → ℕ → Bytes
request rsv atyp addr port = socks5_version ∷ cmd_connect ∷ rsv ∷ atyp ∷ (addr ++ put_be port)

-- An error of the negotiation.
abbrev pub is_early : SocksError → Bool
is_early (auth_header_not_read e) = true
is_early (unsupported_version v) = true
is_early (methods_not_read e) = true
is_early auth_reply_not_written = true
is_early _ = false

-- What the client has been sent by the end.
abbrev pub client_receives : Result SocksError (Target × Bytes) → Bytes
client_receives (ok t) = socks5_version ∷ 0 ∷ []
client_receives (err (unsupported_command c)) = socks5_version ∷ 0 ∷ reply 7
client_receives (err (unsupported_address_type t)) = socks5_version ∷ 0 ∷ reply 8
client_receives (err e) = if is_early e then [] else socks5_version ∷ 0 ∷ []

read_greeting-early :
    (s : Bytes) {e : SocksError} → read_greeting s ≡ err e → client_receives (err e) ≡ []
unfolding read_greeting read_full
read_greeting-early s h = ground arith

client_receives-late :
    (e : SocksError)
    → is_early e ≡ false
    → (finish (λ w b. (w ++ b, true)) (socks5_version ∷ 0 ∷ []) (err e)).0 ≡ client_receives (err e)
client_receives-late (auth_header_not_read x) h = cc
client_receives-late (methods_not_read x) h = cc
client_receives-late (request_not_read x) h = refl
client_receives-late (address_not_read x) h = refl
client_receives-late (port_not_read x) h = refl
client_receives-late (unsupported_version v) h = cc
client_receives-late (bad_version v) h = refl
client_receives-late (unsupported_command c) h = refl
client_receives-late (unsupported_address_type t) h = refl
client_receives-late auth_reply_not_written h = cc

module _ (ip_string : Bytes → Bytes) where
  -- The bytes `addr` of type `atyp` stand for the host.
  pub data Names (host : Bytes) (atyp : ℕ) (addr : Bytes) : Type 0 where
    by_quad :
        (q : Quad)
        → host ≡ format_quad q
        → atyp ≡ atyp_ipv4
        → addr ≡ quad_bytes q
        → Names host atyp addr
    by_name : atyp ≡ atyp_domain → addr ≡ length host ∷ host → Names host atyp addr
    by_ip6 : length addr ≡ 16 → host ≡ ip_string addr → atyp ≡ atyp_ipv6 → Names host atyp addr

  read_address-Names :
      (host : Bytes) (atyp : ℕ) (addr rest : Bytes)
      → Names host atyp addr
      → read_address ip_string atyp (addr ++ rest) ≡ ok (host, rest)
  unfolding read_address
  read_address-Names host atyp addr rest (by_quad q h e k) =
      rw (e, k, h) (rw (read_full-append (quad_bytes q) rest 4 refl) refl)
  read_address-Names host atyp addr rest (by_name e k) =
      rw (e, k)
        (rw (read_full-append (length host ∷ []) (host ++ rest) 1 refl)
          (rw (read_full-append host rest (length host) refl) refl))
  read_address-Names host atyp addr rest (by_ip6 l h e) =
      rw (e, h) (rw (read_full-append addr rest 16 (sym l)) refl)

  -- A request is read as its target.
  read_request-request :
      (host : Bytes) (rsv atyp : ℕ) (addr : Bytes) (port : ℕ) (rest : Bytes)
      → Names host atyp addr
      → port < 65536
      → read_request ip_string (request rsv atyp addr port ++ rest)
        ≡ ok (record { host = host; port = port }, rest)
  unfolding read_request
  read_request-request host rsv atyp addr port rest n p =
      let head = socks5_version ∷ cmd_connect ∷ rsv ∷ atyp ∷ [] in
      let tail = put_be port ++ rest in
      let value : join_bytes (low_byte port) (high_byte port) ≡ port = join_bytes_lem port p in
      rw (append_assoc addr (put_be port) rest) (
        rw (read_full-append head (addr ++ tail) 4 refl) (
          rw (read_address-Names host atyp addr tail n) (
            rw (read_full-append (put_be port) rest 2 refl)
              (ap (λ k. ok (record { host = host; port = k }, rest)) value))))

  read_greeting-greeting :
      (methods rest : Bytes) → read_greeting (greeting methods ++ rest) ≡ ok rest
  unfolding read_greeting
  read_greeting-greeting methods rest =
      rw (read_full-append (socks5_version ∷ length methods ∷ []) (methods ++ rest) 2 refl)
        (rw (read_full-append methods rest (length methods) refl) refl)

  -- A client that offers any methods and asks to connect to a host, by an IPv4 address, by an IPv6
  -- address or by a name, is client_receives that no authentication is needed, and nothing else yet; the
  -- handshake returns that host and its port, and leaves what follows the request; if the reply
  -- is written.
  pub handshake-request :
      {W : Type 0} (write : W → Bytes → W × Bool) (w : W) (host methods : Bytes) (rsv atyp : ℕ)
      (addr : Bytes) (port : ℕ) (rest : Bytes)
      → Names host atyp addr
      → port < 65536
      → (write w (socks5_version ∷ 0 ∷ [])).1 ≡ true
      → handshake write ip_string w (greeting methods ++ (request rsv atyp addr port ++ rest))
        ≡ ((write w (socks5_version ∷ 0 ∷ [])).0, ok (record { host = host; port = port }, rest))
  unfolding handshake after_greeting
  handshake-request write w host methods rsv atyp addr port rest n p sent =
      rw (read_greeting-greeting methods (request rsv atyp addr port ++ rest))
        (rw (sent, read_request-request host rsv atyp addr port rest n p) refl)

  read_address-late :
      (atyp : ℕ) (s : Bytes) {e : SocksError}
      → read_address ip_string atyp s ≡ err e
      → is_early e ≡ false
  unfolding read_address read_full
  read_address-late atyp s h = ground arith

  read_request-late :
      (s : Bytes) {e : SocksError} → read_request ip_string s ≡ err e → is_early e ≡ false
  unfolding read_request
  read_request-late s {e} h = elim (Result-cases (read_full s 4)) [
    | inr (x, k) ↦ ground arith
    | inl ((head, s₁), k) ↦ elim (Result-cases (check_request head)) [
      | inr (x, l) ↦ ground arith
      | inl (atyp, l) ↦ elim (Result-cases (read_address ip_string atyp s₁)) [
        | inr (x, m) ↦
            let late = read_address-late atyp s₁ m in
            let h' = rw (k) at h in
            let stop = rw (l) at h' in let same = rw (m) at stop in ground arith
        | inl ((host, s₂), m) ↦ elim (Result-cases (read_full s₂ 2)) [
          | inl (p, n) ↦
              let h' = rw (k) at h in
              let h₂ = rw (l) at h' in let h₃ = rw (m) at h₂ in let h₄ = rw (n) at h₃ in cc
          | inr (x, n) ↦
              let h' = rw (k) at h in
              let h₂ = rw (l) at h' in
              let h₃ = rw (m) at h₂ in let h₄ = rw (n) at h₃ in ground arith
        ]
      ]
    ]
  ]

  -- What the client is sent in all: nothing when the negotiation fails; otherwise the choice of no
  -- authentication, and behind it at most one reply, which tells an unsupported command or an
  -- unsupported type of address.
  pub handshake-client_receives :
      (s : Bytes)
      → let (sent, r) = handshake (λ w b. (w ++ b, true)) ip_string [] s in sent ≡ client_receives r
  unfolding handshake after_greeting
  handshake-client_receives s = elim (Result-cases (read_greeting s)) [
    | inr (e, h) ↦ rw h (rw (read_greeting-early s h) refl)
    | inl (rest, h) ↦ elim (Result-cases (read_request ip_string rest)) [
      | inl (t, k) ↦ rw h (rw k refl)
      | inr (e, k) ↦ rw h (rw k (client_receives-late e (read_request-late rest k)))
    ]
  ]
