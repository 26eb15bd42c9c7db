-- ===== src/Proxy/Socks.antt =====
-- internal/proxy/socks5.go: the handshake with a local SOCKS5 client. What the client sends is a
-- stream of bytes. `net.IP.String` is a parameter.
pub mod Accepted
pub mod Tests
use nightveil.Prelude.{
  Bool, Bytes, Option, Result, [], byte, get_or, if◌then◌else◌, join_bytes, none, not, some, wrap,
  ℕ, ◌==◌, ◌>>=◌, ◌∷◌, err, ok,
}
use nightveil.Io.{ReadError, read_full}
use nightveil.Protocol.Quad.{Quad, format_quad}

abbrev pub socks5_version : ℕ
socks5_version = 5

abbrev pub cmd_connect : ℕ
cmd_connect = 1

abbrev pub atyp_ipv4 : ℕ
atyp_ipv4 = 1

abbrev pub atyp_domain : ℕ
atyp_domain = 3

abbrev pub atyp_ipv6 : ℕ
atyp_ipv6 = 4

abbrev pub rep_success : ℕ
rep_success = 0

abbrev pub rep_failure : ℕ
rep_failure = 1

-- `SOCKS5Target`
pub record Target : Type 0 where
  pub host : Bytes
  pub port : ℕ

pub data SocksError : Type 0 where
  auth_header_not_read methods_not_read request_not_read address_not_read port_not_read :
      ReadError → SocksError
  unsupported_version bad_version unsupported_command unsupported_address_type : ℕ → SocksError
  auth_reply_not_written : SocksError

-- The negotiation up to its reply: what is left of the input.
unfoldable pub read_greeting : Bytes → Result SocksError Bytes
read_greeting s = do
  (h, s₁) ← wrap auth_header_not_read (read_full s 2)
  methods ←
      if not (get_or h 0 0 == socks5_version)
      then err (unsupported_version (get_or h 0 0))
      else wrap methods_not_read (read_full s₁ (get_or h 1 0))
  ok methods.1

abbrev pub read_domain : Bytes → Result SocksError (Bytes × Bytes)
read_domain s = do
  (n, s₁) ← wrap address_not_read (read_full s 1)
  wrap address_not_read (read_full s₁ (get_or n 0 0))

abbrev pub quad_host : Bytes → Bytes
quad_host b =
    format_quad (record { a = get_or b 0 0; b = get_or b 1 0; c = get_or b 2 0; d = get_or b 3 0 })

abbrev pub check_request : Bytes → Result SocksError ℕ
check_request h =
    if not (get_or h 0 0 == socks5_version)
    then err (bad_version (get_or h 0 0))
    else if not (get_or h 1 0 == cmd_connect)
    then err (unsupported_command (get_or h 1 0))
    else ok (get_or h 3 0)

module _ (ip_string : Bytes → Bytes) where
  -- The host, and what is left of the input.
  unfoldable pub read_address : ℕ → Bytes → Result SocksError (Bytes × Bytes)
  read_address atyp s =
      if atyp == atyp_ipv4
      then (do (b, rest) ← wrap address_not_read (read_full s 4); ok (quad_host b, rest))
      else if atyp == atyp_domain
      then read_domain s
      else if atyp == atyp_ipv6
      then (do (b, rest) ← wrap address_not_read (read_full s 16); ok (ip_string b, rest))
      else err (unsupported_address_type atyp)

  unfoldable pub read_request : Bytes → Result SocksError (Target × Bytes)
  unfolding read_address
  read_request s = do
    (h, s₁) ← wrap request_not_read (read_full s 4)
    atyp ← check_request h
    (host, s₂) ← read_address atyp s₁
    (p, rest) ← wrap port_not_read (read_full s₂ 2)
    ok (record { host = host; port = join_bytes (get_or p 1 0) (get_or p 0 0) }, rest)

-- The reply that an error sends before it is returned.
abbrev pub error_reply : SocksError → Option ℕ
error_reply (unsupported_command c) = some 7
error_reply (unsupported_address_type t) = some 8
error_reply _ = none

-- `sendSOCKS5Reply`
abbrev pub reply : ℕ → Bytes
reply rep = socks5_version ∷ byte rep ∷ 0 ∷ atyp_ipv4 ∷ 0 ∷ 0 ∷ 0 ∷ 0 ∷ 0 ∷ 0 ∷ []

module _ {W : Type 0} (write : W → Bytes → W × Bool) where
  abbrev pub send_reply : W → ℕ → W × Bool
  send_reply w rep = write w (reply rep)

  unfoldable pub send_success : W → W × Bool
  send_success w = send_reply w rep_success

  unfoldable pub send_failure : W → W × Bool
  send_failure w = send_reply w rep_failure

  abbrev pub answer : W → Option ℕ → W
  answer w none = w
  answer w (some rep) = (send_reply w rep).0

  -- The part of the handshake behind the negotiation.
  abbrev pub finish :
      W → Result SocksError (Target × Bytes) → W × Result SocksError (Target × Bytes)
  finish w (ok t) = (w, ok t)
  finish w (err e) = (answer w (error_reply e), err e)

  -- The handshake from the outcome of the negotiation on.
  unfoldable pub after_greeting :
      (Bytes → Bytes) → W → Result SocksError Bytes → W × Result SocksError (Target × Bytes)
  unfolding read_request
  after_greeting ip_string w (err e) = (w, err e)
  after_greeting ip_string w (ok s) =
      let (w₁, sent) = write w (socks5_version ∷ 0 ∷ []) in
      let done = finish w₁ (read_request ip_string s) in
      if not sent then (w₁, err auth_reply_not_written) else done

  -- `SOCKS5Handshake`: on success, the target and what is left of the input.
  unfoldable pub handshake : (Bytes → Bytes) → W → Bytes → W × Result SocksError (Target × Bytes)
  unfolding after_greeting read_greeting
  handshake ip_string w s = after_greeting ip_string w (read_greeting s)
