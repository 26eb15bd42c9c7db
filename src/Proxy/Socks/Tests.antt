-- ===== src/Proxy/Socks/Tests.antt =====
-- internal/proxy/socks5.go at concrete inputs.
use nightveil.Prelude.{Bytes, [], arith, codes, length, ok, refl, ◌++◌, ◌∷◌, ◌≡◌}
use nightveil.Io.{buffer_write}
use nightveil.Proxy.Socks.{handshake, atyp_domain}
use nightveil.Proxy.Socks.Accepted.{
  by_name, greeting, handshake-request, handshake-client_receives, request, client_receives,
}

abbrev ip_string : Bytes → Bytes
ip_string ip = ip

abbrev name : Bytes
name = codes "nv.org"

handshake-request_example :
    handshake buffer_write ip_string []
      (greeting (0 ∷ 2 ∷ []) ++ (request 0 atyp_domain (length name ∷ name) 443 ++ 22 ∷ 3 ∷ []))
    ≡ (5 ∷ 0 ∷ [], ok (record { host = name; port = 443 }, 22 ∷ 3 ∷ []))
handshake-request_example =
    handshake-request ip_string buffer_write [] name (0 ∷ 2 ∷ []) 0 atyp_domain (length name ∷ name)
      443 (22 ∷ 3 ∷ []) (by_name refl refl) (omega arith) refl

-- A request to bind a port.
abbrev bind : Bytes
bind = 5 ∷ 1 ∷ 0 ∷ 5 ∷ 2 ∷ 0 ∷ 1 ∷ 127 ∷ 0 ∷ 0 ∷ 1 ∷ 0 ∷ 80 ∷ []

handshake-client_receives_example :
    (handshake buffer_write ip_string [] bind).0
    ≡ client_receives (handshake buffer_write ip_string [] bind).1
handshake-client_receives_example = handshake-client_receives ip_string bind
