-- ===== src/Protocol/Quad.antt =====
-- internal/protocol/framing.go: IPv4 addresses in text.
use nightveil.Prelude.{ℕ, Bytes, Option, append_assoc, refl, some, ◌++◌, ◌<◌, ◌∷◌, ◌≡◌}
use nightveil.Prelude.Steps.{◌>>=◌}
use nightveil.Protocol.Decimal.{format_byte, scan_byte, scan_char, Stops, scan_byte-format_byte}

pub record Quad : Type 0 where
  pub a : ℕ
  pub b : ℕ
  pub c : ℕ
  pub d : ℕ

-- `fmt.Sprintf("%d.%d.%d.%d", …)`
unfoldable pub format_quad : Quad → Bytes
format_quad q =
    format_byte q.a
    ++ b'.' ∷ (format_byte q.b ++ b'.' ∷ (format_byte q.c ++ b'.' ∷ format_byte q.d))

-- `parseIPv4`: the four numbers of `fmt.Sscanf(s, "%d.%d.%d.%d", …)`; what follows the fourth is
-- not looked at.
unfoldable pub parse_ipv4 : Bytes → Option Quad
parse_ipv4 s = do
  (a, r₁) ← scan_byte s
  s₁ ← scan_char b'.' r₁
  (b, r₂) ← scan_byte s₁
  s₂ ← scan_char b'.' r₂
  (c, r₃) ← scan_byte s₂
  s₃ ← scan_char b'.' r₃
  (d, r₄) ← scan_byte s₃
  some (record { a = a; b = b; c = c; d = d })

-- Each part is a byte.
pub record IsQuad (q : Quad) : Type 0 where
  pub a_byte : q.a < 256
  pub b_byte : q.b < 256
  pub c_byte : q.c < 256
  pub d_byte : q.d < 256

-- The text of an address is read as that address, whatever follows it but a digit.
pub parse_ipv4-format_quad :
    (q : Quad) (rest : Bytes) → IsQuad q → Stops rest → parse_ipv4 (format_quad q ++ rest) ≡ some q
unfolding parse_ipv4 format_quad scan_char
parse_ipv4-format_quad q rest v stop = simp append_assoc (
    rw (scan_byte-format_byte q.a _ v.a_byte refl) (
      rw (scan_byte-format_byte q.b _ v.b_byte refl) (
        rw (scan_byte-format_byte q.c _ v.c_byte refl)
          (rw (scan_byte-format_byte q.d rest v.d_byte stop)))))
