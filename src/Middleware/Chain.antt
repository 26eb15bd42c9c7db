-- ===== src/Middleware/Chain.antt =====
-- internal/middleware/middleware.go: the middlewares of a chain. A middleware is its `Wrap`.
pub mod Order
use nightveil.Prelude.{Bytes, List, [], ◌∷◌}

-- `Chain.Wrap`
abbrev pub wrap_all {ℓ} : {C : Type ℓ} → List (C → C) → C → C
wrap_all [] conn = conn
wrap_all (m ∷ ms) conn = wrap_all ms (m conn)

-- A connection by what it puts on the wire for some bytes, and what it makes of the wire.
pub record Conn : Type 0 where
  pub send : Bytes → Bytes
  pub receive : Bytes → Bytes

-- A middleware that transforms what is written and what is read.
abbrev pub codec : (Bytes → Bytes) × (Bytes → Bytes) → Conn → Conn
codec (encode, decode) conn = record {
  send = λ p. conn.send (encode p);
  receive = λ w. decode (conn.receive w);
}
