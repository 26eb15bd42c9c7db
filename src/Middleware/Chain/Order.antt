-- ===== src/Middleware/Chain/Order.antt =====
-- internal/middleware/middleware.go: in which order a chain acts.
use nightveil.Prelude.{All, Bytes, List, [], map, refl, ap, ◌++◌, ◌∙◌, ◌∷◌, ◌≡◌}
use nightveil.Middleware.Chain.{Conn, codec, wrap_all}

-- The middleware that comes last in a chain is the outermost one.
pub wrap_all-append {ℓ} :
    {C : Type ℓ} (ms : List (C → C)) (m : C → C) (conn : C)
    → wrap_all (ms ++ m ∷ []) conn ≡ m (wrap_all ms conn)
wrap_all-append [] m conn = refl
wrap_all-append (m₁ ∷ ms) m conn = wrap_all-append ms m (m₁ conn)

-- So a write goes through it first, and a read through it last.
pub send-wrap_all :
    (cs : List ((Bytes → Bytes) × (Bytes → Bytes))) (encode decode : Bytes → Bytes) (conn : Conn)
    (p : Bytes)
    → let all = wrap_all (map codec (cs ++ (encode, decode) ∷ [])) conn in
      let inner = wrap_all (map codec cs) conn in
      (all.send p ≡ inner.send (encode p)) × (all.receive p ≡ decode (inner.receive p))
send-wrap_all [] encode decode conn p = (refl, refl)
send-wrap_all (c ∷ cs) encode decode conn p = send-wrap_all cs encode decode (codec c conn) p

-- A chain of middlewares that undo what they do, on a connection that does, does too.
pub receive-send :
    (cs : List ((Bytes → Bytes) × (Bytes → Bytes))) (conn : Conn)
    → All (λ c. (p : Bytes) → c.1 (c.0 p) ≡ p) cs
    → ((p : Bytes) → conn.receive (conn.send p) ≡ p)
    → (p : Bytes)
    → (wrap_all (map codec cs) conn).receive ((wrap_all (map codec cs) conn).send p) ≡ p
receive-send [] conn h k p = k p
receive-send (c ∷ cs) conn (h, hs) k p =
    receive-send cs (codec c conn) hs (λ q. ap c.1 (k (c.0 q)) ∙ h q) p
