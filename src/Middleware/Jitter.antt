-- ===== src/Middleware/Jitter.antt =====
-- internal/middleware/jitter/jitter.go: random delays. What `rand.Int` draws below a bound is an
-- argument; delays are in milliseconds, and 0 is none.
pub mod Delays
use nightveil.Prelude.{
  Bool, List, [], if◌then◌else◌, leb_ℤ, ltb_ℤ, neg_part, not, pos, pos_part, ℕ, ℤ, ◌+ℤ◌, ◌+◌, ◌-◌,
  ◌∷◌,
}

pub record Config : Type 0 where
  pub min_ms : ℤ
  pub max_ms : ℤ
  pub write_only : Bool

-- `New`
unfoldable pub new : Config → Config
new c =
    let low = if ltb_ℤ c.min_ms (pos 0) then pos 0 else c.min_ms in
    record c { min_ms = low; max_ms = if ltb_ℤ c.max_ms low then low else c.max_ms }

unfoldable pub delay : (ℕ → ℕ) → Config → ℕ
delay draw c =
    let diff = pos_part c.max_ms + neg_part c.min_ms - (pos_part c.min_ms + neg_part c.max_ms) in
    let ms = if ltb_ℤ c.min_ms c.max_ms then c.min_ms +ℤ pos (draw (diff + 1)) else c.min_ms in
    if leb_ℤ c.max_ms (pos 0) then 0 else pos_part ms

-- How long a write and a read wait before they are passed on.
unfoldable pub write_delay : (ℕ → ℕ) → Config → ℕ
unfolding delay
write_delay draw c = delay draw c

unfoldable pub read_delay : (ℕ → ℕ) → Config → ℕ
unfolding delay
read_delay draw c = if not c.write_only then delay draw c else 0
