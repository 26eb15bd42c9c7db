-- ===== src/Transport/Quic/Hopping.antt =====
-- internal/transport/quictun/hopping.go: the destination port. What `rand.Int` draws and what
-- `ResolveUDPAddr` makes of a port are arguments; an address is a number.
pub mod Ports
pub mod Tests
use nightveil.Prelude.{
  List, Option, [], if◌then◌else◌, leb_ℤ, none, pos, some, ℕ, ℤ, ◌+ℤ◌, ◌∷◌, ltb_ℤ, leb, pos_part,
  ◌-◌, ◌+◌, ◌%◌, neg_part,
}

pub record Config : Type 0 where
  pub port_min : ℤ
  pub port_max : ℤ
  pub interval : ℤ

unfoldable pub defaults : Config → Config
defaults c =
    let low = if leb_ℤ c.port_min (pos 0) then pos 30_000 else c.port_min in
    record {
      port_min = low;
      port_max = if leb_ℤ c.port_max low then low +ℤ pos 10_000 else c.port_max;
      interval = if leb_ℤ c.interval (pos 0) then pos 30_000_000_000 else c.interval;
    }

-- `randomPort`, where `draw` is a number below the bound that it is given.
unfoldable pub random_port : (ℕ → ℕ) → ℤ → ℤ → ℤ
random_port draw low high =
    if leb_ℤ high low
    then low
    else low +ℤ pos (draw (pos_part high + neg_part low - (pos_part low + neg_part high) + 1))

-- The connection: `currentPort`, and the address that writes go to, `none` for the nil one.
pub record Conn : Type 0 where
  pub config : Config
  pub current_port : ℤ
  pub dest_addr : Option ℕ

abbrev pub set_dest : Conn → Option ℕ → Conn
set_dest h none = h
set_dest h (some addr) = record h { dest_addr = some addr }

unfoldable pub update_dest_addr : (ℤ → Option ℕ) → Conn → ℤ → Conn
update_dest_addr resolve h port = set_dest h (resolve port)

unfoldable pub hop : (ℤ → Option ℕ) → (ℕ → ℕ) → Conn → Conn
unfolding random_port update_dest_addr
hop resolve draw h =
    let port = random_port draw h.config.port_min h.config.port_max in
    update_dest_addr resolve (record h { current_port = port }) port

unfoldable pub new_conn : (ℤ → Option ℕ) → (ℕ → ℕ) → Config → Conn
unfolding defaults hop
new_conn resolve draw c =
    hop resolve draw (record { config = defaults c; current_port = pos 0; dest_addr = none })

-- `WriteTo`: the address that the packet is sent to, whatever the caller names.
unfoldable pub write_addr : Conn → ℕ → Option ℕ
write_addr h addr = h.dest_addr

-- The ticks of `hopLoop`, each with what it draws.
unfoldable pub run : (ℤ → Option ℕ) → Conn → List (ℕ → ℕ) → Conn
run resolve h [] = h
run resolve h (draw ∷ more) = run resolve (hop resolve draw h) more
