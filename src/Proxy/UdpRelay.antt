-- ===== src/Proxy/UdpRelay.antt =====
-- internal/proxy/udprelay.go: the sockets of the UDP relay on the server. A destination is a number
-- for its text; times are in nanoseconds. A socket stands at its place in a store, since the reader
-- that was started with it goes on using it when the map has dropped it.
pub mod Sockets
pub mod Runs
pub mod Tests
use nightveil.Prelude.{
  Bool, List, Option, [], false, get_elem?, if◌then◌else◌, length, ltb_ℤ, none, pos, some, sub_ℕ,
  suc, true, zero, ℕ, ◌++◌, ◌==◌, ◌∷◌, ◌*◌,
}

abbrev pub udp_idle_timeout : ℕ
udp_idle_timeout = 60 * 1_000_000_000

pub record Socket : Type 0 where
  pub dest : ℕ
  pub is_open : Bool

-- `udpConn`: the place of its socket, and `lastUsed`.
abbrev pub UdpConn : Type 0
UdpConn = ℕ × ℕ

-- `UDPRelayServer`, with its map `conns`.
pub record Server : Type 0 where
  pub sockets : List Socket
  pub conns : List (ℕ × UdpConn)

unfoldable pub new_server : Server
new_server = record { sockets = []; conns = [] }

unfoldable pub lookup : ℕ → List (ℕ × UdpConn) → Option UdpConn
lookup k [] = none
lookup k ((j, c) ∷ m) = if j == k then some c else lookup k m

unfoldable pub delete : ℕ → List (ℕ × UdpConn) → List (ℕ × UdpConn)
delete k [] = []
delete k ((j, c) ∷ m) = if j == k then delete k m else (j, c) ∷ delete k m

-- `conn.Close()` of the socket at a place.
unfoldable pub close_at : List Socket → ℕ → List Socket
close_at [] i = []
close_at (s ∷ ss) zero = record s { is_open = false } ∷ ss
close_at (s ∷ ss) (suc i) = s ∷ close_at ss i

-- `uc.lastUsed = time.Now()`
unfoldable pub touch : ℕ → ℕ → List (ℕ × UdpConn) → List (ℕ × UdpConn)
touch i now [] = []
touch i now ((k, (j, t)) ∷ m) = (k, (j, if j == i then now else t)) ∷ touch i now m

-- `getOrCreate`, where `dials` is whether resolving and dialling work. In the code the look-up and
-- the insertion are two critical sections; `Run`, its only caller, is one goroutine.
unfoldable pub get_or_create : Server → ℕ → ℕ → Bool → Server × Option UdpConn
unfolding lookup
get_or_create s dest now dials = elim (lookup dest s.conns) [
  | some c ↦ (s, some c)
  | none ↦
      if dials
      then (
        record {
          sockets = s.sockets ++ record { dest = dest; is_open = true } ∷ [];
          conns = (dest, (length s.sockets, now)) ∷ s.conns;
        },
        some (length s.sockets, now),
      )
      else (s, none)
]

abbrev pub use_conn : Server → Option UdpConn → ℕ → Bool → Server
use_conn s none now sends = s
use_conn s (some (i, t)) now sends = if sends then record s { conns = touch i now s.conns } else s

-- A round of `Run` with a message to `dest`, where `sends` is whether the datagram goes out.
unfoldable pub forward : Server → ℕ → ℕ → Bool → Bool → Server
unfolding get_or_create touch
forward s dest now dials sends =
    let (s₁, c) = get_or_create s dest now dials in use_conn s₁ c now sends

-- `readFromDest` of the socket at a place, when its read fails.
unfoldable pub read_fails : Server → ℕ → Server
unfolding delete close_at
read_fails s i = elim (get_elem? s.sockets i) [
  | none ↦ s
  | some socket ↦ record { sockets = close_at s.sockets i; conns = delete socket.dest s.conns }
]

abbrev pub is_idle : ℕ → ℕ → Bool
is_idle now last_used = ltb_ℤ (pos udp_idle_timeout) (sub_ℕ now last_used)

unfoldable pub sweep : ℕ → List Socket → List (ℕ × UdpConn) → List Socket × List (ℕ × UdpConn)
sweep now ss [] = (ss, [])
sweep now ss ((k, (i, t)) ∷ m) =
    let rest = sweep now ss m in
    let rest_closed = sweep now (close_at ss i) m in
    if is_idle now t then rest_closed else (rest.0, (k, (i, t)) ∷ rest.1)

-- A tick of `cleanupLoop`.
unfoldable pub cleanup : Server → ℕ → Server
unfolding sweep
cleanup s now = let (ss, m) = sweep now s.sockets s.conns in record { sockets = ss; conns = m }

unfoldable pub close_all : List Socket → List (ℕ × UdpConn) → List Socket
close_all ss [] = ss
close_all ss ((k, (i, t)) ∷ m) = close_all (close_at ss i) m

-- `Close`
unfoldable pub close : Server → Server
unfolding close_all
close s = record { sockets = close_all s.sockets s.conns; conns = [] }

pub data Event : Type 0 where
  forwards : ℕ → ℕ → Bool → Bool → Event
  fails : ℕ → Event
  ticks : ℕ → Event
  closes : Event

unfoldable pub step : Server → Event → Server
unfolding forward read_fails cleanup close
step s (forwards dest now dials sends) = forward s dest now dials sends
step s (fails i) = read_fails s i
step s (ticks now) = cleanup s now
step s closes = close s

unfoldable pub run : Server → List Event → Server
unfolding step
run s [] = s
run s (e ∷ es) = run (step s e) es
