-- ===== src/Transport/Manager.antt =====
-- internal/transport/manager.go: transports in order of priority, and the active one. What the
-- transports answer to a dial is an argument: whether each of them, dialled now, gives a connection.
-- Locks cover single assignments, so a method is a step as long as no other changes the list.
pub mod Failover
pub mod Tests
use nightveil.Prelude.{
  ℕ, Bool, Bytes, List, Option, codes, get_elem?, if◌then◌else◌, leb, length, negsuc, none, pos,
  set, some, suc, zero, ℤ, ◌+◌, ◌==◌, [], ◌∷◌,
}

pub record Manager : Type 0 where
  pub transports : List Bytes
  pub active_idx : ℕ

unfoldable pub new_manager : List Bytes → Manager
new_manager names = record { transports = names; active_idx = 0 }

-- The connection comes from the transport with this index; or all failed; or there is no transport
-- at the active index, which is a panic.
pub data DialResult : Type 0 where
  connected : ℕ → DialResult
  all_failed : DialResult
  index_panic : DialResult

-- The first of the `n` indices from `i` on, other than `skip`, whose transport answers.
unfoldable pub first_up : (ℕ → Bool) → ℕ → ℕ → ℕ → Option ℕ
first_up up skip zero i = none
first_up up skip (suc n) i =
    let rest = first_up up skip n (i + 1) in
    if i == skip then rest else if up i then some i else rest

unfoldable pub dial : Manager → (ℕ → Bool) → Manager × DialResult
dial m up =
    let n = length m.transports in
    if leb n m.active_idx
    then (m, index_panic)
    else if up m.active_idx
    then (m, connected m.active_idx)
    else elim (first_up up m.active_idx n 0) [
      | none ↦ (m, all_failed)
      | some i ↦ (record m { active_idx = i }, connected i)
    ]

-- `Replace`; the old transport is closed in the background.
unfoldable pub replace : Manager → ℤ → Bytes → Manager
replace m (negsuc i) name = m
replace m (pos i) name = record m { transports = set m.transports i name }

unfoldable pub active_transport : Manager → Bytes
active_transport m = elim (get_elem? m.transports m.active_idx) [
  | some name ↦ name
  | none ↦ codes "none"
]

-- The indices below the current one are dialled in order; nothing is skipped, which `first_up` is
-- told by an index that is out of their range.
unfoldable pub try_promote : Manager → (ℕ → Bool) → Manager
try_promote m up = if m.active_idx == 0 then m else elim (first_up up m.active_idx m.active_idx 0) [
  | none ↦ m
  | some i ↦ record m { active_idx = i }
]

-- What happens to a manager; each dial and each health check meets its own answers.
pub data Event : Type 0 where
  dials : (ℕ → Bool) → Event
  replaces : ℤ → Bytes → Event
  promotes : (ℕ → Bool) → Event

unfoldable pub step : Manager → Event → Manager
step m (dials up) = (dial m up).0
step m (replaces i name) = replace m i name
step m (promotes up) = try_promote m up

unfoldable pub run : Manager → List Event → Manager
run m [] = m
run m (e ∷ es) = run (step m e) es
