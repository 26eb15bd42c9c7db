-- ===== src/Transport/Pool/Tests.antt =====
-- internal/transport/pool.go at concrete inputs.
use nightveil.Prelude.{
  List, [], false, length, ltb, pos, pos_part, refl, true, ◌∷◌, ◌≡◌, ◌≤◌, if◌then◌else◌,
}
use nightveil.Transport.Pool.{
  Config, Event, close, defaults, ends, new_system, refills, run, starts,
}
use nightveil.Transport.Pool.Order.{run-new_pool}
use nightveil.Transport.Pool.Places.{Increasing, places, queue}

abbrev config : Config
config = record { size = pos 2; refill_delay = pos 1 }

-- A caller finds the channel empty and is still dialling when the refill has put a connection there.
abbrev events : List Event
events =
    starts
    ∷ refills true
    ∷ refills true
    ∷ refills true
    ∷ ends true
    ∷ refills true
    ∷ refills false
    ∷ refills true
    ∷ refills true
    ∷ starts
    ∷ []

run-new_pool_example :
    let s = run (new_system config) events in
    (places 2 s ≡ (if ltb 2 s.pool.made then 1 else 0))
    × Increasing (queue s)
    × (length s.pool.waiting ≤ pos_part (defaults config).size)
    × (s.pool.closed ≡ [])
    × ((close s.pool).closed ≡ s.pool.waiting)
run-new_pool_example = run-new_pool config events 2

late_dial_test : let s = run (new_system config) events in (s.pooled ≡ 0 ∷ []) × (s.direct ≡ 1 ∷ [])
unfolding run new_system defaults
late_dial_test = (refl, refl)
