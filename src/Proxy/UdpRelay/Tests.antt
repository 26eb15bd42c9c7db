-- ===== src/Proxy/UdpRelay/Tests.antt =====
-- internal/proxy/udprelay.go at concrete inputs.
use nightveil.Prelude.{List, [], arith, false, true, ◌∷◌, ◌≡◌}
use nightveil.Proxy.UdpRelay.{Event, closes, fails, forwards, new_server, run, ticks}
use nightveil.Proxy.UdpRelay.Sockets.{IsValid}
use nightveil.Proxy.UdpRelay.Runs.{run-IsValid, run-stale}

abbrev events : List Event
events =
    forwards 5 0 true true
    ∷ forwards 6 1 true false
    ∷ forwards 7 2 false true
    ∷ fails 0
    ∷ ticks 90_000_000_000
    ∷ closes
    ∷ []

run-IsValid_example : IsValid (run new_server events)
run-IsValid_example = run-IsValid events

run-stale_example :
    run new_server (
      forwards 5 0 true true
      ∷ ticks 61_000_000_000
      ∷ forwards 5 61_000_000_000 true true
      ∷ fails 0
      ∷ [])
    ≡ record {
      sockets = record { dest = 5; is_open = false } ∷ record { dest = 5; is_open = true } ∷ [];
      conns = [];
    }
run-stale_example = run-stale 5 0 61_000_000_000 (omega arith)
