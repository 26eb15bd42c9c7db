-- ===== src/Transport/Xhttp/Download/Tests.antt =====
-- A download that breaks and resumes.
use nightveil.Prelude.{List, [], none, pos, some, ℕ, ◌∷◌}
use nightveil.Session.Download.{writes}
use nightveil.Transport.Xhttp.Download.{Event, calls, polls, arrives, breaks, gets, new_world, run}
use nightveil.Transport.Xhttp.Download.Resume.{IsPrefix, received-run}

abbrev grow : ℕ → ℕ → ℕ
grow old needed = needed

abbrev events : List Event
events =
    gets
    ∷ calls (writes (1 ∷ 2 ∷ 3 ∷ []))
    ∷ polls none
    ∷ arrives 2
    ∷ breaks
    ∷ gets
    ∷ calls (writes (4 ∷ []))
    ∷ polls (some 1)
    ∷ arrives 9
    ∷ []

received-run_example : let w = run grow (new_world (pos 8)) events in IsPrefix w.received w.written
received-run_example = received-run grow (pos 8) events
