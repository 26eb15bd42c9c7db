-- ===== src/Throttle/Adaptive/Tests.antt =====
-- The responder at concrete inputs.
use nightveil.Prelude.{List, [], pos, refl, replicate, ℕ, ◌∷◌, ◌≡◌, ◌≤◌}
use nightveil.Throttle.State.{State, normal, suspected, throttled}
use nightveil.Throttle.Adaptive.{unset, defaults, new_adaptive, on_state_change, run}
use nightveil.Throttle.Adaptive.Bounds.{run-new_adaptive, run-calms}

abbrev reports : List State
reports = throttled ∷ suspected ∷ throttled ∷ throttled ∷ throttled ∷ []

abbrev peak : ℕ
peak = 8

reports_reach_peak :
    (run (new_adaptive (defaults unset (pos 0) (pos 0) (pos 0))) reports).parallel_conns ≡ peak
unfolding run on_state_change new_adaptive defaults
reports_reach_peak = refl

run-new_adaptive_example :
    let n = (run (new_adaptive (defaults unset (pos 2) (pos 6) (pos 0))) reports).parallel_conns in
    (2 ≤ n) × (n ≤ 6)
unfolding defaults
run-new_adaptive_example = run-new_adaptive (defaults unset (pos 2) (pos 6) (pos 0)) reports

run-calms_example :
    let a = run (new_adaptive (defaults unset (pos 0) (pos 0) (pos 0))) reports in
    (run a (replicate a.parallel_conns normal)).parallel_conns ≡ a.base_parallel_conns
run-calms_example = run-calms unset (pos 0) (pos 0) (pos 0) reports
