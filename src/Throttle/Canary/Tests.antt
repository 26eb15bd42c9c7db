-- ===== src/Throttle/Canary/Tests.antt =====
-- The canary at concrete inputs.
use nightveil.Prelude.{
  [], arith, if◌then◌else◌, leb, ltb, pos, refl, some, ℕ, ◌*◌, ◌+◌, ◌-◌, ◌/◌, ◌∷◌, ◌≡◌,
}
use nightveil.Throttle.Detector as D
use nightveil.Throttle.Detector.{Floats, Detector, DetectorConfig}
use nightveil.Throttle.Canary.{
  Canary, Round, degraded, blocked, run, new_canary, response, no_response, bad_request,
  probe_endpoint,
}
use nightveil.Throttle.Canary.Verdict.{HasFailure, run-failing, run-detector, all_samples}

abbrev floats : Floats
floats = record {
  Float = ℕ;
  of_ℕ = λ n. n;
  add = λ x y. x + y;
  sub = λ x y. x - y;
  mul = λ x y. x * y;
  div = λ x y. x / y;
  lt = ltb;
  le = leb;
}

abbrev detector : Detector floats
detector =
    D.new_detector floats
      (record { rtt_spike_ms = 500; throughput_drop_pct = 70; window_size = 20; confirm_count = 3 })

abbrev canary : Canary floats
canary = new_canary floats (pos 2) (some detector)

abbrev all_up : Round
all_up = (response 204, 30) ∷ (response 200, 40) ∷ []

abbrev some_down : Round
some_down = (response 204, 35) ∷ (no_response, 90) ∷ []

abbrev all_down : Round
all_down = (response 503, 35) ∷ (bad_request, 0) ∷ []

some_down-HasFailure : HasFailure some_down
unfolding probe_endpoint
some_down-HasFailure = record {
  before = (response 204, 35) ∷ [];
  reply = (no_response, 90);
  after = [];
  split = refl;
  fails = refl;
}

-- One round in which every endpoint fails, after one in which some did.
run-failing_example :
    (run floats canary (all_down ∷ all_up ∷ some_down ∷ all_down ∷ [])).0.state
    ≡ (if leb canary.threshold 2 then blocked else degraded)
unfolding probe_endpoint
run-failing_example =
    run-failing floats canary (all_down ∷ []) all_up (some_down ∷ []) all_down (refl, (refl, tt))
      (some_down-HasFailure, tt) (refl, (refl, tt)) (omega arith)

run-detector_example :
    (run floats canary (all_up ∷ some_down ∷ [])).0.detector
    ≡ some (D.run floats detector (all_samples floats (all_up ∷ some_down ∷ []))).0
unfolding new_canary
run-detector_example = run-detector floats canary detector (all_up ∷ some_down ∷ []) refl
