-- ===== src/Throttle/Detector/Tests.antt =====
-- The detector at concrete inputs, with whole numbers for the floats.
use nightveil.Prelude.{
  List, [], ltb, leb, refl, true, ℕ, ◌∷◌, ◌≡◌, ◌+◌, ◌*◌, ◌-◌, ◌/◌, arith, ◌≤◌, length, ◌++◌,
}
use nightveil.Throttle.State.{suspected, throttled}
use nightveil.Throttle.Detector.{
  Floats, Detector, DetectorConfig, Sample, rtt, throughput, new_detector, run, step, record_rtt,
  record_throughput, evaluate, assess, rtt_spiked, tput_dropped, slide, median_rtt, avg_throughput,
  sum_from,
}
use nightveil.Throttle.Detector.Confirm.{
  streak, state_of, Alternates, last_or, rtts, run-new_detector, run_told, run-rtts,
}

-- Throughputs in steps that keep every quotient whole: `div` scales up by a million and `mul` by a
-- whole number is exact, so a percentage has a factor of a million, as `of_ℕ` has.
abbrev million : ℕ
million = 1_000_000

abbrev floats : Floats
floats = record {
  Float = ℕ;
  of_ℕ = λ n. n * million;
  add = λ x y. x + y;
  sub = λ x y. x - y;
  mul = λ x y. x * y / million;
  div = λ x y. x * million / y;
  lt = ltb;
  le = leb;
}

abbrev config : DetectorConfig
config = record {
  rtt_spike_ms = 500;
  throughput_drop_pct = 70;
  window_size = 20;
  confirm_count = 3;
}

abbrev steady : List (Sample floats)
steady =
    throughput 9_000_000
    ∷ throughput 9_000_000
    ∷ throughput 9_000_000
    ∷ throughput 9_000_000
    ∷ throughput 9_000_000
    ∷ []

-- A steady throughput, then one sample of a tenth.
abbrev dropped : Detector floats
dropped = (run floats (new_detector floats config) (steady)).0

abbrev after_drop : Detector floats
after_drop = (step floats dropped (throughput 900_000)).0

after_drop_suspected : after_drop.state ≡ suspected
unfolding run step record_rtt record_throughput evaluate assess rtt_spiked tput_dropped slide
    median_rtt avg_throughput sum_from new_detector
after_drop_suspected = refl

after_drop-dropped : tput_dropped floats after_drop ≡ true
unfolding run step record_rtt record_throughput evaluate assess rtt_spiked tput_dropped slide
    median_rtt avg_throughput sum_from new_detector
after_drop-dropped = refl

-- The last two of the samples are suspicious.
abbrev two_drops : List (Sample floats)
two_drops = steady ++ throughput 900_000 ∷ throughput 800_000 ∷ []

run-new_detector_example :
    let d = (run floats (new_detector floats config) two_drops).0 in
    (d.state ≡ state_of floats 3 (streak floats 0 (new_detector floats config) two_drops))
    × (length d.rtt_samples ≤ 20)
    × (length d.tput_samples ≤ 20)
run-new_detector_example = run-new_detector floats config two_drops

two_drops-streak : streak floats 0 (new_detector floats config) two_drops ≡ 2
unfolding streak run step record_rtt record_throughput evaluate assess rtt_spiked tput_dropped slide
    median_rtt avg_throughput sum_from new_detector
two_drops-streak = refl

run_told_example :
    let (d', told) = run floats dropped (throughput 900_000 ∷ rtt 5 ∷ rtt 5 ∷ rtt 5 ∷ []) in
    (last_or floats dropped.state told ≡ d'.state) × Alternates floats dropped.state told
run_told_example = run_told floats dropped (throughput 900_000 ∷ rtt 5 ∷ rtt 5 ∷ rtt 5 ∷ [])

after_drop-count : after_drop.confirm_count ≤ after_drop.suspected_count + 2
unfolding run step record_rtt record_throughput evaluate assess rtt_spiked tput_dropped slide
    median_rtt avg_throughput sum_from new_detector
after_drop-count = omega arith

run-rtts_example : (run floats after_drop (rtts floats (5 ∷ 5 ∷ []))).0.state ≡ throttled
run-rtts_example = run-rtts floats after_drop 5 (5 ∷ []) after_drop-dropped after_drop-count
