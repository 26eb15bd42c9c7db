-- ===== src/Throttle/Rotator/Tests.antt =====
-- The rotator at concrete inputs, with a source whose numbers grow by seven.
use nightveil.Prelude.{All, List, [], arith, refl, ℕ, ◌%◌, ◌+◌, ◌<◌, ◌∷◌, ◌≡◌, ◌≤◌}
use native.Mathlib.Nat.{mod-lt}
use nightveil.Throttle.State.{throttled}
use nightveil.Throttle.Rotator.{
  Source, Rotator, Event, param_tick, session_tick, report, ParamRanges, new_rotator, rotate_params,
  default_ranges, run, param, rotate_session,
}
use nightveil.Throttle.Rotator.Bounds.{
  IsInRanges, run-new_rotator, run-default_ranges, rotate_params_lem, rotate_session-inverted,
}

mod_below : (n s : ℕ) → 0 < n → s % n < n
mod_below n s h = mod-lt s h

abbrev source : Source
source = record { Seed = ℕ; rand_int = λ n s. (s % n, s + 7) }

abbrev events : List Event
events = param_tick ∷ report throttled ∷ session_tick ∷ param_tick ∷ []

-- A padding maximum that lies below the minimum.
abbrev inverted : ParamRanges
inverted = record default_ranges { padding_min_range = (90, 90); padding_max_range = (50, 50) }

abbrev rotator : Rotator
rotator = (new_rotator source inverted 3).0

run-new_rotator_example :
    let (r, s₁) = new_rotator source inverted 3 in
    let (r', told) = (run source r events s₁).0 in
    IsInRanges inverted r'.params × All (λ x. IsInRanges inverted x.1) told
run-new_rotator_example = run-new_rotator source mod_below inverted events 3

run-default_ranges_example :
    let (r, s₁) = new_rotator source default_ranges 3 in
    let p = (run source r events s₁).0.0.params in
    (p.padding_min ≤ p.padding_max)
    × (p.jitter_min_ms ≤ p.jitter_max_ms)
    × (8_192 ≤ p.chunk_size)
    × (p.chunk_size ≤ 14_336)
run-default_ranges_example = run-default_ranges source mod_below events 3

rotate_params_lem_example :
    let (r', told) = (rotate_params source rotator 3).0 in
    (r'.padding_min ≤ r'.padding_max)
    × (r'.jitter_min_ms ≤ r'.jitter_max_ms)
    × (r'.path_prefix ≡ rotator.path_prefix)
    × (r'.upload_path ≡ rotator.upload_path)
    × (r'.download_path ≡ rotator.download_path)
    × (r'.session_key ≡ rotator.session_key)
    × (r'.ranges ≡ rotator.ranges)
    × (told ≡ (param, r'.params) ∷ [])
rotate_params_lem_example = rotate_params_lem source rotator 3

rotate_session-inverted_example :
    let r' = (rotate_session source rotator 3).0.0 in r'.padding_max < r'.padding_min
unfolding new_rotator
rotate_session-inverted_example =
    rotate_session-inverted source rotator 3 90 50 refl refl (omega arith)
