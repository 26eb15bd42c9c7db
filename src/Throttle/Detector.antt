-- ===== src/Throttle/Detector.antt =====
-- internal/throttle/detector.go: RTT and throughput samples and the state that they lead to. Times
-- are nanoseconds. A throughput is a Go `float64`: the type and the operations that the code uses
-- are a parameter.
pub mod Confirm
pub mod Tests
use nightveil.Prelude.{
  Bool, List, Option, [], drop, false, get_or, if◌then◌else◌, leb, leb_ℤ, length, ltb, none, pos,
  pos_part, some, true, ℕ, ℤ, ◌&&◌, ◌*◌, ◌++◌, ◌+◌, ◌-◌, ◌/◌, ◌==◌, ◌||◌, ◌∷◌,
}
use nightveil.Throttle.State.{State, normal, suspected, throttled, same_state}

-- `float64` as far as the detector goes.
pub record Floats : Type 1 where
  pub Float : Type 0
  pub of_ℕ : ℕ → Float
  pub add : Float → Float → Float
  pub sub : Float → Float → Float
  pub mul : Float → Float → Float
  pub div : Float → Float → Float
  pub lt : Float → Float → Bool
  pub le : Float → Float → Bool

-- `DetectorConfig` after `defaults`.
pub record DetectorConfig : Type 0 where
  pub rtt_spike_ms : ℕ
  pub throughput_drop_pct : ℕ
  pub window_size : ℕ
  pub confirm_count : ℕ

abbrev pub or_default : ℤ → ℕ → ℕ
or_default n d = if leb_ℤ n (pos 0) then d else pos_part n

unfoldable pub defaults : ℤ → ℤ → ℤ → ℤ → DetectorConfig
defaults spike drop_pct window confirm = record {
  rtt_spike_ms = or_default spike 500;
  throughput_drop_pct = or_default drop_pct 70;
  window_size = or_default window 20;
  confirm_count = or_default confirm 3;
}

module _ (F : Floats) where
  open F use {Float, of_ℕ, add, sub, mul, div, lt, le}

  pub record Detector : Type 0 where
    pub config : DetectorConfig
    pub open config use *
    pub rtt_samples : List ℕ
    pub tput_samples : List Float
    pub baseline_rtt : ℕ
    pub baseline_tput : Float
    pub suspected_count : ℕ
    pub state : State

  unfoldable pub new_detector : DetectorConfig → Detector
  new_detector c = record {
    config = c;
    rtt_samples = [];
    tput_samples = [];
    baseline_rtt = 0;
    baseline_tput = of_ℕ 0;
    suspected_count = 0;
    state = normal;
  }

  -- Append, and drop the oldest where the window is full.
  unfoldable pub slide {ℓ} : {A : Type ℓ} → ℕ → List A → A → List A
  slide size xs x =
      let longer = xs ++ x ∷ [] in if ltb size (length longer) then drop 1 longer else longer

  -- The middle element, of samples that are not sorted.
  unfoldable pub median_rtt : List ℕ → ℕ
  median_rtt xs = if length xs == 0 then 0 else get_or xs (length xs / 2) 0

  unfoldable pub sum_from : Float → List Float → Float
  sum_from acc [] = acc
  sum_from acc (x ∷ xs) = sum_from (add acc x) xs

  unfoldable pub avg_throughput : List Float → Float
  unfolding sum_from
  avg_throughput [] = of_ℕ 0
  avg_throughput (x ∷ xs) = div (sum_from (of_ℕ 0) (x ∷ xs)) (of_ℕ (length (x ∷ xs)))

  unfoldable pub rtt_spiked : Detector → Bool
  rtt_spiked d =
      let recent = get_or d.rtt_samples (length d.rtt_samples - 1) 0 in
      (ltb 0 d.baseline_rtt && leb 3 (length d.rtt_samples))
      && (ltb (d.rtt_spike_ms * 1_000_000) recent && ltb (d.baseline_rtt * 3) recent)

  unfoldable pub tput_dropped : Detector → Bool
  tput_dropped d =
      let recent = get_or d.tput_samples (length d.tput_samples - 1) (of_ℕ 0) in
      let drop_pct = mul (sub (of_ℕ 1) (div recent d.baseline_tput)) (of_ℕ 100) in
      (lt (of_ℕ 0) d.baseline_tput && leb 3 (length d.tput_samples))
      && le (of_ℕ d.throughput_drop_pct) drop_pct

  -- What `evaluate` makes of the count and the state.
  unfoldable pub assess : Detector → Bool → Detector
  assess d true = record d {
    suspected_count = d.suspected_count + 1;
    state = if leb d.confirm_count (d.suspected_count + 1) then throttled else suspected;
  }
  assess d false = record d { suspected_count = 0; state = normal }

  -- The new detector, and the state that the listeners are told, if any.
  unfoldable pub evaluate : Detector → Detector × Option State
  evaluate d =
      let d' = assess d (rtt_spiked d || tput_dropped d) in
      (d', if same_state d.state d'.state then none else some d'.state)

  unfoldable pub record_rtt : Detector → ℕ → Detector × Option State
  record_rtt d rtt =
      let samples = slide d.window_size d.rtt_samples rtt in
      evaluate (record d {
        rtt_samples = samples;
        baseline_rtt = if leb (length samples) 5 then median_rtt samples else d.baseline_rtt;
      })

  unfoldable pub record_throughput : Detector → Float → Detector × Option State
  record_throughput d bytes_per_sec =
      let samples = slide d.window_size d.tput_samples bytes_per_sec in
      evaluate (record d {
        tput_samples = samples;
        baseline_tput = if leb (length samples) 5 then avg_throughput samples else d.baseline_tput;
      })

  pub data Sample : Type 0 where
    rtt : ℕ → Sample
    throughput : Float → Sample

  unfoldable pub step : Detector → Sample → Detector × Option State
  step d (rtt t) = record_rtt d t
  step d (throughput x) = record_throughput d x

  -- The detector after the samples, and what the listeners were told, in order.
  unfoldable pub run : Detector → List Sample → Detector × List State
  run d [] = (d, [])
  run d (s ∷ ss) =
      let (d', told) = step d s in
      let (d'', rest) = run d' ss in (d'', elim told [ none ↦ rest | some t ↦ t ∷ rest ])
