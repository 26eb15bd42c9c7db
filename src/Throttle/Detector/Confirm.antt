-- ===== src/Throttle/Detector/Confirm.antt =====
-- When the detector is in which state.
use nightveil.Prelude.{
  Bool, List, [], arith, false, if◌then◌else◌, leb, length, length-append, length-drop, refl, true,
  ℕ, ◌++◌, ◌==◌, ◌||◌, ◌∷◌, ◌≡◌, ◌≤◌, Bool-cases, Option, inl, inr, none, some, ◌+◌, ap, ap₂, sym,
  ◌∙◌,
}
use nightveil.Throttle.State.{State, normal, suspected, throttled}
use nightveil.Throttle.Detector.{
  Floats, Detector, slide, median_rtt, assess, evaluate, tput_dropped, rtt_spiked, step, run,
  new_detector, same_state, record_rtt, Sample, DetectorConfig, record_throughput, rtt, throughput,
}

module _ (F : Floats) where
  -- The state that a count of suspicious samples in a row stands for.
  abbrev pub state_of : ℕ → ℕ → State
  state_of confirm count =
      if count == 0 then normal else if leb confirm count then throttled else suspected

  pub record IsValid (d : Detector F) : Type 0 where
    pub state_fits : d.state ≡ state_of d.confirm_count d.suspected_count
    pub rtt_window : length d.rtt_samples ≤ d.window_size
    pub tput_window : length d.tput_samples ≤ d.window_size

  slide-bound :
      {A : Type 0} (size : ℕ) (xs : List A) (x : A)
      → length xs ≤ size
      → length (slide F size xs x) ≤ size
  unfolding slide
  slide-bound size xs x h = ground (arith, length-append xs (x ∷ []), length-drop 1 (xs ++ x ∷ []))

  assess-state :
      (d : Detector F) (b : Bool)
      → (assess F d b).state ≡ state_of d.confirm_count (assess F d b).suspected_count
  unfolding assess
  assess-state d true = ground arith
  assess-state d false = refl

  assess-rest :
      (d : Detector F) (b : Bool)
      → ((assess F d b).config ≡ d.config)
        × ((assess F d b).rtt_samples ≡ d.rtt_samples)
        × ((assess F d b).tput_samples ≡ d.tput_samples)
  unfolding assess
  assess-rest d true = (refl, refl, refl)
  assess-rest d false = (refl, refl, refl)

  evaluate-IsValid :
      (d : Detector F)
      → length d.rtt_samples ≤ d.window_size
      → length d.tput_samples ≤ d.window_size
      → IsValid (evaluate F d).0
  unfolding evaluate
  evaluate-IsValid d h k =
      let b = rtt_spiked F d || tput_dropped F d in
      let (c, r, t) = assess-rest d b in
      record {
        state_fits = rw c (assess-state d b);
        rtt_window = rw (c, r) h;
        tput_window = rw (c, t) k;
      }

  step-IsValid : (d : Detector F) (s : Sample F) → IsValid d → IsValid (step F d s).0
  unfolding step record_rtt record_throughput
  step-IsValid d (rtt t) v =
      evaluate-IsValid _ (slide-bound d.window_size d.rtt_samples t v.rtt_window) v.tput_window
  step-IsValid d (throughput x) v =
      evaluate-IsValid _ v.rtt_window (slide-bound d.window_size d.tput_samples x v.tput_window)

  run-IsValid : (d : Detector F) (ss : List (Sample F)) → IsValid d → IsValid (run F d ss).0
  unfolding run
  run-IsValid d [] v = v
  run-IsValid d (s ∷ ss) v = run-IsValid (step F d s).0 ss (step-IsValid d s v)

  -- Whether a sample is suspicious, going by what is kept once it is recorded: a spike of the last
  -- round trip or a drop of the last throughput.
  abbrev pub suspicious : Detector F → Sample F → Bool
  suspicious d s = let d' = (step F d s).0 in rtt_spiked F d' || tput_dropped F d'

  -- How many of the samples at the end are suspicious, without a break; `n` before the first one.
  unfoldable pub streak : ℕ → Detector F → List (Sample F) → ℕ
  streak n d [] = n
  streak n d (s ∷ ss) = streak (if suspicious d s then n + 1 else 0) (step F d s).0 ss

  -- An assessment changes nothing that it goes by.
  assess-suspicious :
      (d : Detector F) (b : Bool)
      → (rtt_spiked F (assess F d b) || tput_dropped F (assess F d b))
        ≡ (rtt_spiked F d || tput_dropped F d)
  unfolding assess rtt_spiked tput_dropped
  assess-suspicious d true = refl
  assess-suspicious d false = refl

  assess-count :
      (d : Detector F) (b : Bool)
      → (assess F d b).suspected_count ≡ (if b then d.suspected_count + 1 else 0)
  unfolding assess
  assess-count d true = refl
  assess-count d false = refl

  evaluate-count :
      (d : Detector F)
      → let d' = (evaluate F d).0 in
        (d'.suspected_count
          ≡ (if rtt_spiked F d' || tput_dropped F d' then d.suspected_count + 1 else 0))
        × (d'.config ≡ d.config)
  unfolding evaluate
  evaluate-count d =
      let b = rtt_spiked F d || tput_dropped F d in
      (
        assess-count d b
            ∙ ap (λ x. if x then d.suspected_count + 1 else 0) (sym (assess-suspicious d b)),
        (assess-rest d b).0,
      )

  step-count :
      (d : Detector F) (s : Sample F)
      → ((step F d s).0.suspected_count ≡ (if suspicious d s then d.suspected_count + 1 else 0))
        × ((step F d s).0.config ≡ d.config)
  unfolding step record_rtt record_throughput
  step-count d (rtt t) = evaluate-count _
  step-count d (throughput x) = evaluate-count _

  run-streak :
      (d : Detector F) (ss : List (Sample F))
      → ((run F d ss).0.suspected_count ≡ streak d.suspected_count d ss)
        × ((run F d ss).0.config ≡ d.config)
  unfolding run streak
  run-streak d [] = (refl, refl)
  run-streak d (s ∷ ss) =
      let (count, same) = step-count d s in
      let (counts, sames) = run-streak (step F d s).0 ss in
      (counts ∙ ap (λ n. streak n (step F d s).0 ss) count, sames ∙ same)

  -- After any samples the detector keeps no more of either kind than its window holds, and its
  -- state goes by how many of the last samples were suspicious without a break, where a sample is
  -- suspicious if, once it is recorded, the last round trip is a spike or the last throughput a drop:
  -- normal if none was, throttled if there are as many as `confirm_count`, one at least, and suspected
  -- in between.
  pub run-new_detector :
      (c : DetectorConfig) (ss : List (Sample F))
      → let d = (run F (new_detector F c) ss).0 in
        (d.state ≡ state_of c.confirm_count (streak 0 (new_detector F c) ss))
        × (length d.rtt_samples ≤ c.window_size)
        × (length d.tput_samples ≤ c.window_size)
  unfolding new_detector
  run-new_detector c ss =
      let start = new_detector F c in
      let v =
        run-IsValid start ss
          (record { state_fits = refl; rtt_window = omega arith; tput_window = omega arith }) in
      let (count, same) = run-streak start ss in
      let size = ap (λ k. k.window_size) same in
      (
        v.state_fits ∙ ap₂ (λ k n. state_of k n) (ap (λ k. k.confirm_count) same) count,
        omega (arith, v.rtt_window, size),
        omega (arith, v.tput_window, size),
      )

  -- Each state that the listeners are told differs from the one before it, `s` at first.
  abbrev pub Alternates : State → List State → Type 0
  Alternates s [] = Unit
  Alternates s (t ∷ ts) = (same_state s t ≡ false) × Alternates t ts

  abbrev pub last_or : State → List State → State
  last_or s [] = s
  last_or s (t ∷ ts) = last_or t ts

  eq_of_same : (s t : State) → same_state s t ≡ true → s ≡ t
  eq_of_same normal normal h = refl
  eq_of_same suspected suspected h = refl
  eq_of_same throttled throttled h = refl
  eq_of_same s t h = cc

  -- What one evaluation tells.
  Told : State → Detector F × Option State → Type 0
  Told s (d, none) = s ≡ d.state
  Told s (d, some t) = (t ≡ d.state) × (same_state s t ≡ false)

  evaluate-Told : (d : Detector F) → Told d.state (evaluate F d)
  unfolding evaluate Told
  evaluate-Told d =
      let d' = assess F d (rtt_spiked F d || tput_dropped F d) in
      elim (Bool-cases (same_state d.state d'.state)) [
        | inl same ↦ rw same (eq_of_same d.state d'.state same)
        | inr differ ↦ rw differ (refl, differ)
      ]

  step-Told : (d : Detector F) (s : Sample F) → Told d.state (step F d s)
  unfolding step record_rtt record_throughput
  step-Told d (rtt t) = evaluate-Told _
  step-Told d (throughput x) = evaluate-Told _

  -- The listeners are told of every change of the state and of nothing else: what they are told
  -- never repeats the state before, and ends with the state that the detector is in.
  pub run_told :
      (d : Detector F) (ss : List (Sample F))
      → let (d', told) = run F d ss in (last_or d.state told ≡ d'.state) × Alternates d.state told
  unfolding run Told
  run_told d [] = (refl, tt)
  run_told d (s ∷ ss) = join (step F d s) (step-Told d s) (run_told (step F d s).0 ss)
    where
      join :
          (r : Detector F × Option State)
          → Told d.state r
          → (let (d', told) = run F r.0 ss in
              (last_or r.0.state told ≡ d'.state) × Alternates r.0.state told)
          → let told = elim r.1 as (λ x. List State) [
            | none ↦ (run F r.0 ss).1
            | some t ↦ t ∷ (run F r.0 ss).1
          ] in
            (last_or d.state told ≡ (run F r.0 ss).0.state) × Alternates d.state told
      join (d', none) t h = rw t h
      join (d', some x) t h = (rw t.0 h.0, (t.1, rw t.0 h.1))

  pub rtts : List ℕ → List (Sample F)
  rtts [] = []
  rtts (t ∷ ts) = rtt t ∷ rtts ts

  or_true : (b : Bool) → (b || true) ≡ true
  or_true true = refl
  or_true false = refl

  -- What an evaluation does while the last throughput sample is a drop.
  record Counted (d e : Detector F) : Type 0 where
    count : e.suspected_count ≡ d.suspected_count + 1
    still : tput_dropped F e ≡ true
    same : e.config ≡ d.config
    assessed :
        e.state ≡ (if leb d.confirm_count (d.suspected_count + 1) then throttled else suspected)

  assess-Counted : (d : Detector F) → tput_dropped F d ≡ true → Counted d (assess F d true)
  unfolding assess tput_dropped
  assess-Counted d h = record { count = refl; still = h; same = refl; assessed = refl }

  evaluate-Counted : (d : Detector F) → tput_dropped F d ≡ true → Counted d (evaluate F d).0
  unfolding evaluate
  evaluate-Counted d h = rw (h, or_true (rtt_spiked F d)) (assess-Counted d h)

  -- An RTT sample leaves the throughput samples alone.
  record_rtt-Counted :
      (d : Detector F) (t : ℕ) → tput_dropped F d ≡ true → Counted d (record_rtt F d t).0
  unfolding record_rtt
  record_rtt-Counted d t h =
      let samples = slide F d.window_size d.rtt_samples t in
      let e : Detector F = record d {
        rtt_samples = samples;
        baseline_rtt = if leb (length samples) 5 then median_rtt F samples else d.baseline_rtt;
      } in
      let h' : tput_dropped F e ≡ true = unfold tput_dropped in h in
      let c = evaluate-Counted e h' in
      record { count = c.count; still = c.still; same = c.same; assessed = c.assessed }

  -- A drop that the last throughput sample shows is counted again at every RTT sample: with enough
  -- of those, one at least, the state is throttled, however short all the round trips are.
  pub run-rtts :
      (d : Detector F) (t : ℕ) (ts : List ℕ)
      → tput_dropped F d ≡ true
      → d.confirm_count ≤ d.suspected_count + length (t ∷ ts)
      → (run F d (rtts (t ∷ ts))).0.state ≡ throttled
  unfolding run step rtts
  run-rtts d t [] h k = let c = record_rtt-Counted d t h in ground (arith, c.assessed)
  run-rtts d t (u ∷ ts) h k =
      let c = record_rtt-Counted d t h in
      run-rtts (record_rtt F d t).0 u ts c.still (rw c.same (omega (arith, c.count)))
