-- ===== src/Throttle/Canary/Verdict.antt =====
-- What the rounds of probes amount to.
use nightveil.Prelude.{
  All, List, [], arith, false, if◌then◌else◌, leb, length, refl, true, ℕ, ◌++◌, ◌+◌, ◌<◌, ◌∷◌, ◌≡◌,
  sym, ◌∙◌, Bool-cases, ap, inl, inr, some,
}
use nightveil.Throttle.Detector.{Floats, Sample, rtt, Detector, record_rtt}
use nightveil.Throttle.Detector as D
use nightveil.Throttle.Canary.{
  Canary, Reply, Round, degraded, blocked, probe_endpoint, successes, failures, assess, probe, run,
  feed, ok,
}

abbrev pub IsSuccess : Reply × ℕ → Type 0
IsSuccess x = probe_endpoint x.0 ≡ true

abbrev pub IsFailure : Reply × ℕ → Type 0
IsFailure x = probe_endpoint x.0 ≡ false

-- A round in which some endpoint failed.
pub record HasFailure (rs : Round) : Type 0 where
  pub before : Round
  pub reply : Reply × ℕ
  pub after : Round
  pub split : rs ≡ before ++ reply ∷ after
  pub fails : IsFailure reply

failures-none : (rs : Round) → All IsSuccess rs → failures rs ≡ 0
unfolding failures
failures-none [] a = refl
failures-none (r ∷ rs) a = rw (a.0, failures-none rs a.1) refl

successes-none : (rs : Round) → All IsFailure rs → successes rs ≡ 0
unfolding successes
successes-none [] a = refl
successes-none (r ∷ rs) a = rw (a.0, successes-none rs a.1) refl

failures-middle :
    (before : Round) (r : Reply × ℕ) (after : Round)
    → IsFailure r
    → 0 < failures (before ++ r ∷ after)
unfolding failures
failures-middle [] r after h = rw h (omega arith)
failures-middle (b ∷ before) r after h =
    let rest = failures-middle before r after h in ground (arith, rest)

failures-pos : (rs : Round) → HasFailure rs → 0 < failures rs
failures-pos rs h = rw h.split (failures-middle h.before h.reply h.after h.fails)

module _ (F : Floats) where
  probe-fails :
      (c : Canary F) (rs : Round)
      → HasFailure rs
      → ((probe F c rs).0.consecutive_fails ≡ c.consecutive_fails + 1)
        × ((probe F c rs).0.threshold ≡ c.threshold)
  unfolding probe assess
  probe-fails c rs h = let p = failures-pos rs h in (ground arith, ground arith)

  -- What a run of failing rounds does to the count.
  run-fails :
      (c : Canary F) (bads : List Round) (last : Round)
      → All HasFailure bads
      → All IsFailure last
      → 0 < length last
      → (run F c (bads ++ last ∷ [])).0.state
        ≡ (if leb c.threshold (c.consecutive_fails + length bads + 1) then blocked else degraded)
  unfolding run probe assess failures
  run-fails c [] [] a b h = absurd (omega arith)
  run-fails c [] (x ∷ last) a b h = rw (b.0, successes-none (x ∷ last) b) (ground arith)
  run-fails c (r ∷ bads) last a b h =
      let (e, f) = probe-fails c r a.0 in
      let ih = run-fails (probe F c r).0 bads last a.1 b h in ground (arith, e, f, ih)

  run-append :
      (c : Canary F) (xs ys : List Round) → (run F c (xs ++ ys)).0 ≡ (run F (run F c xs).0 ys).0
  unfolding run
  run-append c [] ys = refl
  run-append c (x ∷ xs) ys = run-append (probe F c x).0 xs ys

  run-threshold : (c : Canary F) (rs : List Round) → (run F c rs).0.threshold ≡ c.threshold
  unfolding run probe assess
  run-threshold c [] = refl
  run-threshold c (r ∷ rs) = let ih = run-threshold (probe F c r).0 rs in ground (arith, ih)

  probe-clean :
      (c : Canary F) (rs : Round)
      → All IsSuccess rs
      → ((probe F c rs).0.consecutive_fails ≡ 0) × ((probe F c rs).0.state ≡ ok)
  unfolding probe assess
  probe-clean c rs a = rw (failures-none rs a) (refl, refl)

  -- After any rounds, a round without a failure, rounds that each have one, and a last round in
  -- which every endpoint fails, of one at least: the state is blocked if the failing rounds, the
  -- last one included, are as many as the threshold, and degraded otherwise. The failing rounds
  -- before the last count whether all or only some of their endpoints failed.
  pub run-failing :
      (c : Canary F) (before : List Round) (clean : Round) (bads : List Round) (last : Round)
      → All IsSuccess clean
      → All HasFailure bads
      → All IsFailure last
      → 0 < length last
      → (run F c (before ++ clean ∷ (bads ++ last ∷ []))).0.state
        ≡ (if leb c.threshold (length bads + 1) then blocked else degraded)
  unfolding run
  run-failing c before clean bads last s b f h =
      let d = (run F c before).0 in
      let (e, _) = probe-clean d clean s in
      let r = run-fails (probe F d clean).0 bads last b f h in
      let t = run-threshold d (clean ∷ []) ∙ run-threshold c before in
      let z : 0 + length bads + 1 ≡ length bads + 1 = omega arith in
      let r' = rw (e, t, z) at r in
      ap (λ x. x.state) (run-append c before (clean ∷ (bads ++ last ∷ []))) ∙ r'

  -- The round trips of a round's successful probes, in order, as samples for the detector.
  unfoldable pub samples : Round → List (Sample F)
  samples [] = []
  samples ((reply, t) ∷ rs) =
      let rest = samples rs in if probe_endpoint reply then rtt t ∷ rest else rest

  unfoldable pub all_samples : List Round → List (Sample F)
  all_samples [] = []
  all_samples (r ∷ rs) = samples r ++ all_samples rs

  detector-append :
      (d : Detector F) (xs ys : List (Sample F))
      → (D.run F d (xs ++ ys)).0 ≡ (D.run F (D.run F d xs).0 ys).0
  unfolding D.run
  detector-append d [] ys = refl
  detector-append d (x ∷ xs) ys = detector-append (D.step F d x).0 xs ys

  feed-samples :
      (d : Detector F) (rs : Round) → feed F (some d) rs ≡ some (D.run F d (samples rs)).0
  unfolding feed samples D.run D.step
  feed-samples d [] = refl
  feed-samples d ((reply, t) ∷ rs) = elim (Bool-cases (probe_endpoint reply)) [
    | inl e ↦ rw e (feed-samples (record_rtt F d t).0 rs)
    | inr e ↦ rw e (feed-samples d rs)
  ]

  probe-detector : (c : Canary F) (rs : Round) → (probe F c rs).0.detector ≡ feed F c.detector rs
  unfolding probe assess
  probe-detector c rs = ground arith

  -- A canary that has a detector gives it the round trips of the successful probes, in order, and
  -- nothing for the failed ones: after any rounds its detector is where those samples lead it.
  pub run-detector :
      (c : Canary F) (d : Detector F) (rs : List Round)
      → c.detector ≡ some d
      → (run F c rs).0.detector ≡ some (D.run F d (all_samples rs)).0
  unfolding run all_samples D.run
  run-detector c d [] e = e
  run-detector c d (r ∷ rs) e =
      let now = probe-detector c r ∙ ap (λ x. feed F x r) e ∙ feed-samples d r in
      run-detector (probe F c r).0 (D.run F d (samples r)).0 rs now
      ∙ ap some (sym (detector-append d (samples r) (all_samples rs)))
