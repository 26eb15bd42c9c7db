-- ===== src/Throttle/Canary.antt =====
-- internal/throttle/canary.go: probing the internet through the tunnel. What the HTTP client
-- answers to a request, and in what time, is an input. Callbacks are in the list that is returned.
pub mod Verdict
pub mod Tests
use nightveil.Prelude.{
  Bool, List, Option, [], false, if◌then◌else◌, leb, leb_ℤ, ltb, none, pos, pos_part, some, suc,
  true, ℕ, ℤ, ◌+◌, ◌==◌, ◌∷◌,
}
use nightveil.Throttle.State.{State}
use nightveil.Throttle.Detector.{Floats, Detector, record_rtt}

pub data CanaryState : Type 0 where
  ok degraded blocked : CanaryState

-- `oldState != newState`, negated.
abbrev pub same_state : CanaryState → CanaryState → Bool
same_state ok ok = true
same_state degraded degraded = true
same_state blocked blocked = true
same_state _ _ = false

-- `FailThreshold` after `defaults`.
unfoldable pub fail_threshold : ℤ → ℕ
fail_threshold n = if leb_ℤ n (pos 0) then 3 else pos_part n

-- How one request ended: no request, no response, or the status of a response; and the time it took.
pub data Reply : Type 0 where
  bad_request no_response : Reply
  response : (status : ℕ) → Reply

-- `probeEndpoint`: whether it returns nil.
unfoldable pub probe_endpoint : Reply → Bool
probe_endpoint bad_request = false
probe_endpoint no_response = false
probe_endpoint (response status) = ltb status 400

-- One reply and round-trip time for each endpoint.
abbrev pub Round : Type 0
Round = List (Reply × ℕ)

unfoldable pub successes : Round → ℕ
successes [] = 0
successes ((reply, rtt) ∷ rs) =
    let rest = successes rs in if probe_endpoint reply then suc rest else rest

unfoldable pub failures : Round → ℕ
failures [] = 0
failures ((reply, rtt) ∷ rs) =
    let rest = failures rs in if probe_endpoint reply then rest else suc rest

module _ (F : Floats) where
  pub record Canary : Type 0 where
    pub threshold : ℕ
    pub detector : Option (Detector F)
    pub state : CanaryState
    pub consecutive_fails : ℕ

  unfoldable pub new_canary : ℤ → Option (Detector F) → Canary
  new_canary n detector = record {
    threshold = fail_threshold n;
    detector = detector;
    state = ok;
    consecutive_fails = 0;
  }

  -- What the loop over the endpoints does to the detector, if there is one.
  unfoldable pub feed : Option (Detector F) → Round → Option (Detector F)
  feed none rs = none
  feed (some d) [] = some d
  feed (some d) ((reply, rtt) ∷ rs) =
      feed (some (if probe_endpoint reply then (record_rtt F d rtt).0 else d)) rs

  -- The state and the count that the successes and failures of a round lead to.
  unfoldable pub assess : Canary → ℕ → ℕ → Canary
  assess c successes failures =
      let fails = c.consecutive_fails + 1 in
      if failures == 0
      then record c { consecutive_fails = 0; state = ok }
      else if ltb 0 successes
      then record c { consecutive_fails = fails; state = degraded }
      else record c {
        consecutive_fails = fails;
        state = if leb c.threshold fails then blocked else degraded;
      }

  -- The new canary, and the state that the listeners are told, if any.
  unfoldable pub probe : Canary → Round → Canary × Option CanaryState
  probe c rs =
      let c' = assess (record c { detector = feed c.detector rs }) (successes rs) (failures rs) in
      (c', if same_state c.state c'.state then none else some c'.state)

  -- `probeLoop` over the given rounds.
  unfoldable pub run : Canary → List Round → Canary × List CanaryState
  run c [] = (c, [])
  run c (r ∷ rs) =
      let (c', told) = probe c r in
      let (c'', rest) = run c' rs in (c'', elim told [ none ↦ rest | some t ↦ t ∷ rest ])
