-- ===== src/Throttle/State.antt =====
use nightveil.Prelude.{Bool, false, true}

-- The assessments of internal/throttle/detector.go.
pub data State : Type 0 where
  normal suspected throttled : State

-- `oldState != newState`
abbrev pub same_state : State → State → Bool
same_state normal normal = true
same_state suspected suspected = true
same_state throttled throttled = true
same_state _ _ = false
