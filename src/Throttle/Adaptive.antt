-- ===== src/Throttle/Adaptive.antt =====
-- internal/throttle/adaptive.go: how many parallel connections to use. The counts stay below 2^31,
-- where the conversion to `int32` changes nothing. The channel `rotateSignal` holds one signal or
-- none.
pub mod Bounds
pub mod Tests
use nightveil.Prelude.{
  Bool, List, [], false, if◌then◌else◌, leb_ℤ, ltb, max, min, pos, pos_part, true, ℕ, ℤ, ◌*◌, ◌/◌,
  ◌||◌, ◌∷◌,
}
use nightveil.Throttle.State.{State, normal, suspected, throttled}

pub data Strategy : Type 0 where
  unset multiply rotate both : Strategy

pub record AdaptiveConfig : Type 0 where
  pub strategy : Strategy
  pub base_parallel_conns : ℕ
  pub max_parallel_conns : ℕ
  pub rotate_interval_sec : ℕ

-- A setting that is not above zero gives way to its default.
abbrev pub or_default : ℤ → ℕ → ℕ
or_default n d = if leb_ℤ n (pos 0) then d else pos_part n

abbrev pub strategy_or_both : Strategy → Strategy
strategy_or_both unset = both
strategy_or_both s = s

unfoldable pub defaults : Strategy → ℤ → ℤ → ℤ → AdaptiveConfig
defaults s base most rotate_sec = record {
  strategy = strategy_or_both s;
  base_parallel_conns = or_default base 1;
  max_parallel_conns = or_default most 8;
  rotate_interval_sec = or_default rotate_sec 60;
}

pub record Adaptive : Type 0 where
  pub config : AdaptiveConfig
  pub open config use *
  pub parallel_conns : ℕ
  pub rotate_signal : Bool

unfoldable pub new_adaptive : AdaptiveConfig → Adaptive
new_adaptive c = record {
  config = c;
  parallel_conns = c.base_parallel_conns;
  rotate_signal = false;
}

-- The strategies that ask for fresh connections.
abbrev pub rotates : Strategy → Bool
rotates rotate = true
rotates both = true
rotates _ = false

unfoldable pub on_state_change : Adaptive → State → Adaptive
on_state_change a throttled =
    let new_val = min (a.parallel_conns * 2) a.max_parallel_conns in
    record a {
      parallel_conns = if ltb a.parallel_conns new_val then new_val else a.parallel_conns;
      rotate_signal = rotates a.strategy || a.rotate_signal;
    }
on_state_change a suspected = a
on_state_change a normal = record a {
  parallel_conns =
      if ltb a.base_parallel_conns a.parallel_conns
      then max (a.parallel_conns / 2) a.base_parallel_conns
      else a.parallel_conns;
}

unfoldable pub run : Adaptive → List State → Adaptive
run a [] = a
run a (s ∷ ss) = run (on_state_change a s) ss
