-- ===== src/Throttle/Adaptive/Bounds.antt =====
-- The bounds of the recommended number of connections.
use nightveil.Prelude.{
  List, [], arith, max, refl, replicate, suc, zero, ℕ, ℤ, ◌+◌, ◌<◌, ◌∙◌, ◌∷◌, ◌≡◌, ◌≤◌,
}
use nightveil.Throttle.State.{State, normal, suspected, throttled}
use nightveil.Throttle.Adaptive.{
  Adaptive, AdaptiveConfig, Strategy, defaults, new_adaptive, on_state_change, run,
}

-- Between the base and the maximum, or at the base if that is above the maximum.
pub record IsBounded (a : Adaptive) : Type 0 where
  pub at_least : a.base_parallel_conns ≤ a.parallel_conns
  pub at_most : a.parallel_conns ≤ max a.base_parallel_conns a.max_parallel_conns

on_state_change-IsBounded :
    (a : Adaptive) (s : State)
    → IsBounded a
    → IsBounded (on_state_change a s) × ((on_state_change a s).config ≡ a.config)
unfolding on_state_change
on_state_change-IsBounded a normal b = (ground arith, refl)
on_state_change-IsBounded a suspected b = (b, refl)
on_state_change-IsBounded a throttled b = (ground arith, refl)

run-IsBounded :
    (a : Adaptive) (ss : List State)
    → IsBounded a
    → IsBounded (run a ss) × ((run a ss).config ≡ a.config)
unfolding run
run-IsBounded a [] b = (b, refl)
run-IsBounded a (s ∷ ss) b =
    let (b', e) = on_state_change-IsBounded a s b in
    let (r, f) = run-IsBounded (on_state_change a s) ss b' in (r, f ∙ e)

-- Whatever states are reported, and in whatever order, the number of connections stays at or above
-- the configured base and at or below the larger of base and maximum.
pub run-new_adaptive :
    (c : AdaptiveConfig) (ss : List State)
    → let n = (run (new_adaptive c) ss).parallel_conns in
      (c.base_parallel_conns ≤ n) × (n ≤ max c.base_parallel_conns c.max_parallel_conns)
unfolding new_adaptive
run-new_adaptive c ss =
    let (b, e) = run-IsBounded (new_adaptive c) ss (omega arith) in
    let low = b.at_least in let high = b.at_most in (rw e at low, rw e at high)

calms :
    (k : ℕ) (a : Adaptive)
    → 0 < a.base_parallel_conns
    → a.base_parallel_conns ≤ a.parallel_conns
    → a.parallel_conns ≤ a.base_parallel_conns + k
    → (run a (replicate k normal)).parallel_conns ≡ a.base_parallel_conns
unfolding run on_state_change
calms zero a p low h = omega arith
calms (suc k) a p low h = calms k (on_state_change a normal) p (ground arith) (ground arith)

-- Once throttling is over the number comes back to the base: from any state that reports lead to,
-- as many reports of a normal state as there are connections are enough. The configuration is one
-- that went through `defaults`.
pub run-calms :
    (s : Strategy) (base most every : ℤ) (ss : List State)
    → let a = run (new_adaptive (defaults s base most every)) ss in
      (run a (replicate a.parallel_conns normal)).parallel_conns ≡ a.base_parallel_conns
unfolding defaults new_adaptive
run-calms s base most every ss =
    let (b, e) = run-IsBounded (new_adaptive (defaults s base most every)) ss (omega arith) in
    let a = run (new_adaptive (defaults s base most every)) ss in
    calms a.parallel_conns a (rw e (ground arith)) b.at_least (omega arith)
