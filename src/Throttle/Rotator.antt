-- ===== src/Throttle/Rotator.antt =====
-- internal/throttle/rotator.go: the tunnel's randomised parameters and the rotations that change
-- them. `rand.Int(rand.Reader, n)` is a parameter that takes and returns the state of its source; it
-- does not fail. Ranges and parameters are numbers that are not negative. `set_initial_params` is for
-- callers that override the parameters. A callback is an entry of the list that an operation
-- returns, with the level that it is registered for.
pub mod Bounds
pub mod Tests
use nightveil.Prelude.{
  Bytes, List, [], if◌then◌else◌, leb, ltb, ℕ, zero, suc, ◌+◌, ◌-◌, ◌∷◌, ◌++◌, codes, get_or,
  Option, some, none, length, ◌*◌,
}
use nightveil.Throttle.State.{State, normal, suspected, throttled}

-- `rand.Int` on `rand.Reader`.
pub record Source : Type 1 where
  pub Seed : Type 0
  pub rand_int : ℕ → Seed → ℕ × Seed

pub record LiveParams : Type 0 where
  pub padding_min : ℕ
  pub padding_max : ℕ
  pub chunk_size : ℕ
  pub jitter_min_ms : ℕ
  pub jitter_max_ms : ℕ
  pub path_prefix : Bytes
  pub upload_path : Bytes
  pub download_path : Bytes
  pub session_key : Bytes

pub record ParamRanges : Type 0 where
  pub padding_min_range : ℕ × ℕ
  pub padding_max_range : ℕ × ℕ
  pub chunk_size_range : ℕ × ℕ
  pub jitter_min_ms_range : ℕ × ℕ
  pub jitter_max_ms_range : ℕ × ℕ
  pub path_length : ℕ

unfoldable pub default_ranges : ParamRanges
default_ranges = record {
  padding_min_range = (32, 128);
  padding_max_range = (128, 512);
  chunk_size_range = (8_192, 14_336);
  jitter_min_ms_range = (5, 30);
  jitter_max_ms_range = (30, 100);
  path_length = 6;
}

abbrev pub charset : Bytes
charset = codes "abcdefghijklmnopqrstuvwxyz0123456789"

-- Which callbacks: `onParamRotate` or `onSessionRotate`.
pub data Level : Type 0 where
  param session : Level

pub record Rotator : Type 0 where
  pub ranges : ParamRanges
  pub open ranges use *
  pub params : LiveParams
  pub open params use *

pub data Event : Type 0 where
  param_tick session_tick : Event
  report : State → Event

module _ (R : Source) where
  open R use {Seed, rand_int}

  unfoldable pub rand_range : ℕ × ℕ → Seed → ℕ × Seed
  rand_range (low, high) s =
      if leb high low then (low, s) else let (n, s') = rand_int (high - low + 1) s in (low + n, s')

  unfoldable pub random_alpha_num : ℕ → Seed → Bytes × Seed
  random_alpha_num zero s = ([], s)
  random_alpha_num (suc n) s =
      let (i, s₁) = rand_int (length charset) s in
      let (rest, s₂) = random_alpha_num n s₁ in (get_or charset i 0 ∷ rest, s₂)

  unfoldable pub randomize_all : ParamRanges → Seed → LiveParams × Seed
  randomize_all ranges s =
      let (padding_min, s₁) = rand_range ranges.padding_min_range s in
      let (padding_max, s₂) = rand_range ranges.padding_max_range s₁ in
      let (chunk_size, s₃) = rand_range ranges.chunk_size_range s₂ in
      let (jitter_min, s₄) = rand_range ranges.jitter_min_ms_range s₃ in
      let (jitter_max, s₅) = rand_range ranges.jitter_max_ms_range s₄ in
      let (prefix, s₆) = random_alpha_num ranges.path_length s₅ in
      let (up, s₇) = random_alpha_num 3 s₆ in
      let (down, s₈) = random_alpha_num 3 s₇ in
      let (key, s₉) = random_alpha_num 5 s₈ in
      (
        record {
          padding_min = padding_min;
          padding_max = padding_max;
          chunk_size = chunk_size;
          jitter_min_ms = jitter_min;
          jitter_max_ms = jitter_max;
          path_prefix = codes "/" ++ prefix;
          upload_path = codes "/u/" ++ up;
          download_path = codes "/d/" ++ down;
          session_key = key;
        },
        s₉,
      )

  unfoldable pub new_rotator : ParamRanges → Seed → Rotator × Seed
  new_rotator ranges s =
      let (params, s') = randomize_all ranges s in (record { ranges = ranges; params = params }, s')

  -- A maximum that is below its minimum gives way to the minimum and `more`.
  abbrev pub raise : ℕ → ℕ → ℕ → ℕ
  raise low high more = if ltb high low then low + more else high

  unfoldable pub rotate_params : Rotator → Seed → (Rotator × List (Level × LiveParams)) × Seed
  rotate_params r s =
      let (padding_min, s₁) = rand_range r.padding_min_range s in
      let (padding_max, s₂) = rand_range r.padding_max_range s₁ in
      let (chunk_size, s₃) = rand_range r.chunk_size_range s₂ in
      let (jitter_min, s₄) = rand_range r.jitter_min_ms_range s₃ in
      let (jitter_max, s₅) = rand_range r.jitter_max_ms_range s₄ in
      let params : LiveParams = record r.params {
        padding_min = padding_min;
        padding_max = raise padding_min padding_max 64;
        chunk_size = chunk_size;
        jitter_min_ms = jitter_min;
        jitter_max_ms = raise jitter_min jitter_max 20;
      } in
      ((record r { params = params }, (param, params) ∷ []), s₅)

  unfoldable pub rotate_session : Rotator → Seed → (Rotator × List (Level × LiveParams)) × Seed
  rotate_session r s =
      let (params, s') = randomize_all r.ranges s in
      ((record r { params = params }, (session, params) ∷ []), s')

  unfoldable pub emergency_rotate_now :
      Rotator → Seed → (Rotator × List (Level × LiveParams)) × Seed
  emergency_rotate_now r s =
      let (params, s') = randomize_all r.ranges s in
      ((record r { params = params }, (session, params) ∷ []), s')

  -- The listener that `NewRotator` gives the detector when emergency rotation is on.
  unfoldable pub on_state_change :
      Rotator → State → Seed → (Rotator × List (Level × LiveParams)) × Seed
  on_state_change r throttled s = emergency_rotate_now r s
  on_state_change r suspected s = ((r, []), s)
  on_state_change r normal s = ((r, []), s)

  unfoldable pub step : Rotator → Event → Seed → (Rotator × List (Level × LiveParams)) × Seed
  step r param_tick s = rotate_params r s
  step r session_tick s = rotate_session r s
  step r (report t) s = on_state_change r t s

  -- The rotator after the events, and the callbacks in order.
  unfoldable pub run : Rotator → List Event → Seed → (Rotator × List (Level × LiveParams)) × Seed
  run r [] s = ((r, []), s)
  run r (e ∷ es) s =
      let ((r₁, told), s₁) = step r e s in
      let ((r₂, rest), s₂) = run r₁ es s₁ in ((r₂, told ++ rest), s₂)

abbrev pub or_text : Bytes → Bytes → Bytes
or_text [] old = old
or_text (c ∷ s) old = c ∷ s

abbrev pub or_number : ℕ → ℕ → ℕ
or_number n old = if ltb 0 n then n else old

unfoldable pub set_initial_params : Rotator → LiveParams → Rotator
set_initial_params r p = record r {
  params = record r.params {
    path_prefix = or_text p.path_prefix r.path_prefix;
    upload_path = or_text p.upload_path r.upload_path;
    download_path = or_text p.download_path r.download_path;
    session_key = or_text p.session_key r.session_key;
    chunk_size = or_number p.chunk_size r.chunk_size;
    padding_min = or_number p.padding_min r.padding_min;
    padding_max = or_number p.padding_max r.padding_max;
  };
}
