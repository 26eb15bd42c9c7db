-- ===== src/Throttle/Rotator/Bounds.antt =====
-- The ranges that the live parameters keep to.
use nightveil.Prelude.{
  Bytes, List, [], All, length, leb, ltb, ℕ, zero, suc, ◌+◌, ◌-◌, ◌∷◌, ◌++◌, codes, get_or, max,
  Bool-cases, inl, inr, Bool, ap, arith, refl, true, ◌&&◌, ◌<◌, ◌||◌, ◌≡◌, ◌≤◌, ◌⊎◌, false, ◌∙◌,
}
use nightveil.Throttle.State.{normal, suspected, throttled}
use nightveil.Throttle.Rotator.{
  Source, LiveParams, ParamRanges, Rotator, Event, Level, param, param_tick, session_tick, report,
  charset, default_ranges, rand_range, random_alpha_num, randomize_all, new_rotator, rotate_params,
  rotate_session, emergency_rotate_now, on_state_change, step, run, raise,
}

-- Within a range, or at its low end if the range is upside down.
abbrev pub IsWithin : ℕ × ℕ → ℕ → Type 0
IsWithin (low, high) n = (low ≤ n) × (n ≤ max low high)

abbrev pub IsLowerOrDigit : ℕ → Type 0
IsLowerOrDigit c = ((b'a' ≤ c) × (c ≤ b'z')) ⊎ ((b'0' ≤ c) × (c ≤ b'9'))

-- A given prefix, then `n` lower-case letters or digits.
pub record IsToken (prefix : Bytes) (n : ℕ) (text : Bytes) : Type 0 where
  pub random : Bytes
  pub shape : text ≡ prefix ++ random
  pub size : length random ≡ n
  pub letters : All IsLowerOrDigit random

pub record IsInRanges (r : ParamRanges) (p : LiveParams) : Type 0 where
  pub padding_low : IsWithin r.padding_min_range p.padding_min
  pub padding_high_least : r.padding_max_range.0 ≤ p.padding_max
  pub padding_high :
      IsWithin r.padding_max_range p.padding_max ⊎ (p.padding_max ≡ p.padding_min + 64)
  pub chunk : IsWithin r.chunk_size_range p.chunk_size
  pub jitter_low : IsWithin r.jitter_min_ms_range p.jitter_min_ms
  pub jitter_high_least : r.jitter_max_ms_range.0 ≤ p.jitter_max_ms
  pub jitter_high :
      IsWithin r.jitter_max_ms_range p.jitter_max_ms ⊎ (p.jitter_max_ms ≡ p.jitter_min_ms + 20)
  pub prefix : IsToken (codes "/") r.path_length p.path_prefix
  pub up : IsToken (codes "/u/") 3 p.upload_path
  pub down : IsToken (codes "/d/") 3 p.download_path
  pub key : IsToken [] 5 p.session_key

get_or-All : (P : ℕ → Type 0) (xs : Bytes) (i : ℕ) → All P xs → i < length xs → P (get_or xs i 0)
get_or-All P [] i a h = absurd (omega arith)
get_or-All P (x ∷ xs) zero a h = a.0
get_or-All P (x ∷ xs) (suc i) a h = get_or-All P xs i a.1 (omega arith)

is_lower_or_digit : ℕ → Bool
is_lower_or_digit c = (leb b'a' c && leb c b'z') || (leb b'0' c && leb c b'9')

IsLowerOrDigit-is_lower_or_digit : (c : ℕ) → is_lower_or_digit c ≡ true → IsLowerOrDigit c
unfolding is_lower_or_digit
IsLowerOrDigit-is_lower_or_digit c h = ground arith

are_lower_or_digit : Bytes → Bool
are_lower_or_digit [] = true
are_lower_or_digit (c ∷ s) = is_lower_or_digit c && are_lower_or_digit s

All-are_lower_or_digit : (xs : Bytes) → are_lower_or_digit xs ≡ true → All IsLowerOrDigit xs
unfolding are_lower_or_digit
All-are_lower_or_digit [] h = tt
All-are_lower_or_digit (x ∷ xs) h = elim (Bool-cases (is_lower_or_digit x)) [
  | inl e ↦ (IsLowerOrDigit-is_lower_or_digit x e, All-are_lower_or_digit xs (rw e at h))
  | inr e ↦ let h' : false ≡ true = rw e at h in absurd cc
]

charset-All : All IsLowerOrDigit charset
unfolding are_lower_or_digit is_lower_or_digit
charset-All = All-are_lower_or_digit charset refl

module _ (R : Source) (below : (n : ℕ) (s : R.Seed) → 0 < n → (R.rand_int n s).0 < n) where
  -- A maximum that is put right where it is not above the minimum.
  raised :
      (range : ℕ × ℕ) (low high more : ℕ)
      → IsWithin range high
      → IsWithin range (raise R low high more) ⊎ (raise R low high more ≡ low + more)
  raised range low high more h = elim (Bool-cases (ltb high low)) [
    | inl e ↦ rw e (inr refl)
    | inr e ↦ rw e (inl h)
  ]

  rand_range-IsWithin : (r : ℕ × ℕ) (s : R.Seed) → IsWithin r (rand_range R r s).0
  unfolding rand_range
  rand_range-IsWithin (low, high) s = let b = below (high - low + 1) s (omega arith) in ground arith

  random_alpha_num_lem :
      (n : ℕ) (s : R.Seed)
      → let text = (random_alpha_num R n s).0 in (length text ≡ n) × All IsLowerOrDigit text
  unfolding random_alpha_num
  random_alpha_num_lem zero s = (refl, tt)
  random_alpha_num_lem (suc n) s =
      let (i, s₁) = R.rand_int (length charset) s in
      let (size, letters) = random_alpha_num_lem n s₁ in
      let b = below (length charset) s (omega arith) in
      (ap suc size, (get_or-All IsLowerOrDigit charset i charset-All b, letters))

  token :
      (prefix : Bytes) (n : ℕ) (s : R.Seed)
      → IsToken prefix n (prefix ++ (random_alpha_num R n s).0)
  token prefix n s =
      let (size, letters) = random_alpha_num_lem n s in
      record { random = (random_alpha_num R n s).0; shape = refl; size = size; letters = letters }

  randomize_all-IsInRanges : (r : ParamRanges) (s : R.Seed) → IsInRanges r (randomize_all R r s).0
  unfolding randomize_all
  randomize_all-IsInRanges r s =
      let (padding_min, s₁) = rand_range R r.padding_min_range s in
      let (padding_max, s₂) = rand_range R r.padding_max_range s₁ in
      let (chunk_size, s₃) = rand_range R r.chunk_size_range s₂ in
      let (jitter_min, s₄) = rand_range R r.jitter_min_ms_range s₃ in
      let (jitter_max, s₅) = rand_range R r.jitter_max_ms_range s₄ in
      let (prefix, s₆) = random_alpha_num R r.path_length s₅ in
      let (up, s₇) = random_alpha_num R 3 s₆ in
      let (down, s₈) = random_alpha_num R 3 s₇ in
      let high = rand_range-IsWithin r.padding_max_range s₁ in
      let jitter_high = rand_range-IsWithin r.jitter_max_ms_range s₄ in
      record {
        padding_low = rand_range-IsWithin r.padding_min_range s;
        padding_high_least = high.0;
        padding_high = inl high;
        chunk = rand_range-IsWithin r.chunk_size_range s₂;
        jitter_low = rand_range-IsWithin r.jitter_min_ms_range s₃;
        jitter_high_least = jitter_high.0;
        jitter_high = inl jitter_high;
        prefix = token (codes "/") r.path_length s₅;
        up = token (codes "/u/") 3 s₆;
        down = token (codes "/d/") 3 s₇;
        key = token [] 5 s₈;
      }

  rotate_params-IsInRanges :
      (r : Rotator) (s : R.Seed)
      → IsInRanges r.ranges r.params
      → IsInRanges r.ranges (rotate_params R r s).0.0.params
  unfolding rotate_params
  rotate_params-IsInRanges r s v =
      let (padding_min, s₁) = rand_range R r.padding_min_range s in
      let (padding_max, s₂) = rand_range R r.padding_max_range s₁ in
      let (chunk_size, s₃) = rand_range R r.chunk_size_range s₂ in
      let (jitter_min, s₄) = rand_range R r.jitter_min_ms_range s₃ in
      let high = rand_range-IsWithin r.padding_max_range s₁ in
      let (jitter_max, s₅) = rand_range R r.jitter_max_ms_range s₄ in
      let jitter_high = rand_range-IsWithin r.jitter_max_ms_range s₄ in
      record {
        padding_low = rand_range-IsWithin r.padding_min_range s;
        padding_high_least = ground (arith, high.0);
        padding_high = raised r.padding_max_range padding_min padding_max 64 high;
        chunk = rand_range-IsWithin r.chunk_size_range s₂;
        jitter_low = rand_range-IsWithin r.jitter_min_ms_range s₃;
        jitter_high_least = ground (arith, jitter_high.0);
        jitter_high = raised r.jitter_max_ms_range jitter_min jitter_max 20 jitter_high;
        prefix = v.prefix;
        up = v.up;
        down = v.down;
        key = v.key;
      }

  abbrev Keeps : Rotator → (Rotator × List (Level × LiveParams)) → Type 0
  Keeps r (r', told) =
      (r'.ranges ≡ r.ranges)
      × IsInRanges r.ranges r'.params
      × All (λ x. IsInRanges r.ranges x.1) told

  step-Keeps :
      (r : Rotator) (e : Event) (s : R.Seed)
      → IsInRanges r.ranges r.params
      → Keeps r (step R r e s).0
  unfolding step rotate_params rotate_session emergency_rotate_now on_state_change
  step-Keeps r param_tick s v = let h = rotate_params-IsInRanges r s v in (refl, h, (h, tt))
  step-Keeps r session_tick s v = let h = randomize_all-IsInRanges r.ranges s in (refl, h, (h, tt))
  step-Keeps r (report throttled) s v =
      let h = randomize_all-IsInRanges r.ranges s in (refl, h, (h, tt))
  step-Keeps r (report suspected) s v = (refl, v, tt)
  step-Keeps r (report normal) s v = (refl, v, tt)

  All-append :
      {A : Type 0} (P : A → Type 0) (xs ys : List A) → All P xs → All P ys → All P (xs ++ ys)
  All-append P [] ys a b = b
  All-append P (x ∷ xs) ys a b = (a.0, All-append P xs ys a.1 b)

  run-Keeps :
      (r : Rotator) (es : List Event) (s : R.Seed)
      → IsInRanges r.ranges r.params
      → Keeps r (run R r es s).0
  unfolding run
  run-Keeps r [] s v = (refl, v, tt)
  run-Keeps r (e ∷ es) s v =
      let (same, now, told) = step-Keeps r e s v in
      let ((r₁, first), s₁) = step R r e s in
      let (same', now', told') = run-Keeps r₁ es s₁ (rw same now) in
      (
        same' ∙ same,
        rw same at now',
        All-append (λ x. IsInRanges r.ranges x.1) first (run R r₁ es s₁).0.1 told
            (rw same at told'),
      )

  -- Where `rand.Int` returns a number below its bound: after any rotations, whatever asks for them,
  -- the live parameters and those of every callback are in the configured ranges, save that a maximum
  -- that is not in its range is its minimum and 64 (padding) or 20 (jitter), and is then at least the
  -- low end of its range; the paths and the key are the fixed prefixes and random lower-case letters
  -- and digits of the right number.
  pub run-new_rotator :
      (ranges : ParamRanges) (es : List Event) (s : R.Seed)
      → let (r, s₁) = new_rotator R ranges s in
        let (r', told) = (run R r es s₁).0 in
        IsInRanges ranges r'.params × All (λ x. IsInRanges ranges x.1) told
  unfolding new_rotator
  run-new_rotator ranges es s =
      let (r, s₁) = new_rotator R ranges s in
      let (same, now, told) = run-Keeps r es s₁ (randomize_all-IsInRanges ranges s) in (now, told)

  -- With the default ranges the padding's and the jitter's minimum never exceed their maximum and a
  -- chunk is at least 8192 and at most 14336 bytes, after any rotations.
  pub run-default_ranges :
      (es : List Event) (s : R.Seed)
      → let (r, s₁) = new_rotator R default_ranges s in
        let p = (run R r es s₁).0.0.params in
        (p.padding_min ≤ p.padding_max)
        × (p.jitter_min_ms ≤ p.jitter_max_ms)
        × (8_192 ≤ p.chunk_size)
        × (p.chunk_size ≤ 14_336)
  unfolding default_ranges
  run-default_ranges es s =
      let v = (run-new_rotator default_ranges es s).0 in
      (
        omega (arith, v.padding_low.1, v.padding_high_least),
        omega (arith, v.jitter_low.1, v.jitter_high_least),
        v.chunk.0,
        omega (arith, v.chunk.1),
      )

-- A rotation of level one, with any ranges and any random numbers: no minimum exceeds its maximum,
-- the paths, the session key and the ranges stay, and the callbacks for level one, and no other, are
-- told of the parameters that are then live.
pub rotate_params_lem :
    (R : Source) (r : Rotator) (s : R.Seed)
    → let (r', told) = (rotate_params R r s).0 in
      (r'.padding_min ≤ r'.padding_max)
      × (r'.jitter_min_ms ≤ r'.jitter_max_ms)
      × (r'.path_prefix ≡ r.path_prefix)
      × (r'.upload_path ≡ r.upload_path)
      × (r'.download_path ≡ r.download_path)
      × (r'.session_key ≡ r.session_key)
      × (r'.ranges ≡ r.ranges)
      × (told ≡ (param, r'.params) ∷ [])
unfolding rotate_params
rotate_params_lem R r s = (ground arith, ground arith, refl, refl, refl, refl, refl, refl)

-- The other rotations do not put a maximum right: with ranges that leave one value each, the maximum
-- of the padding below the minimum, they leave the maximum below the minimum.
pub rotate_session-inverted :
    (R : Source) (r : Rotator) (s : R.Seed) (low high : ℕ)
    → r.padding_min_range ≡ (low, low)
    → r.padding_max_range ≡ (high, high)
    → high < low
    → let r' = (rotate_session R r s).0.0 in r'.padding_max < r'.padding_min
unfolding rotate_session randomize_all rand_range
rotate_session-inverted R r s low high e f h = rw (e, f) (ground arith)
