-- ===== src/Middleware/Jitter/Delays.antt =====
-- internal/middleware/jitter/jitter.go: how long reads and writes wait.
use nightveil.Prelude.{
  Bool-cases, arith, if◌then◌else◌, inl, inr, ltb_ℤ, negsuc, pos, refl, ℕ, ℤ, ◌+ℤ◌, ◌+◌, ◌-◌, ◌<◌,
  ◌≡◌, ◌≤◌, ap, ◌∙◌,
}
use nightveil.Middleware.Jitter.{Config, delay, new, read_delay, write_delay}

low_cases : (z : ℤ) → (n : ℕ) × ((if ltb_ℤ z (pos 0) then pos 0 else z) ≡ pos n)
low_cases (pos n) = (n, ground arith)
low_cases (negsuc n) = (0, ground arith)

high_cases : (z : ℤ) (l : ℕ) → (w : ℕ) × ((if ltb_ℤ z (pos l) then pos l else z) ≡ pos (l + w))
high_cases (negsuc n) l = (0, ground arith)
high_cases (pos n) l = elim (Bool-cases (ltb_ℤ (pos n) (pos l))) [
  | inl e ↦ (0, rw e (ground arith))
  | inr e ↦ (n - l, rw e (ground arith))
]

delay_within :
    (draw : ℕ → ℕ) (c : Config) (low width : ℕ)
    → ((n : ℕ) → 0 < n → draw n < n)
    → c.min_ms ≡ pos low
    → c.max_ms ≡ pos (low + width)
    → (low ≤ delay draw c) × (delay draw c ≤ low + width)
unfolding delay ◌+ℤ◌
delay_within draw c low width d e f =
    let k = low + width + 0 - (low + 0) + 1 in rw (e, f) (ground (arith, d k (omega arith)))

read_delay-write_only :
    (draw : ℕ → ℕ) (c : Config)
    → read_delay draw c ≡ (if c.write_only then 0 else write_delay draw c)
unfolding read_delay write_delay
read_delay-write_only draw c = elim (Bool-cases c.write_only) [
  | inl e ↦ rw e refl
  | inr e ↦ rw e refl
]

-- With the bounds as `New` leaves them, which are not negative and in order, every delay of a write
-- lies between them, and a read has a delay like that or, where only writes are delayed, none.
pub delay-new :
    (draw : ℕ → ℕ) (c : Config)
    → ((n : ℕ) → 0 < n → draw n < n)
    → (low width : ℕ) × ((new c).min_ms ≡ pos low)
      × ((new c).max_ms ≡ pos (low + width))
      × (low ≤ write_delay draw (new c))
      × (write_delay draw (new c) ≤ low + width)
      × (read_delay draw (new c) ≡ (if c.write_only then 0 else write_delay draw (new c)))
unfolding new write_delay
delay-new draw c d =
    let (low, e) = low_cases c.min_ms in
    let (width, f) = high_cases c.max_ms low in
    let low_eq : (new c).min_ms ≡ pos low = e in
    let high_eq : (new c).max_ms ≡ pos (low + width) =
      ap (λ l. if ltb_ℤ c.max_ms l then l else c.max_ms) e ∙ f in
    let (above, below) = delay_within draw (new c) low width d low_eq high_eq in
    (low, width, low_eq, high_eq, above, below, read_delay-write_only draw (new c))
