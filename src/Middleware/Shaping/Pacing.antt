-- ===== src/Middleware/Shaping/Pacing.antt =====
-- internal/middleware/shaping/shaping.go: how fast reads can go on, and what the automatic profile does.
use native.Mathlib.Nat.{add-mul}
use nightveil.Prelude.{
  All, Bool, Bool-cases, List, [], arith, inl, inr, leb_ℤ, length, length-append, ltb, pos,
  pos_part, refl, suc, true, ℕ, ℤ, ◌*◌, ◌++◌, ◌+◌, ◌<◌, ◌≡◌, ◌≤◌, ◌∷◌, ◌∙◌, ap, sym,
}
use nightveil.Middleware.Shaping.{
  Conn, Slept, auto, idle, get_profile, rand_range, read, read_as, read_browsing, measured_or,
}

-- A row of reads, each with its draw and with how much it gets.
module _ (mostly_read : ℕ → ℕ → Bool) (stream_sleep : ℕ → ℤ → ℕ) where
  unfoldable pub reads : Conn → List ((ℕ → ℕ) × ℕ) → Slept
  reads c [] = (c, [])
  reads c ((draw, n) ∷ more) =
      let (c₁, slept) = read mostly_read stream_sleep draw c n in
      let (c₂, rest) = reads c₁ more in (c₂, slept ++ rest)

  get_profile-idle :
      (c : Conn)
      → c.config.profile ≡ auto
      → c.total_read + c.total_written < 1024
      → get_profile mostly_read stream_sleep c ≡ idle
  unfolding get_profile
  get_profile-idle c p h =
      let few : ltb (c.total_read + c.total_written) 1024 ≡ true = ground arith in
      rw few (ap (measured_or idle) p)

  read-idle :
      (c : Conn) (draw : ℕ → ℕ) (n : ℕ)
      → c.config.profile ≡ auto
      → c.total_read + c.total_written < 1024
      → read mostly_read stream_sleep draw c n ≡ (c, rand_range draw (pos 1000) (pos 5000) ∷ [])
  unfolding read
  read-idle c draw n p h =
      ap (λ k. read_as mostly_read stream_sleep k draw c n) (get_profile-idle c p h)

  -- In the automatic profile nothing is counted as long as the connection counts as idle: while
  -- fewer than 1024 bytes are counted, no number of reads, however much they get, changes that.
  pub reads-idle :
      (c : Conn) (rs : List ((ℕ → ℕ) × ℕ))
      → c.config.profile ≡ auto
      → c.total_read + c.total_written < 1024
      → ((reads c rs).0 ≡ c) × (length (reads c rs).1 ≡ length rs)
  unfolding reads read
  reads-idle c [] p h = (refl, refl)
  reads-idle c ((draw, n) ∷ rs) p h =
      let one = read-idle c draw n p h in
      let (same, count) = reads-idle c rs p h in rw one (same, ap suc count)

abbrev pub sum : List ((ℕ → ℕ) × ℕ) → ℕ
sum [] = 0
sum ((draw, n) ∷ rs) = n + sum rs

abbrev pub reads_browsing : Conn → List ((ℕ → ℕ) × ℕ) → Slept
reads_browsing c [] = (c, [])
reads_browsing c ((draw, n) ∷ more) =
    let (c₁, slept) = read_browsing draw c n in
    let (c₂, rest) = reads_browsing c₁ more in (c₂, slept ++ rest)

-- One read of a burst that has not gone too far.
read_browsing-paced :
    (draw : ℕ → ℕ) (c : Conn) (n room : ℕ)
    → n ≤ room
    → c.burst_bytes ≤ pos_part c.config.burst_max_bytes + room
    → let (c', slept) = read_browsing draw c n in
      (c'.burst_bytes ≤ pos_part c.config.burst_max_bytes + room)
      × (c'.config ≡ c.config)
      × (c.burst_bytes + n
          ≤ length slept * (pos_part c.config.burst_max_bytes + room) + c'.burst_bytes)
read_browsing-paced draw c n room h k =
    elim (Bool-cases (leb_ℤ c.config.burst_max_bytes (pos c.burst_bytes))) [
      | inl e ↦ rw e (omega arith, refl, omega arith)
      | inr e ↦ rw e (ground arith, refl, omega arith)
    ]

paced_sum :
    (most room : ℕ) (c : Conn) (rs : List ((ℕ → ℕ) × ℕ))
    → most ≡ pos_part c.config.burst_max_bytes + room
    → All (λ r. r.1 ≤ room) rs
    → c.burst_bytes ≤ most
    → c.burst_bytes + sum rs ≤ length (reads_browsing c rs).1 * most + most
paced_sum most room c [] e a h = omega arith
paced_sum most room c ((draw, n) ∷ rs) e (a, as_) h =
    let one = read_browsing draw c n in
    let (small, same, grown) = read_browsing-paced draw c n room a (omega arith) in
    let kept : most ≡ pos_part one.0.config.burst_max_bytes + room =
      e ∙ ap (λ k. pos_part k.burst_max_bytes + room) (sym same) in
    let rest = paced_sum most room one.0 rs kept as_ (omega arith) in
    let grown' : c.burst_bytes + n ≤ length one.1 * most + one.0.burst_bytes = rw e grown in
    let joined = length-append one.1 (reads_browsing one.0 rs).1 in
    let spread : (length one.1 + length (reads_browsing one.0 rs).1) * most
        ≡ length one.1 * most + length (reads_browsing one.0 rs).1 * most =
      add-mul (length one.1) (length (reads_browsing one.0 rs).1) most in
    rw (joined, spread) (omega arith)

-- In the browsing profile, with reads of at most `room` bytes: what a row of reads gets is at most
-- one burst, which is the configured maximum and `room` more, for each pause and one besides.
pub reads_browsing-paced :
    (c : Conn) (room : ℕ) (rs : List ((ℕ → ℕ) × ℕ))
    → All (λ r. r.1 ≤ room) rs
    → c.burst_bytes ≤ pos_part c.config.burst_max_bytes + room
    → let (c', slept) = reads_browsing c rs in
      c.burst_bytes + sum rs
      ≤ length slept * (pos_part c.config.burst_max_bytes + room)
        + (pos_part c.config.burst_max_bytes + room)
reads_browsing-paced c room rs a h =
    paced_sum (pos_part c.config.burst_max_bytes + room) room c rs refl a h
