-- ===== src/Middleware/Shaping.antt =====
-- internal/middleware/shaping/shaping.go: a connection whose reads and writes are paced. What the
-- inner connection gives is an argument; sleeps are in milliseconds. Of the floating-point numbers,
-- whether the share of the bytes read is above 0.9, and the sleep of the streaming profile for a
-- number of bytes (0 where it is not above 1), are parameters. What `rand.Int` draws below a bound is
-- an argument.
pub mod Pacing
pub mod Tests
use nightveil.Prelude.{
  Bool, List, [], if◌then◌else◌, leb_ℤ, length, ltb, negsuc, neg_part, pos, pos_part, ℕ, ℤ, ◌*◌,
  ◌+ℤ◌, ◌+◌, ◌-◌, ◌∷◌, ◌==◌,
}

-- `Profile`: its constants, the empty text, and any other one.
pub data Profile : Type 0 where
  browsing streaming idle auto passthrough unset other : Profile

pub record Config : Type 0 where
  pub profile : Profile
  pub burst_min_bytes : ℤ
  pub burst_max_bytes : ℤ
  pub pause_min_ms : ℤ
  pub pause_max_ms : ℤ
  pub rate_bytes_per_sec : ℤ
  pub auto_detect_window : ℤ

abbrev pub or_default : ℤ → ℤ → ℕ → ℤ
or_default n low d = if leb_ℤ n low then pos d else n

abbrev pub or_passthrough : Profile → Profile
or_passthrough unset = passthrough
or_passthrough p = p

unfoldable pub defaults : Config → Config
defaults c =
    let burst_min = or_default c.burst_min_bytes (pos 0) 4096 in
    let pause_min = or_default c.pause_min_ms (pos 0) 100 in
    record {
      profile = or_passthrough c.profile;
      burst_min_bytes = burst_min;
      burst_max_bytes = or_default c.burst_max_bytes burst_min 65_536;
      pause_min_ms = pause_min;
      pause_max_ms = or_default c.pause_max_ms pause_min 2000;
      rate_bytes_per_sec = or_default c.rate_bytes_per_sec (pos 0) (500 * 1024);
      auto_detect_window = or_default c.auto_detect_window (pos 0) 5_000_000_000;
    }

-- `shapingConn`.
pub record Conn : Type 0 where
  pub config : Config
  pub total_read : ℕ
  pub total_written : ℕ
  pub burst_bytes : ℕ

unfoldable pub new_conn : Config → Conn
unfolding defaults
new_conn c = record { config = defaults c; total_read = 0; total_written = 0; burst_bytes = 0 }

unfoldable pub rand_range : (ℕ → ℕ) → ℤ → ℤ → ℤ
rand_range draw low high =
    if leb_ℤ high low
    then low
    else low +ℤ pos (draw (pos_part high + neg_part low - (pos_part low + neg_part high) + 1))

-- The bytes that the inner connection gave to a read, and how long the read slept.
abbrev pub Slept : Type 0
Slept = Conn × List ℤ

abbrev pub read_browsing : (ℕ → ℕ) → Conn → ℕ → Slept
read_browsing draw c n =
    if leb_ℤ c.config.burst_max_bytes (pos c.burst_bytes)
    then (
      record c { burst_bytes = n; total_read = c.total_read + n },
      rand_range draw c.config.pause_min_ms c.config.pause_max_ms ∷ [],
    )
    else (record c { burst_bytes = c.burst_bytes + n; total_read = c.total_read + n }, [])

-- `auto` stands for the profile that is measured.
abbrev pub measured_or : Profile → Profile → Profile
measured_or measured auto = measured
measured_or measured p = p

module _ (mostly_read : ℕ → ℕ → Bool) (stream_sleep : ℕ → ℤ → ℕ) where
  unfoldable pub get_profile : Conn → Profile
  get_profile c =
      let total = c.total_read + c.total_written in
      let measured : Profile =
        if ltb total 1024
        then idle
        else if mostly_read c.total_read total
        then streaming
        else browsing in
      measured_or measured c.config.profile

  -- A read that gets `n` bytes, by the profile.
  abbrev pub read_as : Profile → (ℕ → ℕ) → Conn → ℕ → Slept
  read_as browsing draw c n = read_browsing draw c n
  read_as streaming draw c n = (
    record c { total_read = c.total_read + n },
    if stream_sleep n c.config.rate_bytes_per_sec == 0
        then []
        else pos (stream_sleep n c.config.rate_bytes_per_sec) ∷ [],
  )
  read_as idle draw c n = (c, rand_range draw (pos 1000) (pos 5000) ∷ [])
  read_as _ draw c n = (c, [])

  unfoldable pub read : (ℕ → ℕ) → Conn → ℕ → Slept
  unfolding get_profile rand_range
  read draw c n = read_as (get_profile c) draw c n

  abbrev pub write_as : Profile → (ℕ → ℕ) → List ℤ
  write_as idle draw = rand_range draw (pos 500) (pos 2000) ∷ []
  write_as _ draw = []

  -- A write of `n` bytes; they are counted first.
  unfoldable pub write : (ℕ → ℕ) → Conn → ℕ → Slept
  unfolding get_profile rand_range
  write draw c n =
      let c' = record c { total_written = c.total_written + n } in
      (c', write_as (get_profile c') draw)
