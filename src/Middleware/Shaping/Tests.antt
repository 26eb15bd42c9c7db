-- ===== src/Middleware/Shaping/Tests.antt =====
-- internal/middleware/shaping/shaping.go at concrete inputs.
use nightveil.Prelude.{
  Bool, List, [], arith, false, length, pos, ℕ, ℤ, ◌*◌, ◌+◌, ◌∷◌, ◌≡◌, ◌≤◌, refl,
}
use nightveil.Middleware.Shaping.{Conn, Profile, auto, browsing}
use nightveil.Middleware.Shaping.Pacing.{
  reads, reads-idle, reads_browsing, reads_browsing-paced, sum,
}

abbrev conn : Profile → Conn
conn p = record {
  config = record {
    profile = p;
    burst_min_bytes = pos 1;
    burst_max_bytes = pos 100;
    pause_min_ms = pos 5;
    pause_max_ms = pos 9;
    rate_bytes_per_sec = pos 1000;
    auto_detect_window = pos 1;
  };
  total_read = 0;
  total_written = 0;
  burst_bytes = 0;
}

abbrev draw : ℕ → ℕ
draw n = 0

abbrev gets : List ((ℕ → ℕ) × ℕ)
gets = (draw, 50) ∷ (draw, 60) ∷ (draw, 10) ∷ []

abbrev never : ℕ → ℕ → Bool
never r total = false

abbrev no_sleep : ℕ → ℤ → ℕ
no_sleep n rate = 0

reads-idle_example :
    ((reads never no_sleep (conn auto) gets).0 ≡ conn auto)
    × (length (reads never no_sleep (conn auto) gets).1 ≡ 3)
reads-idle_example = reads-idle never no_sleep (conn auto) gets refl (omega arith)

reads_browsing-paced_example : sum gets ≤ length (reads_browsing (conn browsing) gets).1 * 160 + 160
reads_browsing-paced_example =
    reads_browsing-paced (conn browsing) 60 gets (omega arith, (omega arith, (omega arith, tt)))
      (omega arith)
