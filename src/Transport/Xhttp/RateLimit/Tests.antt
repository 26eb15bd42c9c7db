-- ===== src/Transport/Xhttp/RateLimit/Tests.antt =====
-- The limiter at concrete inputs.
use nightveil.Prelude.{Bytes, List, [], arith, codes, min, pos, refl, ℕ, ◌∷◌, ◌≡◌}
use nightveil.Transport.Xhttp.RateLimit.{
  RateLimiter, new_rate_limiter, strip_port, lookup, has_colon,
}
use nightveil.Transport.Xhttp.RateLimit.Window.{allowed, made, allow-count}

abbrev limiter : RateLimiter
limiter = new_rate_limiter (pos 2) 1000

abbrev home : Bytes
home = codes "10.0.0.1"

abbrev requests : List (ℕ × Bytes)
requests = (60, codes "10.0.0.2:9") ∷ (70, codes "10.0.0.1:5001") ∷ (80, codes "10.0.0.1:5002") ∷ []

allow-count_example :
    allowed home limiter ((50, codes "10.0.0.1:5000") ∷ requests)
    ≡ min (made home ((50, codes "10.0.0.1:5000") ∷ requests)) 2
unfolding new_rate_limiter strip_port lookup has_colon
allow-count_example =
    allow-count home 1 limiter 50 (codes "10.0.0.1:5000") requests refl refl refl
      ((λ e. omega arith), ((λ e. omega arith), ((λ e. omega arith), tt)))
