-- ===== src/Transport/Xhttp/RateLimit.antt =====
-- internal/transport/xhttp/ratelimit.go: how many requests an address may make. Times are
-- nanoseconds on a clock that is an argument. The map `clients` is an association list; the cleanup
-- visits each entry once.
pub mod Window
pub mod Tests
use nightveil.Prelude.{
  Bool, Bytes, List, Option, [], false, if◌then◌else◌, leb_ℤ, ltb, none, pos, some, true, ℕ, ℤ,
  ◌&&◌, ◌*◌, ◌+◌, ◌-◌, ◌==◌, ◌||◌, ◌∷◌,
}

-- `clientRate`
pub record ClientRate : Type 0 where
  pub count : ℕ
  pub window_at : ℕ

-- `RateLimiter` with a rate above zero: below that, or where there is none, everything is allowed.
pub record RateLimiter : Type 0 where
  pub clients : List (Bytes × ClientRate)
  pub max_rate : ℤ
  pub window : ℕ

unfoldable pub new_rate_limiter : ℤ → ℕ → RateLimiter
new_rate_limiter max_per_window window = record {
  clients = [];
  max_rate = max_per_window;
  window = window;
}

abbrev pub same_bytes : Bytes → Bytes → Bool
same_bytes [] [] = true
same_bytes [] (y ∷ ys) = false
same_bytes (x ∷ xs) [] = false
same_bytes (x ∷ xs) (y ∷ ys) = x == y && same_bytes xs ys

-- The remote address up to its last colon, or all of it if there is none.
unfoldable pub has_colon : Bytes → Bool
has_colon [] = false
has_colon (c ∷ s) = c == b':' || has_colon s

unfoldable pub strip_port : Bytes → Bytes
unfolding has_colon
strip_port [] = []
strip_port (c ∷ s) =
    let rest = strip_port s in if has_colon s then c ∷ rest else if c == b':' then [] else c ∷ rest

unfoldable pub lookup : Bytes → List (Bytes × ClientRate) → Option ClientRate
lookup ip [] = none
lookup ip ((k, r) ∷ m) = let rest = lookup ip m in if same_bytes ip k then some r else rest

unfoldable pub insert : Bytes → ClientRate → List (Bytes × ClientRate) → List (Bytes × ClientRate)
insert ip r [] = (ip, r) ∷ []
insert ip r ((k, q) ∷ m) =
    let rest = insert ip r m in if same_bytes ip k then (ip, r) ∷ m else (k, q) ∷ rest

-- What `Allow` makes of the entry for an address, with the verdict.
unfoldable pub admit : ℤ → ℕ → ℕ → Option ClientRate → ClientRate × Bool
admit max_rate window now none = (record { count = 1; window_at = now }, true)
admit max_rate window now (some r) =
    if ltb window (now - r.window_at)
    then (record { count = 1; window_at = now }, true)
    else (record r { count = r.count + 1 }, leb_ℤ (pos (r.count + 1)) max_rate)

unfoldable pub allow : RateLimiter → ℕ → Bytes → RateLimiter × Bool
allow rl now remote =
    let ip = strip_port remote in
    let (r, verdict) = admit rl.max_rate rl.window now (lookup ip rl.clients) in
    if leb_ℤ rl.max_rate (pos 0)
    then (rl, true)
    else (record rl { clients = insert ip r rl.clients }, verdict)

-- One tick of the cleanup.
unfoldable pub keep_recent : ℕ → ℕ → List (Bytes × ClientRate) → List (Bytes × ClientRate)
keep_recent window now [] = []
keep_recent window now ((k, r) ∷ m) =
    let rest = keep_recent window now m in
    if ltb (window * 2) (now - r.window_at) then rest else (k, r) ∷ rest

unfoldable pub cleanup : RateLimiter → ℕ → RateLimiter
cleanup rl now = record rl { clients = keep_recent rl.window now rl.clients }
