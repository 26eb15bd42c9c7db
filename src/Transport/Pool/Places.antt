-- ===== src/Transport/Pool/Places.antt =====
-- internal/transport/pool.go: the places where a connection may be, and the invariant of the pool.
use nightveil.Prelude.{
  All, List, [], arith, if◌then◌else◌, length, ltb, pos_part, suc, ℕ, ◌++◌, ◌+◌, ◌<◌, ◌==◌, ◌∷◌,
  ◌≡◌, ◌≤◌,
}
use nightveil.Transport.Pool.{Config, Pool, Refiller, System, dialling, holds, offer, rests}

-- How many of these connections have the number `id`.
abbrev pub times : ℕ → List ℕ → ℕ
times id [] = 0
times id (conn ∷ conns) = times id conns + (if conn == id then 1 else 0)

pub times-append :
    (id : ℕ) (before after : List ℕ) → times id (before ++ after) ≡ times id after + times id before
times-append id [] after = omega arith
times-append id (conn ∷ before) after = omega (arith, times-append id before after)

-- Each number is larger than those before it.
abbrev pub Increasing : List ℕ → Type 0
Increasing [] = Unit
Increasing (x ∷ xs) = All (λ y. x < y) xs × Increasing xs

pub All-snoc : (P : ℕ → Type 0) (xs : List ℕ) (n : ℕ) → All P xs → P n → All P (xs ++ n ∷ [])
All-snoc P [] n h k = (k, tt)
All-snoc P (x ∷ xs) n (h, hs) k = (h, All-snoc P xs n hs k)

pub Increasing-snoc :
    (xs : List ℕ) (n : ℕ) → Increasing xs → All (λ x. x < n) xs → Increasing (xs ++ n ∷ [])
Increasing-snoc [] n h b = (tt, tt)
Increasing-snoc (x ∷ xs) n (h, hs) (b, bs) =
    (All-snoc (λ y. x < y) xs n h b, Increasing-snoc xs n hs bs)

pub All-suc : (xs : List ℕ) (n : ℕ) → All (λ x. x < n) xs → All (λ x. x < suc n) xs
All-suc [] n h = tt
All-suc (x ∷ xs) n (h, hs) = (omega arith, All-suc xs n hs)

-- The connection that the refill has not offered yet.
abbrev pub held : Refiller → List ℕ
held rests = []
held dialling = []
held (holds id) = id ∷ []

-- The connections of the refill, in the order in which they come to the callers.
abbrev pub queue : System → List ℕ
queue s = s.pooled ++ (s.pool.waiting ++ held s.refiller)

-- How often a connection is at a caller, in the channel or with the refill.
abbrev pub places : ℕ → System → ℕ
places id s =
    times id s.direct + (times id s.pooled + (times id s.pool.waiting + times id (held s.refiller)))

-- What the refill has seen: room for one more.
abbrev pub HasRoom : Refiller → ℕ → ℕ → Type 0
HasRoom rests n size = Unit
HasRoom dialling n size = n < size
HasRoom (holds id) n size = n < size

pub HasRoom-less : (r : Refiller) (m n size : ℕ) → m ≤ n → HasRoom r n size → HasRoom r m size
HasRoom-less rests m n size h k = tt
HasRoom-less dialling m n size h k = omega arith
HasRoom-less (holds id) m n size h k = omega arith

pub record IsValid (c : Config) (s : System) : Type 0 where
  pub placed : (id : ℕ) → places id s ≡ (if ltb id s.pool.made then 1 else 0)
  pub order : Increasing (queue s)
  pub below : All (λ id. id < s.pool.made) (queue s)
  pub bounded : length s.pool.waiting ≤ pos_part c.size
  pub room : HasRoom s.refiller (length s.pool.waiting) (pos_part c.size)
  pub none_closed : s.pool.closed ≡ []
  pub config_eq : s.pool.config ≡ c

pub offer_lem :
    (p : Pool) (id : ℕ)
    → length p.waiting < pos_part p.config.size
    → offer p id ≡ record p { waiting = p.waiting ++ id ∷ [] }
unfolding offer
offer_lem p id h = ground arith
