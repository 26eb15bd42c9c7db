-- ===== src/Transport/Xhttp/Multiplex/Resizing.antt =====
-- internal/transport/xhttp/multiplex.go: the semaphore between posts and changes of its size.
use nightveil.Prelude.{List, Option, [], arith, none, some, ℕ, ◌<◌, ◌≡◌, ◌≢◌, ◌≤◌, ◌∷◌, ◌-◌}
use nightveil.Transport.Xhttp.Multiplex.{Semaphore, acquire, new_semaphore, release, resize}

-- What happens to the semaphore; an operation that would block leaves it alone.
pub data Event : Type 0 where
  takes gives : Event
  resizes : ℕ → Event

abbrev or_same : Semaphore → Option Semaphore → Semaphore
or_same s none = s
or_same s (some s') = s'

unfoldable pub run : Semaphore → List Event → Semaphore
run s [] = s
run s (takes ∷ es) = run (or_same s (acquire s)) es
run s (gives ∷ es) = run (or_same s (release s)) es
run s (resizes n ∷ es) = run (resize s n) es

step_bounds :
    (s : Semaphore) (n : ℕ)
    → s.tokens ≤ s.capacity
    → ((or_same s (acquire s)).tokens ≤ (or_same s (acquire s)).capacity)
      × ((or_same s (release s)).tokens ≤ (or_same s (release s)).capacity)
      × ((resize s n).tokens ≤ (resize s n).capacity)
unfolding acquire release resize
step_bounds s n h = (ground arith, ground arith, ground arith)

-- In whatever order tokens are taken and given back and the size changes, the channel never holds
-- more tokens than its capacity.
pub run-bounded :
    (s : Semaphore) (es : List Event)
    → s.tokens ≤ s.capacity
    → (run s es).tokens ≤ (run s es).capacity
unfolding run
run-bounded s [] h = h
run-bounded s (takes ∷ es) h = run-bounded (or_same s (acquire s)) es (step_bounds s 0 h).0
run-bounded s (gives ∷ es) h = run-bounded (or_same s (release s)) es (step_bounds s 0 h).1
run-bounded s (resizes n ∷ es) h = run-bounded (resize s n) es (step_bounds s n h).2

-- A post that is under way while the size changes cannot give its token back: the new channel is
-- full from the start, and the write blocks.
pub release-resize :
    (initial target : ℕ)
    → 0 < initial
    → target ≢ initial
    → (s : Semaphore) × (acquire (new_semaphore initial) ≡ some s)
      × (release (resize s target) ≡ none)
unfolding acquire release resize new_semaphore
release-resize initial target h k =
    (record { capacity = initial; tokens = initial - 1 }, ground arith, ground arith)
