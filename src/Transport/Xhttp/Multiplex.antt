-- ===== src/Transport/Xhttp/Multiplex.antt =====
-- internal/transport/xhttp/multiplex.go: a writer that posts one chunk after the other, and the
-- semaphore whose size follows the adaptive controller.
pub mod Posting
pub mod Resizing
pub mod Rounds
pub mod Tests
use nightveil.Prelude.{
  Bool, Bytes, List, Option, [], drop, if◌then◌else◌, length, ltb, min, negsuc, none, pos, some,
  suc, take, zero, ℕ, ℤ, ◌+◌, ◌-◌, ◌==◌, ◌∷◌,
}
use nightveil.Transport.Xhttp.Client.{Post}

-- A buffered channel of tokens.
pub record Semaphore : Type 0 where
  pub capacity : ℕ
  pub tokens : ℕ

-- `NewMultiplexedWriter`: `initial` is 1 without a controller.
unfoldable pub new_semaphore : ℕ → Semaphore
new_semaphore initial = record { capacity = initial; tokens = initial }

-- `<-mw.sem` and `mw.sem <- struct{}{}`; `none` is a channel operation that blocks.
unfoldable pub acquire : Semaphore → Option Semaphore
acquire s = if s.tokens == 0 then none else some (record s { tokens = s.tokens - 1 })

unfoldable pub release : Semaphore → Option Semaphore
release s = if ltb s.tokens s.capacity then some (record s { tokens = suc s.tokens }) else none

-- What `Write` did: its posts, the count that it returns, and its error.
pub record Written : Type 0 where
  pub posts : List Post
  pub count : ℕ
  pub error : Option ℕ

-- A slice with its end before its start is a panic. `Write` blocks for good, after these posts, where
-- it waits for a token that does not come, or for room that does not come for its own.
pub data Outcome : Type 0 where
  returns : Written → Outcome
  slice_panic : Outcome
  blocks : List Post → Outcome
  runs_on : Outcome

abbrev pub add_post : Post → Outcome → Outcome
add_post p (returns w) = returns (record w { posts = p ∷ w.posts })
add_post p slice_panic = slice_panic
add_post p (blocks posts) = blocks (p ∷ posts)
add_post p runs_on = runs_on

-- What `Write` makes of the answer to a post: it returns, or goes on.
abbrev pub after_post : Option ℕ → Post → ℕ → Outcome → Outcome
after_post none p written rest = add_post p rest
after_post (some e) p written rest =
    returns (record { posts = p ∷ []; count = written; error = some e })

-- What meets a `Write`, by the number of a post: the answer to it, and what other writes and resizes
-- make of the semaphore, up to the time when the token for the post is taken, and during the post.
pub record Others : Type 0 where
  pub answer : ℕ → Option ℕ
  pub before : ℕ → Semaphore → Semaphore
  pub during : ℕ → Semaphore → Semaphore

-- The loop of `Write`: the size of a chunk, the fuel, the semaphore, the next number, how much is
-- written, and the bytes that are left.
unfoldable pub write_loop : ℕ → ℕ → Others → Semaphore → ℕ → ℕ → Bytes → Outcome
write_loop size fuel o sem seq written [] =
    returns (record { posts = []; count = written; error = none })
write_loop size zero o sem seq written (x ∷ p) = runs_on
write_loop size (suc fuel) o sem seq written (x ∷ p) =
    let chunk = take size (x ∷ p) in
    elim (acquire (o.before seq sem)) [
      | none ↦ blocks []
      | some taken ↦ elim (release (o.during seq taken)) [
        | none ↦ blocks ((seq, chunk) ∷ [])
        | some back ↦
            after_post (o.answer seq) (seq, chunk) written
              (write_loop size fuel o back (suc seq) (written + length chunk) (drop size (x ∷ p)))
      ]
    ]

-- `Write`, with the configuration's `MaxChunkSize` as it stands.
unfoldable pub write : ℤ → ℕ → Others → Semaphore → ℕ → Bytes → Outcome
unfolding write_loop
write (pos size) fuel o sem seq p = write_loop size fuel o sem seq 0 p
write (negsuc n) fuel o sem seq [] = returns (record { posts = []; count = 0; error = none })
write (negsuc n) fuel o sem seq (x ∷ p) = slice_panic

-- `resize`: the first loop fills to the smaller number, the second adds what it grows by.
unfoldable pub resize : Semaphore → ℕ → Semaphore
resize s target =
    if target == s.capacity
    then s
    else record { capacity = target; tokens = min target s.capacity + (target - s.capacity) }
