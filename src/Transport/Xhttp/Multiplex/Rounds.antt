-- ===== src/Transport/Xhttp/Multiplex/Rounds.antt =====
-- internal/transport/xhttp/multiplex.go: a round of the loop of `Write` between its two channel
-- operations.
use nightveil.Prelude.{
  Bytes, arith, drop, length, refl, some, suc, take, ℕ, ◌+◌, ◌-◌, ◌<◌, ◌∷◌, ◌≡◌, ◌≤◌,
}
use nightveil.Transport.Xhttp.Multiplex.{
  Others, Semaphore, acquire, after_post, release, write_loop,
}

-- The channel holds a token; it has room for one.
abbrev pub HasToken : Semaphore → Type 0
HasToken s = (0 < s.tokens) × (s.tokens ≤ s.capacity)

abbrev pub HasRoom : Semaphore → Type 0
HasRoom s = s.tokens < s.capacity

-- What holds where nothing resizes the semaphore and other writes give back only what they took, and
-- some of them end: before each post a token comes free, and the place of the token that this write
-- holds during the post is not taken.
pub record IsSmooth (o : Others) : Type 0 where
  pub token : (seq : ℕ) (s : Semaphore) → HasToken s → HasToken (o.before seq s)
  pub room : (seq : ℕ) (s : Semaphore) → HasRoom s → HasRoom (o.during seq s)

-- A token is taken before a post and given back after it.
pub record Round (o : Others) (sem : Semaphore) (seq : ℕ) : Type 0 where
  pub taken : Semaphore
  pub back : Semaphore
  pub acquires : acquire (o.before seq sem) ≡ some taken
  pub releases : release (o.during seq taken) ≡ some back
  pub again : HasToken back

acquire-some : (s : Semaphore) → HasToken s → (t : Semaphore) × (acquire s ≡ some t) × HasRoom t
unfolding acquire
acquire-some s h = (record s { tokens = s.tokens - 1 }, ground arith, omega arith)

release-some : (s : Semaphore) → HasRoom s → (t : Semaphore) × (release s ≡ some t) × HasToken t
unfolding release
release-some s h = (record s { tokens = suc s.tokens }, ground arith, (omega arith, omega arith))

pub round_of :
    (o : Others) (sem : Semaphore) (seq : ℕ) → IsSmooth o → HasToken sem → Round o sem seq
round_of o sem seq smooth h =
    let (taken, acquires, room) = acquire-some (o.before seq sem) (smooth.token seq sem h) in
    let (back, releases, again) = release-some (o.during seq taken) (smooth.room seq taken room) in
    record { taken = taken; back = back; acquires = acquires; releases = releases; again = again }

pub write_loop_round :
    {o : Others} {sem : Semaphore} {seq : ℕ} (r : Round o sem seq) (size fuel written x : ℕ)
    (p : Bytes)
    → let chunk = take size (x ∷ p) in
      write_loop size (suc fuel) o sem seq written (x ∷ p)
      ≡ after_post
          (o.answer seq)
          (seq, chunk)
          written
          (write_loop size fuel o r.back (suc seq) (written + length chunk) (drop size (x ∷ p)))
unfolding write_loop
write_loop_round r size fuel written x p = rw (r.acquires, r.releases, write_loop) refl
