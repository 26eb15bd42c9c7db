-- ===== src/Transport/Reconnect/Ends.antt =====
-- internal/transport/reconnect.go: when the dial ends, and with what.
use nightveil.Prelude.{
  All, Bool, Option, [], arith, false, length, max, pos, pos_part, refl, some, suc, true, zero, ℕ,
  ◌+◌, ◌<◌, ◌≡◌, ◌≤◌, if◌then◌else◌, ap, ◌∙◌, ◌∷◌,
}
use nightveil.Transport.Reconnect.{
  Config, DialResult, Round, connected, closed_before, gave_up, context_done, defaults, dial,
  dial_loop, is_last, next_delay, add_wait, Dialled, ends,
}

-- The number of the inner dial at which a result stands.
abbrev pub attempt_of : DialResult → ℕ
attempt_of (connected k) = k
attempt_of (closed_before k) = k
attempt_of (gave_up k) = k
attempt_of (context_done k) = k

-- The dial of the round in which the loop ended, which is not made on a closed transport.
abbrev pub last_dial : DialResult → ℕ
last_dial (connected k) = 1
last_dial (closed_before k) = 0
last_dial (gave_up k) = 1
last_dial (context_done k) = 1

-- The loop ended with a result in the next `left` attempts: one dial for each wait, and one more but
-- on a closed transport, no more than `left` in all; and waits of at most `bound`.
pub record Ended (attempt left bound : ℕ) (r : Option Dialled) : Type 0 where
  pub dialled : Dialled
  pub outcome : r ≡ some dialled
  pub few_dials : dialled.dials ≤ left
  pub dials_waits : dialled.dials ≡ length dialled.waits + last_dial dialled.result
  pub attempts : attempt_of dialled.result ≡ attempt + length dialled.waits
  pub few_waits : length dialled.waits < left
  pub short : All (λ d. d ≤ bound) dialled.waits

at_once :
    (attempt left bound n : ℕ) (r : DialResult)
    → attempt_of r ≡ attempt
    → n ≡ last_dial r
    → n ≤ 1
    → 0 < left
    → Ended attempt left bound (ends r n)
at_once attempt left bound n r e d o h = record {
  dialled = record { result = r; dials = n; waits = [] };
  outcome = refl;
  few_dials = omega arith;
  dials_waits = omega (arith, d);
  attempts = omega (arith, e);
  few_waits = omega arith;
  short = tt;
}

if-Ended :
    (attempt left bound : ℕ) (b : Bool) {x y : Option Dialled}
    → (b ≡ true → Ended attempt left bound x)
    → (b ≡ false → Ended attempt left bound y)
    → Ended attempt left bound (if b then x else y)
if-Ended attempt left bound true f g = f refl
if-Ended attempt left bound false f g = g refl

-- A round after which the loop goes on, unless it was the last.
abbrev pub Fails : Round → Type 0
Fails r = (r.closed ≡ false) × (r.connects ≡ false) × (r.cancelled ≡ false)

module _ (scale : ℕ → ℕ) (c : Config) (rounds : ℕ → Round) where
  next_delay_le :
      (bound delay : ℕ)
      → pos_part c.max_delay ≤ bound
      → next_delay scale (pos_part c.max_delay) delay ≤ bound
  next_delay_le bound delay h = ground arith

  -- A wait before an outcome.
  later-Ended :
      (attempt left bound delay : ℕ) (r : Option Dialled)
      → delay ≤ bound
      → Ended (suc attempt) left bound r
      → Ended attempt (suc left) bound (add_wait delay r)
  later-Ended attempt left bound delay r h e =
      let d = e.dialled in
      rw (e.outcome) (record {
        dialled = record d { dials = suc d.dials; waits = delay ∷ d.waits };
        outcome = refl;
        few_dials = omega (arith, e.few_dials);
        dials_waits = omega (arith, e.dials_waits);
        attempts = omega (arith, e.attempts);
        few_waits = omega (arith, e.few_waits);
        short = (h, e.short);
      })

  -- The last attempt that is allowed is recognised.
  is_last_lem :
      (attempt fuel : ℕ)
      → attempt + suc fuel ≡ pos_part c.max_retries
      → is_last c.max_retries (suc attempt) ≡ false
      → 0 < fuel
  is_last_lem attempt fuel h k = ground arith

  dial_loop-Ended :
      (fuel attempt delay bound : ℕ)
      → attempt + fuel ≡ pos_part c.max_retries
      → 0 < fuel
      → delay ≤ bound
      → pos_part c.max_delay ≤ bound
      → Ended attempt fuel bound (dial_loop scale c rounds fuel attempt delay)
  unfolding dial_loop
  dial_loop-Ended zero attempt delay bound h z k l = absurd (omega arith)
  dial_loop-Ended (suc fuel) attempt delay bound h z k l =
      let next = next_delay scale (pos_part c.max_delay) delay in
      let left = suc fuel in
      if-Ended attempt left bound (rounds attempt).closed
        (λ _. at_once attempt left bound 0 (closed_before attempt) refl refl (omega arith) z)
        (λ _.
          if-Ended attempt left bound (rounds attempt).connects
            (λ _. at_once attempt left bound 1 (connected attempt) refl refl (omega arith) z)
            (λ _.
              if-Ended attempt left bound (is_last c.max_retries (suc attempt))
                (λ _. at_once attempt left bound 1 (gave_up attempt) refl refl (omega arith) z)
                (λ more.
                  if-Ended attempt left bound (rounds attempt).cancelled
                    (λ _.
                      at_once attempt left bound 1 (context_done attempt) refl refl (omega arith) z)
                    (λ _. later-Ended attempt fuel bound delay _ k (
                      dial_loop-Ended fuel (suc attempt) next bound (omega arith)
                        (is_last_lem attempt fuel h more) (next_delay_le bound delay l) l)))))

  -- One round that fails and is not the last.
  goes_on :
      (attempt delay n : ℕ) (r : Dialled)
      → Fails (rounds attempt)
      → is_last c.max_retries (suc attempt) ≡ false
      → dial_loop scale c rounds n (suc attempt) (next_delay scale (pos_part c.max_delay) delay)
        ≡ some r
      → dial_loop scale c rounds (suc n) attempt delay ≡ add_wait delay (some r)
  unfolding dial_loop
  goes_on attempt delay n r (a, b, d) more rest = rw (a, b, more, d, rest) refl

  dial_loop-connects :
      (n attempt delay : ℕ)
      → ((j : ℕ) → j < n → Fails (rounds (attempt + j)))
      → (rounds (attempt + n)).closed ≡ false
      → (rounds (attempt + n)).connects ≡ true
      → is_last c.max_retries (attempt + n) ≡ false
      → (d : Dialled) × (dial_loop scale c rounds (suc n) attempt delay ≡ some d)
        × (d.result ≡ connected (attempt + n))
  unfolding dial_loop
  dial_loop-connects zero attempt delay f o k l =
      let e : attempt ≡ attempt + 0 = omega arith in
      (
        record { result = connected attempt; dials = 1; waits = [] },
        rw (ap (λ j. (rounds j).closed) e ∙ o, ap (λ j. (rounds j).connects) e ∙ k) refl,
        ap (λ j. connected j) e,
      )
  dial_loop-connects (suc n) attempt delay f o k l =
      let e : suc attempt + n ≡ attempt + suc n = omega arith in
      let z : attempt ≡ attempt + 0 = omega arith in
      let fails : Fails (rounds attempt) = rw z (f 0 (omega arith)) in
      let more : is_last c.max_retries (suc attempt) ≡ false = ground arith in
      let (d, rest, same) =
        dial_loop-connects n (suc attempt) (next_delay scale (pos_part c.max_delay) delay)
          (λ j b.
            let g : suc attempt + j ≡ attempt + suc j = omega arith in
            rw g (f (suc j) (omega arith)))
          (ap (λ j. (rounds j).closed) e ∙ o) (ap (λ j. (rounds j).connects) e ∙ k)
          (ap (λ j. is_last c.max_retries j) e ∙ l) in
      (
        record d { dials = suc d.dials; waits = delay ∷ d.waits },
        goes_on attempt delay (suc n) d fails more rest,
        same ∙ ap (λ j. connected j) e,
      )

-- With a limit on the retries the dial ends, with at most so many inner dials and fewer waits. Each
-- wait follows one inner dial, and a last dial follows the waits, but where the transport is found
-- closed. No wait is longer than the larger one of the first delay and the longest.
pub dial-Ended :
    (scale : ℕ → ℕ) (c : Config) (rounds : ℕ → Round) (n : ℕ)
    → c.max_retries ≡ pos (suc n)
    → let d = defaults c in
      Ended 0
        (suc n)
        (max (pos_part d.initial_delay) (pos_part d.max_delay))
        (dial scale c rounds (suc n))
unfolding dial defaults
dial-Ended scale c rounds n h =
    let d = defaults c in
    dial_loop-Ended scale d rounds (suc n) 0 (pos_part d.initial_delay)
      (max (pos_part d.initial_delay) (pos_part d.max_delay)) (ground arith) (omega arith)
      (omega arith) (omega arith)

-- If the inner dial works for the first time after `n` rounds that only fail, and `n` is below the
-- limit on the retries where there is one, `Dial` returns that connection.
pub dial-connects :
    (scale : ℕ → ℕ) (c : Config) (rounds : ℕ → Round) (n : ℕ)
    → ((j : ℕ) → j < n → Fails (rounds j))
    → (rounds n).closed ≡ false
    → (rounds n).connects ≡ true
    → is_last c.max_retries n ≡ false
    → (d : Dialled) × (dial scale c rounds (suc n) ≡ some d) × (d.result ≡ connected n)
unfolding dial defaults
dial-connects scale c rounds n f o k l =
    let d = defaults c in
    let zero_plus : (j : ℕ) → 0 + j ≡ j = λ j. omega arith in
    let (r, e, same) =
      dial_loop-connects scale d rounds n 0 (pos_part d.initial_delay)
        (λ j b. rw (zero_plus j) (f j b)) (rw (zero_plus n) o) (rw (zero_plus n) k)
        (rw (zero_plus n) l) in
    (r, e, same ∙ ap (λ j. connected j) (zero_plus n))
