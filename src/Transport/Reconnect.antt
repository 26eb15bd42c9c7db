-- ===== src/Transport/Reconnect.antt =====
-- internal/transport/reconnect.go: a dial that is tried again with growing delays. A delay is a
-- number of nanoseconds; what the product of a delay and the floating-point `BackoffFactor` is as a
-- `Duration`, is the function `scale`.
pub mod Ends
pub mod Tests
use nightveil.Prelude.{
  Bool, List, Option, [], false, if◌then◌else◌, leb, leb_ℤ, ltb, none, pos, pos_part, some, suc,
  true, zero, ℕ, ℤ, ◌&&◌, ◌∷◌, ◌*◌,
}

-- `ReconnectConfig` without the factor.
pub record Config : Type 0 where
  pub max_retries : ℤ
  pub initial_delay : ℤ
  pub max_delay : ℤ

abbrev or_default : ℤ → ℕ → ℤ
or_default n d = if leb_ℤ n (pos 0) then pos d else n

unfoldable pub defaults : Config → Config
defaults c = record c {
  initial_delay = or_default c.initial_delay 1_000_000_000;
  max_delay = or_default c.max_delay 30_000_000_000;
}

-- What a round of the loop in `Dial` meets: whether the transport is closed when the round begins,
-- whether the inner dial gives a connection, and whether the context ends during the wait.
pub record Round : Type 0 where
  pub closed : Bool
  pub connects : Bool
  pub cancelled : Bool

-- What `Dial` returns: the connection of the inner dial with this number, or an error.
pub data DialResult : Type 0 where
  connected : ℕ → DialResult
  closed_before gave_up context_done : ℕ → DialResult

abbrev pub next_delay : (ℕ → ℕ) → ℕ → ℕ → ℕ
next_delay scale max_delay delay =
    let grown = scale delay in if ltb max_delay grown then max_delay else grown

-- How the loop ended: its result, how often it dialled the inner transport, and the delays that it
-- waited for to the end.
pub record Dialled : Type 0 where
  pub result : DialResult
  pub dials : ℕ
  pub waits : List ℕ

-- A round that dials and waits before the others.
abbrev pub add_wait : ℕ → Option Dialled → Option Dialled
add_wait delay none = none
add_wait delay (some d) = some (record d { dials = suc d.dials; waits = delay ∷ d.waits })

-- `MaxRetries > 0 && attempt >= MaxRetries`
abbrev pub is_last : ℤ → ℕ → Bool
is_last max_retries attempt = ltb 0 (pos_part max_retries) && leb (pos_part max_retries) attempt

-- The end of the loop in a round, before or after its dial.
abbrev pub ends : DialResult → ℕ → Option Dialled
ends r dials = some (record { result = r; dials = dials; waits = [] })

-- The loop; `none` where the fuel is used up before it ends.
unfoldable pub dial_loop : (ℕ → ℕ) → Config → (ℕ → Round) → ℕ → ℕ → ℕ → Option Dialled
dial_loop scale c rounds zero attempt delay = none
dial_loop scale c rounds (suc fuel) attempt delay =
    let r = rounds attempt in
    let rest =
      dial_loop scale c rounds fuel (suc attempt) (next_delay scale (pos_part c.max_delay) delay) in
    if r.closed
    then ends (closed_before attempt) 0
    else if r.connects
    then ends (connected attempt) 1
    else if is_last c.max_retries (suc attempt)
    then ends (gave_up attempt) 1
    else if r.cancelled
    then ends (context_done attempt) 1
    else add_wait delay rest

-- `Dial`, of a transport that `NewReconnectingTransport` made.
unfoldable pub dial : (ℕ → ℕ) → Config → (ℕ → Round) → ℕ → Option Dialled
unfolding defaults dial_loop
dial scale c rounds fuel =
    let d = defaults c in dial_loop scale d rounds fuel 0 (pos_part d.initial_delay)
