-- ===== src/Transport/Xhttp/Accept.antt =====
-- internal/transport/xhttp/server.go: which sessions the server hands out, with `Accept`, `tryEmit`
-- and the parts of the handlers that lead there. `acceptCh` is the list of the sessions that wait in
-- it, by identifier; a session here is its identifier and its flags `HasDownload` and `Accepted`.
pub mod Once
pub mod Tests
use nightveil.Prelude.{
  Bool, List, Option, [], if◌then◌else◌, length, ltb, none, not, some, true, ℕ, ◌++◌, ◌∷◌,
}

abbrev pub accept_size : ℕ
accept_size = 64

pub record Emission : Type 0 where
  pub id : ℕ
  pub has_upload : Bool
  pub has_download : Bool
  pub accepted : Bool

-- The session, and the channel.
abbrev pub State : Type 0
State = Emission × List ℕ

unfoldable pub try_emit : State → State
try_emit (s, ch) =
    if not s.has_download
    then (s, ch)
    else if s.accepted
    then (s, ch)
    else (record s { accepted = true }, if ltb (length ch) accept_size then ch ++ s.id ∷ [] else ch)

-- What `handleUpload` and `handleUploadStream` do once the session is there.
unfoldable pub handle_upload : State → State
unfolding try_emit
handle_upload (s, ch) = try_emit (record s { has_upload = true }, ch)

-- What `handleDownload` does before it streams.
unfoldable pub handle_download : State → State
unfolding try_emit
handle_download (s, ch) = try_emit (record s { has_download = true }, ch)

-- `Accept` where something waits.
unfoldable pub accept : List ℕ → Option (ℕ × List ℕ)
accept [] = none
accept (id ∷ ch) = some (id, ch)

pub data Request : Type 0 where
  upload download : Request

-- A request of the session, or `Accept`.
pub data Event : Type 0 where
  requests : Request → Event
  accepts : Event

abbrev pub handle : Request → State → State
handle upload st = handle_upload st
handle download st = handle_download st

-- The state after the events, and what `Accept` returned.
unfoldable pub run : State → List Event → State × List ℕ
run st [] = (st, [])
run st (requests r ∷ es) = run (handle r st) es
run (s, ch) (accepts ∷ es) = elim (accept ch) [
  | none ↦ run (s, ch) es
  | some (id, rest) ↦ let (st, ids) = run (s, rest) es in (st, id ∷ ids)
]
