-- ===== src/Session/Tunnel.antt =====
-- internal/session/manager.go, the type `Session` and its methods. Each method is one critical
-- section or a row of them; one that changes `*s` returns the new session. An identifier, 16 bytes
-- in the source, is a number; the clock is an argument.
pub mod Upload
pub mod Drain
pub mod Closing
pub mod Tests
use nightveil.Prelude.{
  ℕ, suc, Bool, true, false, List, [], ◌∷◌, ◌++◌, Option, none, some, Bytes, ℤ, pos, if◌then◌else◌,
}
use nightveil.Session.Download
use nightveil.Session.Download.{Buffer}
use nightveil.Session.Chunks
use nightveil.Session.Chunks.{Chunks}

-- Which ends of an `io.Pipe` are closed.
pub record Pipe : Type 0 where
  pub writer_closed : Bool
  pub reader_closed : Bool

abbrev pub open_pipe : Pipe
open_pipe = record { writer_closed = false; reader_closed = false }

-- `Session`. A nil map and a nil pipe are `none`. `connOnce` and `closeOnce` are the flags of the
-- channels that they close.
pub record Session : Type 0 where
  pub id : ℕ
  pub created_at : ℕ
  pub upload_buf : Option Chunks
  pub next_seq : ℕ
  pub upload_done : Bool
  pub stream_pipe : Option Pipe
  pub stream_mode : Bool
  pub download : Buffer
  pub has_upload : Bool
  pub has_download : Bool
  pub accepted : Bool
  pub connected : Bool
  pub closed : Bool

unfoldable pub new_session : ℕ → ℕ → ℤ → Session
new_session id now bytes = record {
  id = id;
  created_at = now;
  upload_buf = some [];
  next_seq = 0;
  upload_done = false;
  stream_pipe = none;
  stream_mode = false;
  download = Download.new_sized bytes;
  has_upload = false;
  has_download = false;
  accepted = false;
  connected = false;
  closed = false;
}

-- `none` is the panic of a write to the nil map.
unfoldable pub push_upload : Session → ℤ → Bytes → Option Session
push_upload s seq payload = if s.upload_done then some s else elim s.upload_buf [
  | none ↦ none
  | some m ↦ some (record s { upload_buf = some (Chunks.insert seq payload m) })
]

-- What one round of the loop in `ReadUpload` does: return a chunk, return `false`, or wait.
pub data Outcome : Type 0 where
  chunk : Bytes → Outcome
  ended : Outcome
  blocked : Outcome

-- A read of the nil map finds nothing.
abbrev pub pending : Option Chunks → ℕ → Option Bytes
pending none k = none
pending (some m) k = Chunks.lookup (pos k) m

abbrev pub without : Option Chunks → ℕ → Option Chunks
without none k = none
without (some m) k = some (Chunks.delete (pos k) m)

unfoldable pub read_upload : Session → Session × Outcome
read_upload s =
    if s.stream_mode
    then (s, ended)
    else if s.upload_done
    then (s, ended)
    else elim (pending s.upload_buf s.next_seq) [
      | some payload ↦ (
        record s { upload_buf = without s.upload_buf s.next_seq; next_seq = suc s.next_seq },
        chunk payload,
      )
      | none ↦ (s, blocked)
    ]

unfoldable pub mark_connected : Session → Session
mark_connected s = record s { connected = true }

-- What `WaitConnected` can return at once; `none` where it goes on waiting. Where both channels
-- are closed the `select` may choose either.
unfoldable pub wait_connected : Session → Option (List Bool)
wait_connected s =
    let ready = (if s.connected then true ∷ [] else []) ++ (if s.closed then false ∷ [] else []) in
    if s.connected then some ready else if s.closed then some ready else none

-- The section of `Close` under `uploadMu`.
unfoldable pub end_upload : Session → Session
end_upload s = record s { upload_done = true; upload_buf = none }

-- The section of `Close` under `streamMu`.
unfoldable pub close_pipe : Session → Session
close_pipe s = elim s.stream_pipe [
  | none ↦ s
  | some p ↦ record s { stream_pipe = some (record { writer_closed = true; reader_closed = true }) }
]

unfoldable pub close : Session → Session
unfolding end_upload close_pipe
close s =
    let signalled = record s { closed = true } in
    let ended_ = close_pipe (end_upload signalled) in
    if s.closed then s else record ended_ { download = Download.close ended_.download }

unfoldable pub ensure_stream_pipe : Session → Session
ensure_stream_pipe s = elim s.stream_pipe [
  | none ↦ record s { stream_pipe = some open_pipe; stream_mode = true }
  | some p ↦ s
]

-- `StreamUploadWriter` and `StreamReader`: the session, and the pipe whose end they return.
unfoldable pub stream_upload_writer : Session → Session × Option Pipe
unfolding ensure_stream_pipe
stream_upload_writer s = let s' = ensure_stream_pipe s in (s', s'.stream_pipe)

unfoldable pub stream_reader : Session → Session × Option Pipe
unfolding ensure_stream_pipe
stream_reader s = let s' = ensure_stream_pipe s in (s', s'.stream_pipe)

unfoldable pub close_stream_upload : Session → Session
close_stream_upload s = elim s.stream_pipe [
  | none ↦ s
  | some p ↦ record s { stream_pipe = some (record p { writer_closed = true }) }
]
