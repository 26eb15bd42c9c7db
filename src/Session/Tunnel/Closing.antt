-- ===== src/Session/Tunnel/Closing.antt =====
-- internal/session/manager.go: what `Close` leaves behind.
use nightveil.Prelude.{ℕ, ◌≡◌, none, Option, ℤ, false, Bytes, true, some, ◌≢◌, arith}
use nightveil.Session.Error.{session_closed}
use nightveil.Session.Download
use nightveil.Session.Tunnel.{
  Session, Pipe, open_pipe, push_upload, read_upload, ended, wait_connected, close,
  ensure_stream_pipe,
}

-- No end of a pipe that the session has is open.
abbrev pub IsShut : Option Pipe → Type 0
IsShut none = Unit
IsShut (some p) = (p.writer_closed ≡ true) × (p.reader_closed ≡ true)

-- Closing an open session ends its upload and its download and shuts the stream pipe that it has:
-- pushes are ignored, a read ends at once, writes of download data fail, nobody who waits for the
-- connection goes on waiting, a reader of the download is signalled, and a second `Close` changes
-- nothing.
pub close_lem :
    (grow : ℕ → ℕ → ℕ) (s : Session) (k : ℤ) (b : Bytes)
    → s.closed ≡ false
    → let t = close s in
      (push_upload t k b ≡ some t)
      × (read_upload t ≡ (t, ended))
      × (Download.write grow t.download b ≡ (t.download, 0, some session_closed))
      × (t.download.notify ≡ true)
      × (wait_connected t ≢ none)
      × IsShut t.stream_pipe
      × (close t ≡ t)
unfolding close push_upload read_upload wait_connected Download.write Download.close
close_lem grow s k b h = (
  ground arith,
  ground arith,
  ground arith,
  ground arith,
  ground arith,
  ground arith,
  ground arith,
)

-- Where no pipe was made before `Close`, a handler that asks for one afterwards is handed an open
-- pipe, and no later `Close` shuts it.
pub ensure_stream_pipe-close :
    (s : Session)
    → s.closed ≡ false
    → s.stream_pipe ≡ none
    → let t = ensure_stream_pipe (close s) in
      (t.closed ≡ true) × (t.stream_pipe ≡ some open_pipe) × (close t ≡ t)
unfolding close ensure_stream_pipe
ensure_stream_pipe-close s h e = ground arith
