-- ===== src/Transport/Xhttp/Conn.antt =====
-- internal/transport/xhttp/conn.go: the server's end of a session as a connection. The pipe of the
-- stream mode is read by package io: what it gives is an argument.
pub mod Lossless
pub mod Tests
use nightveil.Prelude.{
  Bytes, List, Option, [], drop, if◌then◌else◌, length, ltb, none, some, take, ℕ, ◌++◌, ◌∷◌,
}
use nightveil.Session.Error.{Error}
use nightveil.Session.Download
use nightveil.Session.Tunnel
use nightveil.Session.Tunnel.{Session, Outcome, chunk, ended, blocked, read_upload}

-- `splitConn`. Its addresses play no part.
pub record SplitConn : Type 0 where
  pub sess : Session
  pub leftover : Bytes

unfoldable pub new_split_conn : Session → SplitConn
new_split_conn s = record { sess = s; leftover = [] }

pub data PipeError : Type 0 where
  eof closed_pipe : PipeError
  other_error : ℕ → PipeError

pub data ConnError : Type 0 where
  session_closed : ConnError
  pipe_error : PipeError → ConnError

-- `readStream`: the error that it makes of the pipe's.
unfoldable pub read_stream : Bytes × Option PipeError → Bytes × Option ConnError
read_stream (bytes, none) = (bytes, none)
read_stream (bytes, some eof) = (bytes, some session_closed)
read_stream (bytes, some closed_pipe) = (bytes, some session_closed)
read_stream (bytes, some (other_error n)) = (bytes, some (pipe_error (other_error n)))

-- What a `Read` returns, or that it waits for an upload.
pub data Reading : Type 0 where
  got : Bytes → Reading
  streamed : Bytes × Option ConnError → Reading
  closed : Reading
  waits : Reading

-- After `ReadUpload` returned: `fed` is what the pipe would give. `leftover` is
-- empty at the call.
unfoldable pub deliver : ℕ → Bytes × Option PipeError → Session × Outcome → SplitConn × Reading
deliver room fed (s, chunk payload) =
    (record { sess = s; leftover = drop room payload }, got (take room payload))
deliver room fed (s, ended) = (
  record { sess = s; leftover = [] },
  if s.stream_mode then streamed (read_stream fed) else closed,
)
deliver room fed (s, blocked) = (record { sess = s; leftover = [] }, waits)

-- `Read` into a slice of `room` bytes.
unfoldable pub read : SplitConn → ℕ → Bytes × Option PipeError → SplitConn × Reading
unfolding deliver
read c room fed =
    if c.sess.stream_mode
    then (c, streamed (read_stream fed))
    else if ltb 0 (length c.leftover)
    then (record c { leftover = drop room c.leftover }, got (take room c.leftover))
    else deliver room fed (read_upload c.sess)

unfoldable pub write : (ℕ → ℕ → ℕ) → SplitConn → Bytes → SplitConn × ℕ × Option Error
write grow c p =
    let (db, n, e) = Download.write grow c.sess.download p in
    (record c { sess = record c.sess { download = db } }, n, e)

unfoldable pub close : SplitConn → SplitConn
close c = record c { sess = Tunnel.close c.sess }

-- Reads of these sizes: the connection after them, and the bytes that they return from uploads.
unfoldable pub reads : SplitConn → List (ℕ × Bytes × Option PipeError) → SplitConn × Bytes
reads c [] = (c, [])
reads c ((room, give, e) ∷ rooms) =
    let (c', r) = read c room (give, e) in
    let (c'', rest) = reads c' rooms in
    (c'', elim r [ got bytes ↦ bytes ++ rest | streamed s ↦ rest | closed ↦ rest | waits ↦ rest ])
