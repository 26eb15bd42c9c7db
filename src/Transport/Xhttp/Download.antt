-- ===== src/Transport/Xhttp/Download.antt =====
-- internal/transport/xhttp/server.go, `handleDownload`, with the GETs that `clientConn.Read` of
-- client.go makes. `World` is one session: its buffer, the bytes that the relay has written, the
-- offset of the GET that the client listens to, what that GET has written and the client has not
-- read, and what the client has read. Each iteration of the handler's loop is a step, and so is
-- each call of the buffer by anything else, an older GET's handler included.
pub mod Resume
pub mod Tests
use nightveil.Prelude.{
  Bool, Bytes, List, Option, [], drop, false, if◌then◌else◌, length, ltb, ltb_ℤ, none, pos,
  pos_part, some, take, true, ℕ, ℤ, ◌++◌, ◌∷◌,
}
use nightveil.Session.Error.{Error}
use nightveil.Session.Download
use nightveil.Session.Download.{
  Buffer, Call, writes, advances, closes, reads, Read, read_from, advance, new_sized,
}

-- `len(buf)`
abbrev pub buf_size : ℕ
buf_size = 32768

-- The offset that a GET starts from: that of its query, if there is one that parses and is positive.
unfoldable pub start_offset : Option ℤ → ℕ
start_offset none = 0
start_offset (some off) = if ltb_ℤ (pos 0) off then pos_part off else 0

-- What one iteration of the loop does: it goes on with the next offset, having written and flushed;
-- it returns because the write of these bytes failed, or because of an error; or it waits.
pub data Polled : Type 0 where
  flushed : Bytes → ℕ → Polled
  write_failed : Bytes → Polled
  stopped : Error → Polled
  waits : Polled

unfoldable pub settle : Buffer → Read → Bool → Buffer × Polled
settle db r writable =
    if ltb 0 (length r.copied)
    then if writable
      then (advance db r.offset, flushed r.copied (pos_part r.offset))
      else (db, write_failed r.copied)
    else elim r.error [ some e ↦ (db, stopped e) | none ↦ (db, waits) ]

unfoldable pub poll : Buffer → ℕ → Bool → Buffer × Polled
unfolding settle
poll db offset writable = settle db (read_from db (pos offset) buf_size) writable

pub record World : Type 0 where
  pub buffer : Buffer
  pub written : Bytes
  pub get : Option ℕ
  pub in_flight : Bytes
  pub received : Bytes

unfoldable pub new_world : ℤ → World
new_world n = record {
  buffer = new_sized n;
  written = [];
  get = none;
  in_flight = [];
  received = [];
}

-- A call of the buffer; an iteration whose write fails after `k` bytes for `some k`; the client
-- reads `k` bytes at most; the connection breaks; the client makes a GET.
pub data Event : Type 0 where
  calls : Call → Event
  polls : Option ℕ → Event
  arrives : ℕ → Event
  breaks : Event
  gets : Event

abbrev pub is_written : Buffer → Call → Bytes
is_written db (writes p) = if db.done then [] else p
is_written db _ = []

abbrev pub writable : Option ℕ → Bool
writable none = true
writable (some k) = false

abbrev pub count : Option ℕ → ℕ
count none = 0
count (some k) = k

-- What an iteration of the client's GET makes of the session.
unfoldable pub absorb : World → ℕ → Buffer × Polled → World
absorb w k (db, flushed bytes off) = record w {
  buffer = db;
  get = some off;
  in_flight = w.in_flight ++ bytes;
}
absorb w k (db, write_failed bytes) = record w {
  buffer = db;
  get = none;
  in_flight = w.in_flight ++ take k bytes;
}
absorb w k (db, stopped e) = record w { buffer = db; get = none }
absorb w k (db, waits) = record w { buffer = db }

-- `startDownload`: the client asks for what follows all that it has read, and the answer is a new
-- stream.
unfoldable pub start_download : World → World
start_download w = record w {
  get = some (start_offset (some (pos (length w.received))));
  in_flight = [];
}

-- A `Read` of the client from the GET's answer, of `k` bytes at most.
unfoldable pub client_read : World → ℕ → World
client_read w k = record w {
  received = w.received ++ take k w.in_flight;
  in_flight = drop k w.in_flight;
}

unfoldable pub step : (ℕ → ℕ → ℕ) → World → Event → World
unfolding absorb start_download client_read
step grow w (calls c) = record w {
  buffer = (Download.step grow w.buffer c).0;
  written = w.written ++ is_written w.buffer c;
}
step grow w (polls o) = elim w.get [
  | none ↦ w
  | some off ↦ absorb w (count o) (poll w.buffer off (writable o))
]
step grow w (arrives k) = client_read w k
step grow w breaks = record w { get = none; in_flight = [] }
step grow w gets = start_download w

unfoldable pub run : (ℕ → ℕ → ℕ) → World → List Event → World
run grow w [] = w
run grow w (e ∷ es) = run grow (step grow w e) es
