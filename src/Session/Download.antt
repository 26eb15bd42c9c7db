-- ===== src/Session/Download.antt =====
-- internal/session/download_buffer.go: the sliding window of bytes on their way to the client.
-- Each method is the body of its critical section; one that changes `*db` returns the new buffer.
-- The offsets that a buffer holds are never negative and are numbers; an offset that a caller
-- passes is a Go `int`, an integer here. The byte counts stay far below 2^63, so no `int` wraps.
pub mod Stream
pub mod Refine
pub mod Window
pub mod Tests
use nightveil.Prelude.{
  ℕ, ◌+◌, ◌-◌, ◌*◌, Bool, true, false, List, [], ◌∷◌, ◌++◌, ◌||◌, Option, none, some, length, drop,
  take, Bytes, ltb, leb, ◌==◌, if◌then◌else◌, ℤ, pos, pos_part, sub_ℕ, leb_ℤ, ltb_ℤ,
}
use nightveil.Session.Error.{Error, session_closed, offset_too_old}

-- A Go `[]byte`: what it holds, and its capacity.
pub record Slice : Type 0 where
  pub bytes : Bytes
  pub cap : ℕ

-- `nil`
abbrev pub nil_slice : Slice
nil_slice = record { bytes = []; cap = 0 }

-- `append(s, p...)`. How the runtime grows a full slice is the parameter: the new capacity for the
-- old one and the length that is needed.
unfoldable pub append : (ℕ → ℕ → ℕ) → Slice → Bytes → Slice
append grow s p =
    let needed = length s.bytes + length p in
    record { bytes = s.bytes ++ p; cap = if leb needed s.cap then s.cap else grow s.cap needed }

-- `DownloadBuffer`. The channel `notify` holds one signal or none.
pub record Buffer : Type 0 where
  pub buf : Slice
  pub discarded : ℕ
  pub delivered : ℕ
  pub max_retain : ℕ
  pub done : Bool
  pub notify : Bool

-- `DefaultDownloadBufferBytes`
abbrev pub default_bytes : ℕ
default_bytes = 4 * 1024 * 1024

-- The replay window that `NewDownloadBufferSized` chooses.
unfoldable pub window_size : ℤ → ℕ
window_size n = if leb_ℤ n (pos 0) then default_bytes else pos_part n

unfoldable pub new_sized : ℤ → Buffer
new_sized n = record {
  buf = nil_slice;
  discarded = 0;
  delivered = 0;
  max_retain = window_size n;
  done = false;
  notify = false;
}

-- The three ways in which `compactLocked` lets go of the first `n` bytes.
unfoldable pub shrink : Slice → ℕ → Slice
shrink s n =
    let remaining = length s.bytes - n in
    if remaining == 0
    then nil_slice
    else if ltb (4 * remaining) s.cap
    then record { bytes = drop n s.bytes; cap = remaining }
    else record { bytes = drop n s.bytes; cap = s.cap - n }

-- `dropTo` may be negative; `drop` is computed only where it is above `discarded`.
unfoldable pub compact_locked : Buffer → Buffer
compact_locked db =
    let drop_to = sub_ℕ db.delivered db.max_retain in
    let n = pos_part drop_to - db.discarded in
    if leb db.delivered db.discarded
    then db
    else if leb_ℤ drop_to (pos db.discarded)
    then db
    else if n == 0 || ltb (length db.buf.bytes) n
    then db
    else record db { buf = shrink db.buf n; discarded = pos_part drop_to }

-- The new buffer, the count that `Write` returns, and its error.
unfoldable pub write : (ℕ → ℕ → ℕ) → Buffer → Bytes → Buffer × ℕ × Option Error
write grow db p =
    let longer = record db { buf = append grow db.buf p } in
    let kept =
      if ltb (2 * db.max_retain) (length longer.buf.bytes) then compact_locked longer else longer in
    if db.done
    then (db, 0, some session_closed)
    else (record kept { notify = true }, length p, none)

unfoldable pub advance : Buffer → ℤ → Buffer
advance db off =
    let last = pos (db.discarded + length db.buf.bytes) in
    let clamped = if ltb_ℤ last off then last else off in
    if leb_ℤ clamped (pos db.delivered)
    then db
    else compact_locked (record db { delivered = pos_part clamped })

unfoldable pub close : Buffer → Buffer
close db = record db { done = true; notify = true }

-- What `ReadFrom` copies to the front of the caller's slice (its length is the count that it
-- returns), the new offset, and the error.
pub record Read : Type 0 where
  pub copied : Bytes
  pub offset : ℤ
  pub error : Option Error

-- `room` is `len(p)`.
unfoldable pub read_from : Buffer → ℤ → ℕ → Read
read_from db offset room =
    let local = pos_part offset - db.discarded in
    let data_ = take room (drop local db.buf.bytes) in
    if ltb_ℤ offset (pos db.discarded)
    then record { copied = []; offset = offset; error = some offset_too_old }
    else if leb (length db.buf.bytes) local
    then record {
      copied = [];
      offset = offset;
      error = if db.done then some session_closed else none;
    }
    else record { copied = data_; offset = pos (pos_part offset + length data_); error = none }

-- Receiving from the channel that `Notify` returns takes its signal, if there is one.
unfoldable pub take_signal : Buffer → Buffer × Bool
take_signal db = (record db { notify = false }, db.notify)

unfoldable pub len : Buffer → ℕ
len db = length db.buf.bytes

unfoldable pub is_done : Buffer → Bool
is_done db = db.done

-- A client's calls, each with what it returns.
pub data Call : Type 0 where
  writes : Bytes → Call
  advances : ℤ → Call
  closes : Call
  reads : ℤ → ℕ → Call

pub data Reply : Type 0 where
  wrote : ℕ → Option Error → Reply
  read : Read → Reply
  nothing : Reply

unfoldable pub step : (ℕ → ℕ → ℕ) → Buffer → Call → Buffer × Reply
step grow db (writes p) = let (db', n, e) = write grow db p in (db', wrote n e)
step grow db (advances off) = (advance db off, nothing)
step grow db closes = (close db, nothing)
step grow db (reads off room) = (db, read (read_from db off room))

unfoldable pub run : (ℕ → ℕ → ℕ) → Buffer → List Call → List Reply
run grow db [] = []
run grow db (c ∷ cs) = let (db', r) = step grow db c in r ∷ run grow db' cs

-- The buffer after the calls.
unfoldable pub after : (ℕ → ℕ → ℕ) → Buffer → List Call → Buffer
after grow db [] = db
after grow db (c ∷ cs) = after grow (step grow db c).0 cs
