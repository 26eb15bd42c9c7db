-- ===== src/Protocol/Framing.antt =====
-- internal/protocol/framing.go: frames on a byte stream. A byte is a number below 256; the bytes of
-- a payload are only moved. What an error wraps is kept only where the code reads it.
pub mod RoundTrip
pub mod Stream
pub mod Tests
use nightveil.Prelude.{
  Bool, Bytes, Option, Result, [], byte, get_or, high_byte, if◌then◌else◌, join_bytes, length,
  low_byte, ltb, none, not, some, uint16, wrap, ℕ, ◌+◌, ◌-◌, ◌∷◌, err, ok, ◌>>=◌,
}
use nightveil.Io.{ReadError, read_full}

abbrev pub max_frame_size : ℕ
max_frame_size = 65535

-- 2 bytes of length and 1 of type.
abbrev pub header_size : ℕ
header_size = 3

-- `Frame`; the type is a `Command`, one byte.
pub record Frame : Type 0 where
  pub command : ℕ
  pub payload : Bytes

pub data WriteError : Type 0 where
  frame_too_large : ℕ → WriteError
  header_not_written payload_not_written : WriteError

unfoldable pub header : Frame → Bytes
header f =
    let total_len = uint16 (1 + length f.payload) in
    low_byte total_len ∷ high_byte total_len ∷ byte f.command ∷ []

-- The writer after `WriteFrame`, and its error.
module _ {W : Type 0} (write : W → Bytes → W × Bool) where
  unfoldable pub write_frame : W → Frame → W × Option WriteError
  write_frame w f =
      let total_len = 1 + length f.payload in
      let (w₁, sent) = write w (header f) in
      let (w₂, done) = write w₁ f.payload in
      if ltb max_frame_size total_len
      then (w, some (frame_too_large total_len))
      else if not sent
      then (w₁, some header_not_written)
      else if ltb 0 (length f.payload)
      then if done then (w₂, none) else (w₂, some payload_not_written)
      else (w₁, none)

pub data FrameError : Type 0 where
  header_error payload_error : ReadError → FrameError
  invalid_length too_large : ℕ → FrameError

-- `binary.LittleEndian.Uint16(header[:2])` and `header[2]`, of a full header.
abbrev pub total_length : Bytes → ℕ
total_length h = join_bytes (get_or h 0 0) (get_or h 1 0)

abbrev pub check_length : ℕ → Result FrameError ℕ
check_length total_len =
    if ltb total_len 1
    then err (invalid_length total_len)
    else if ltb max_frame_size total_len
    then err (too_large total_len)
    else ok (total_len - 1)

abbrev pub read_payload : Bytes → ℕ → Result FrameError (Bytes × Bytes)
read_payload body payload_len =
    if ltb 0 payload_len then wrap payload_error (read_full body payload_len) else ok ([], body)

-- The frame and the rest of the stream.
unfoldable pub read_frame : Bytes → Result FrameError (Frame × Bytes)
read_frame s = do
  (h, body) ← wrap header_error (read_full s header_size)
  payload_len ← check_length (total_length h)
  (payload, rest) ← read_payload body payload_len
  ok (record { command = get_or h 2 0; payload = payload }, rest)
