-- ===== src/Middleware/Padding.antt =====
-- internal/middleware/padding/padding.go: frames with random padding. The length and the bytes of
-- each padding, which `randomPadLen` and `rand.Read` choose, are an input: `pad` is the padding. The
-- wrapped connection takes every frame; what it gives to read is a list of bytes that ends.
pub mod RoundTrip
pub mod Tests
use nightveil.Prelude.{
  Bytes, List, Result, [], drop, get_or, high_byte, if◌then◌else◌, join_bytes, leb, length,
  low_byte, ltb, ltb_ℤ, pos, pos_part, suc, take, zero, ℕ, ℤ, ◌++◌, ◌+◌, ◌-◌, ◌==◌, ◌∷◌, err, ok,
}
use nightveil.Io.{ReadError, read_full}

abbrev pub header_size : ℕ
header_size = 4

-- The configuration that `New` keeps: minimum and maximum.
unfoldable pub new_config : ℤ → ℤ → ℕ × ℕ
new_config min_bytes max_bytes =
    let low = if ltb_ℤ min_bytes (pos 0) then 0 else pos_part min_bytes in
    (low, if ltb_ℤ max_bytes (pos low) then low else pos_part max_bytes)

-- `randomPadLen`, where `draw n` is what `rand.Int` gives below `n`.
unfoldable pub random_pad_len : ℕ × ℕ → (ℕ → ℕ) → ℕ
random_pad_len (low, high) draw = if leb high low then low else low + draw (high - low + 1)

-- The frame that `writeFrame` sends.
unfoldable pub write_frame : Bytes → Bytes → Bytes
write_frame data_ pad =
    low_byte (length data_)
    ∷ high_byte (length data_)
    ∷ low_byte (length pad)
    ∷ high_byte (length pad)
    ∷ (data_ ++ pad)

-- What `Write` sends for one call of a caller with at most 65535 bytes is `write_frame`; a longer
-- call is cut into pieces of 65535, with a padding each; `fuel` bounds the pieces. A padding that is
-- not given is empty.
abbrev pub max_real : ℕ
max_real = 65_535

abbrev pub first_pad : List Bytes → Bytes
first_pad [] = []
first_pad (p ∷ ps) = p

abbrev pub other_pads : List Bytes → List Bytes
other_pads [] = []
other_pads (p ∷ ps) = ps

-- The loop: `p` is what is still to be written, in pieces of `size` bytes.
unfoldable pub write_pieces : ℕ → ℕ → Bytes → List Bytes → Bytes
write_pieces size zero p pads = []
write_pieces size (suc fuel) p pads =
    let rest = write_pieces size fuel (drop size p) (other_pads pads) in
    if length p == 0 then [] else write_frame (take size p) (first_pad pads) ++ rest

unfoldable pub write : Bytes → List Bytes → Bytes
write p pads =
    if ltb max_real (length p)
    then write_pieces max_real (length p) p pads
    else write_frame p (first_pad pads)

pub data PaddingError : Type 0 where
  header_not_read payload_not_read : ReadError → PaddingError

-- A connection to read: what the wrapped one still gives, and `rBuf`.
pub record Conn : Type 0 where
  pub input : Bytes
  pub leftover : Bytes

-- The part of `Read` behind the header, for a caller's slice with `room` bytes.
unfoldable pub read_body : ℕ → ℕ → ℕ → Bytes → Conn × Result PaddingError Bytes
read_body room real_len pad_len input = elim (read_full input (real_len + pad_len)) [
  | err e ↦ (record { input = []; leftover = [] }, err (payload_not_read e))
  | ok (buf, rest) ↦
      let real_data = take real_len buf in
      (record { input = rest; leftover = drop room real_data }, ok (take room real_data))
]

-- A header's two lengths.
abbrev pub real_len_of : Bytes → ℕ
real_len_of header = join_bytes (get_or header 0 0) (get_or header 1 0)

abbrev pub pad_len_of : Bytes → ℕ
pad_len_of header = join_bytes (get_or header 2 0) (get_or header 3 0)

unfoldable pub read : Conn → ℕ → Conn × Result PaddingError Bytes
unfolding read_body
read c room =
    if ltb 0 (length c.leftover)
    then (record c { leftover = drop room c.leftover }, ok (take room c.leftover))
    else elim (read_full c.input header_size) [
      | err e ↦ (record { input = []; leftover = [] }, err (header_not_read e))
      | ok (header, rest) ↦ read_body room (real_len_of header) (pad_len_of header) rest
    ]

-- Reads with these sizes, one after the other: the connection, and what each returns.
unfoldable pub reads : Conn → List ℕ → Conn × List (Result PaddingError Bytes)
reads c [] = (c, [])
reads c (room ∷ rooms) =
    let (c', r) = read c room in let (c'', rs) = reads c' rooms in (c'', r ∷ rs)
