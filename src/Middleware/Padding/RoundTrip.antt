-- ===== src/Middleware/Padding/RoundTrip.antt =====
-- What is written with padding is read without it.
use nightveil.Prelude.{
  Bytes, List, [], drop, high_byte, join_bytes_lem, length, length-append, low_byte, refl, sym,
  take, take-append_self, ℕ, ◌++◌, ◌+◌, ◌<◌, ◌∷◌, ◌≡◌, All, Bool-cases, Result, ap, append_assoc,
  arith, inl, inr, ltb, nil_of_length, take-append-drop, true, ◌∙◌, append-nil, length-drop,
  length-take, suc, zero, ◌≤◌, false, ◌==◌,
}
use nightveil.Io.{read_full, eof, read_full-append}
use nightveil.Middleware.Padding.{
  Conn, PaddingError, header_size, header_not_read, write_frame, read_body, read, ok, real_len_of,
  err, pad_len_of, first_pad, other_pads, write_pieces, write, reads, max_real,
}

-- Frames as data and padding, and what they are on the wire.
abbrev pub Frames : Type 0
Frames = List (Bytes × Bytes)

abbrev pub wire : Frames → Bytes
wire [] = []
wire ((d, pad) ∷ fs) = write_frame d pad ++ wire fs

abbrev pub content : Frames → Bytes
content [] = []
content ((d, pad) ∷ fs) = d ++ content fs

abbrev pub IsFrame : Bytes × Bytes → Type 0
IsFrame x = (length x.0 < 65536) × (length x.1 < 65536)

read_body-frame :
    (room n m : ℕ) (d pad rest : Bytes)
    → n ≡ length d
    → m ≡ length pad
    → read_body room n m ((d ++ pad) ++ rest)
      ≡ (record { input = rest; leftover = drop room d }, ok (take room d))
unfolding read_body
read_body-frame room n m d pad rest e f =
    let size : n + m ≡ length (d ++ pad) = omega (arith, e, f, length-append d pad) in
    rw (read_full-append (d ++ pad) rest (n + m) size, read_body, e, take-append_self d pad) refl

-- A `Read` with nothing left over takes one frame.
read-frame :
    (room : ℕ) (d pad rest : Bytes)
    → IsFrame (d, pad)
    → read (record { input = write_frame d pad ++ rest; leftover = [] }) room
      ≡ (record { input = rest; leftover = drop room d }, ok (take room d))
unfolding read write_frame
read-frame room d pad rest v =
    let head : Bytes =
      low_byte (length d)
      ∷ high_byte (length d)
      ∷ low_byte (length pad)
      ∷ high_byte (length pad)
      ∷ [] in
    let whole = read_full-append head ((d ++ pad) ++ rest) header_size refl in
    rw whole (
      read_body-frame room (real_len_of head) (pad_len_of head) d pad rest
        (join_bytes_lem (length d) v.0) (join_bytes_lem (length pad) v.1))

-- A connection that still has to give this content.
pub record Carries (c : Conn) (text : Bytes) : Type 0 where
  pub frames : Frames
  pub valid : All IsFrame frames
  pub coming : c.input ≡ wire frames
  pub pending : text ≡ c.leftover ++ content frames

-- What a `Read` does to what is still to come: some of it is returned, or nothing is left.
pub data Taken (text : Bytes) : Conn × Result PaddingError Bytes → Type 0 where
  more :
      {c : Conn} {bytes rest : Bytes}
      → text ≡ bytes ++ rest
      → Carries c rest
      → Taken text (c, ok bytes)
  over : {c : Conn} → text ≡ [] → Carries c [] → Taken text (c, err (header_not_read eof))

read-leftover :
    (c : Conn) (room : ℕ) (fs : Frames)
    → All IsFrame fs
    → c.input ≡ wire fs
    → (ltb 0 (length c.leftover) ≡ true)
    → Taken (c.leftover ++ content fs) (read c room)
unfolding read
read-leftover c room fs v e h = rw h (
    more
      (ap (λ x. x ++ content fs) (sym (take-append-drop room c.leftover))
        ∙ append_assoc (take room c.leftover) (drop room c.leftover) (content fs))
      (record { frames = fs; valid = v; coming = e; pending = refl }))

read-empty :
    (room : ℕ) (fs : Frames)
    → All IsFrame fs
    → Taken (content fs) (read (record { input = wire fs; leftover = [] }) room)
read-empty room [] v =
    unfold read read_full in
    over refl (record { frames = []; valid = tt; coming = refl; pending = refl })
read-empty room ((d, pad) ∷ fs) v = rw (read-frame room d pad (wire fs) v.0) (
    more
      (ap (λ x. x ++ content fs) (sym (take-append-drop room d))
        ∙ append_assoc (take room d) (drop room d) (content fs))
      (record { frames = fs; valid = v.1; coming = refl; pending = refl }))

read-Carries : (c : Conn) (room : ℕ) (text : Bytes) → Carries c text → Taken text (read c room)
read-Carries c room text h = elim (Bool-cases (ltb 0 (length c.leftover))) [
  | inl e ↦ rw h.pending (read-leftover c room h.frames h.valid h.coming e)
  | inr e ↦
      let none_ = nil_of_length c.leftover (ground arith) in
      rw (h.pending, none_, h.coming) (read-empty room h.frames h.valid)
]

-- What `Write` puts on the wire.
record FramesOf (p wired : Bytes) : Type 0 where
  frames : Frames
  valid : All IsFrame frames
  shape : wired ≡ wire frames
  whole : content frames ≡ p

IsShort : Bytes → Type 0
IsShort pad = length pad < 65536

first_pad-IsShort : (pads : List Bytes) → All IsShort pads → IsShort (first_pad pads)
unfolding IsShort
first_pad-IsShort [] a = omega arith
first_pad-IsShort (p ∷ ps) a = a.0

other_pads-All : (pads : List Bytes) → All IsShort pads → All IsShort (other_pads pads)
other_pads-All [] a = tt
other_pads-All (p ∷ ps) a = a.1

write_pieces-FramesOf :
    (size fuel : ℕ) (p : Bytes) (pads : List Bytes)
    → 0 < size
    → size < 65536
    → length p ≤ fuel
    → All IsShort pads
    → FramesOf p (write_pieces size fuel p pads)
unfolding write_pieces IsShort
write_pieces-FramesOf size zero p pads z m h a = record {
  frames = [];
  valid = tt;
  shape = refl;
  whole = sym (nil_of_length p (omega arith));
}
write_pieces-FramesOf size (suc fuel) [] pads z m h a = record {
  frames = [];
  valid = tt;
  shape = refl;
  whole = refl;
}
write_pieces-FramesOf size (suc fuel) (b ∷ p) pads z m h a =
    let nonempty : (suc (length p) == 0) ≡ false = ground arith in
    let shorter = length-drop size (b ∷ p) in
    let ih =
      write_pieces-FramesOf size fuel (drop size (b ∷ p)) (other_pads pads) z m
        (omega (arith, shorter)) (other_pads-All pads a) in
    record {
      frames = (take size (b ∷ p), first_pad pads) ∷ ih.frames;
      valid = ((omega (arith, length-take size (b ∷ p)), first_pad-IsShort pads a), ih.valid);
      shape =
          rw nonempty (ap (λ x. write_frame (take size (b ∷ p)) (first_pad pads) ++ x) ih.shape);
      whole = ap (λ x. take size (b ∷ p) ++ x) ih.whole ∙ take-append-drop size (b ∷ p);
    }

write-FramesOf : (p : Bytes) (pads : List Bytes) → All IsShort pads → FramesOf p (write p pads)
unfolding write IsShort
write-FramesOf p pads a = elim (Bool-cases (ltb max_real (length p))) [
  | inl long ↦
      rw long (
        write_pieces-FramesOf max_real (length p) p pads (omega arith) (omega arith) (omega arith)
          a)
  | inr short ↦ rw short (record {
    frames = (p, first_pad pads) ∷ [];
    valid = ((ground arith, first_pad-IsShort pads a), tt);
    shape = sym (append-nil (write_frame p (first_pad pads)));
    whole = append-nil p;
  })
]

-- The results of reads that give this text in order: each success gives the next bytes of it, and
-- an error is the end of the stream, with nothing of the text left.
abbrev pub IsDelivered : Bytes → List (Result PaddingError Bytes) → Type 0
IsDelivered text [] = Unit
IsDelivered text (ok bytes ∷ rs) = (rest : Bytes) × (text ≡ bytes ++ rest) × IsDelivered rest rs
IsDelivered text (err e ∷ rs) = (e ≡ header_not_read eof) × (text ≡ []) × IsDelivered [] rs

reads-Carries :
    (c : Conn) (rooms : List ℕ) (text : Bytes) → Carries c text → IsDelivered text (reads c rooms).1
unfolding reads
reads-Carries c [] text h = tt
reads-Carries c (room ∷ rooms) text h =
    next (read c room) (read-Carries c room text h) (λ t k. reads-Carries (read c room).0 rooms t k)
  where
    next :
        (r : Conn × Result PaddingError Bytes)
        → Taken text r
        → ((t : Bytes) → Carries r.0 t → IsDelivered t (reads r.0 rooms).1)
        → IsDelivered text (r.1 ∷ (reads r.0 rooms).1)
    next (c', ok bytes) (more {rest} e k) go = (rest, e, go rest k)
    next (c', err e) (over e' k) go = (refl, e', go [] k)

-- What one `Write` sends, of any length, is read back by any reads of any sizes, where every padding
-- is shorter than 65536 bytes: each read gives the bytes that follow those before it, none is lost,
-- no padding shows, and an error only tells of the end once all of it was read.
pub reads-write :
    (p : Bytes) (pads : List Bytes) (rooms : List ℕ)
    → All (λ pad. length pad < 65536) pads
    → IsDelivered p (reads (record { input = write p pads; leftover = [] }) rooms).1
unfolding IsShort
reads-write p pads rooms a =
    let f = write-FramesOf p pads a in
    reads-Carries (record { input = write p pads; leftover = [] }) rooms p
      (record { frames = f.frames; valid = f.valid; coming = f.shape; pending = sym f.whole })
