-- ===== src/Protocol/Framing/Stream.antt =====
-- A row of frames on one connection.
use nightveil.Prelude.{
  All, Bool, Bytes, List, Option, Option-cases, Result, [], ap, append-nil, append_assoc, inl, inr,
  length, none, refl, some, suc, sym, take, zero, ℕ, ◌++◌, ◌<◌, ◌>>=◌, ◌∙◌, ◌∷◌, ◌≡◌, ◌≢◌, ok,
  arith, byte, high_byte, length-append, length-take, low_byte, uint16, ◌+◌,
}
use nightveil.Io.{read_full, IsWriter}
use nightveil.Protocol.Framing.{Frame, WriteError, header, write_frame, read_frame, FrameError}
use nightveil.Protocol.Framing.RoundTrip.{encode, Fits, write_frame-ok, read_frame-encode, body-ok}

-- A sender that stops at the first error.
unfoldable pub write_frames :
    {W : Type 0} → (W → Bytes → W × Bool) → W → List Frame → W × Option WriteError
write_frames write w [] = (w, none)
write_frames write w (f ∷ fs) =
    let rest = write_frames write (write_frame write w f).0 fs in
    elim (write_frame write w f).1 [ none ↦ rest | some e ↦ ((write_frame write w f).0, some e) ]

-- A receiver of a number of frames.
unfoldable pub read_frames : ℕ → Bytes → Result FrameError (List Frame × Bytes)
read_frames zero s = ok ([], s)
read_frames (suc n) s = do
  (f, rest) ← read_frame s
  (fs, last) ← read_frames n rest
  ok (f ∷ fs, last)

module _ {W : Type 0} {write : W → Bytes → W × Bool} {contents : W → Bytes}
    (law : IsWriter write contents) where
  -- If every frame of a row is written without an error, what the writer has passed on grew by a
  -- byte string from which the receiver reads exactly these frames in order, and leaves whatever
  -- follows; each frame's type being a byte.
  pub read_frames-write_frames :
      (w : W) (fs : List Frame) (rest : Bytes)
      → All (λ f. f.command < 256) fs
      → (write_frames write w fs).1 ≡ none
      → (s : Bytes) × (contents (write_frames write w fs).0 ≡ contents w ++ s)
        × (read_frames (length fs) (s ++ rest) ≡ ok (fs, rest))
  unfolding write_frames read_frames
  read_frames-write_frames w [] rest b h = ([], sym (append-nil (contents w)), refl)
  read_frames-write_frames w (f ∷ fs) rest (b, bs) h =
      elim (Option-cases (write_frame write w f).1) [
        | inr (x, e) ↦ let bad = rw (e, write_frames) at h in cc
        | inl e ↦
            let (one, small) = write_frame-ok law w f e in
            let (s, more, back) =
              read_frames-write_frames (write_frame write w f).0 fs rest bs
                (rw (e, write_frames) at h) in
            (
              encode f ++ s,
              rw (e, write_frames)
                  (more ∙ ap (λ c. c ++ s) one ∙ append_assoc (contents w) (encode f) s),
              rw (append_assoc (encode f) s rest) (
                  rw
                    (read_frame-encode f (s ++ rest)
                      (record { command_byte = b; payload_size = small }))
                    (rw back)),
            )
      ]

-- A stream that ends before the end of a frame gives an error, never a shorter frame.
pub read_frame-cut :
    (f g : Frame) (k : ℕ) (rest : Bytes)
    → Fits f
    → k < length (encode f)
    → read_frame (take k (encode f)) ≢ ok (g, rest)
unfolding header
read_frame-cut f g zero rest v h e = unfold read_frame read_full in cc
read_frame-cut f g (suc zero) rest v h e = unfold read_frame read_full in cc
read_frame-cut f g (suc (suc zero)) rest v h e = unfold read_frame read_full in cc
read_frame-cut f g (suc (suc (suc k))) rest v h e =
    let n = uint16 (1 + length f.payload) in
    let (size, small, command, body) =
      body-ok (low_byte n) (high_byte n) (byte f.command) (take k f.payload) g rest e in
    let cut = ap length body ∙ length-append g.payload rest in
    omega (arith, cut, length-take k f.payload)
