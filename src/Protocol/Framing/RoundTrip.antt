-- ===== src/Protocol/Framing/RoundTrip.antt =====
-- A frame is read back as it was written, and only so.
use nightveil.Prelude.{
  All, Bool, Bytes, arith, length, none, some, ℕ, ◌++◌, ◌+◌, ◌<◌, ◌≡◌, ◌≤◌, ok, append-nil,
  append_assoc, nil_of_length, refl, Result-cases, [], ap, byte, high_byte, inl, inr, low_byte,
  uint16, ◌*◌, ◌∷◌,
}
use nightveil.Io.{read_full, read_full-append, append-read_full, IsWriter}
use nightveil.Protocol.Framing.{
  Frame, header, write_frame, read_frame, read_payload, check_length, total_length, frame_too_large,
}

-- What `WriteFrame` puts on the wire.
abbrev pub encode : Frame → Bytes
encode f = header f ++ f.payload

-- A frame that fits its length field.
pub record Fits (f : Frame) : Type 0 where
  pub command_byte : f.command < 256
  pub payload_size : length f.payload < 65535

module _ {W : Type 0} {write : W → Bytes → W × Bool} {contents : W → Bytes}
    (law : IsWriter write contents) where
  -- A frame that is written without an error fits its length field and is on the wire whole.
  pub write_frame-ok :
      (w : W) (f : Frame)
      → (write_frame write w f).1 ≡ none
      → (contents (write_frame write w f).0 ≡ contents w ++ encode f) × (length f.payload < 65535)
  unfolding write_frame
  write_frame-ok w f h =
      let w₁ = (write w (header f)).0 in
      ground (
        arith,
        law.appends w (header f),
        law.appends w₁ f.payload,
        append_assoc (contents w) (header f) f.payload,
        nil_of_length f.payload,
        append-nil (header f),
      )

-- A frame is refused as too large exactly when its payload has 65535 bytes or more, and then
-- nothing is written.
pub write_frame-too_large :
    {W : Type 0} (write : W → Bytes → W × Bool) (w : W) (f : Frame)
    → (65535 ≤ length f.payload
        → write_frame write w f ≡ (w, some (frame_too_large (1 + length f.payload))))
      × ((n : ℕ) → (write_frame write w f).1 ≡ some (frame_too_large n) → 65535 ≤ length f.payload)
unfolding write_frame
write_frame-too_large write w f = (λ h. ground arith, λ n h. ground arith)

check_length_lem : (t n : ℕ) → t ≡ 1 + n → n < 65535 → check_length t ≡ ok n
check_length_lem t n e h = ground arith

read_payload-append : (p rest : Bytes) → read_payload (p ++ rest) (length p) ≡ ok (p, rest)
read_payload-append p rest = ground (arith, read_full-append p rest (length p), nil_of_length p)

-- A frame that fits is read back, whatever follows it on the stream.
pub read_frame-encode :
    (f : Frame) (rest : Bytes) → Fits f → read_frame (encode f ++ rest) ≡ ok (f, rest)
unfolding read_frame header
read_frame-encode f rest v =
    let size : total_length (header f) ≡ 1 + length f.payload = unfold header in omega arith in
    let command : byte f.command ≡ f.command = omega arith in
    rw (read_full-append (header f) (f.payload ++ rest) 3 refl) (
      rw (check_length_lem (total_length (header f)) (length f.payload) size v.payload_size) (
        rw (read_payload-append f.payload rest)
          (ap (λ c. ok (record { command = c; payload = f.payload }, rest)) command)))

-- The header that announces a length, and the frame that follows.
check_length-ok : (t : ℕ) {n : ℕ} → check_length t ≡ ok n → (t ≡ 1 + n) × (n < 65535)
check_length-ok t e = ground arith

read_payload-ok :
    (t : Bytes) (n : ℕ) {p rest : Bytes}
    → read_payload t n ≡ ok (p, rest)
    → (t ≡ p ++ rest) × (length p ≡ n)
read_payload-ok t n {p} {rest} e = elim (Result-cases (read_full t n)) [
  | inl ((xs, ys), f) ↦ ground (arith, append-read_full t n f)
  | inr (x, f) ↦ ground arith
]

-- The steps of a reading that succeeds.
pub body-ok :
    (a b c : ℕ) (t : Bytes) (f : Frame) (rest : Bytes)
    → read_frame (a ∷ b ∷ c ∷ t) ≡ ok (f, rest)
    → (a + 256 * b ≡ 1 + length f.payload)
      × (length f.payload < 65535)
      × (c ≡ f.command)
      × (t ≡ f.payload ++ rest)
unfolding read_frame
body-ok a b c t f rest h =
    let h' = rw (read_full-append (a ∷ b ∷ c ∷ []) t 3 refl) at h in
    elim (Result-cases (check_length (a + 256 * b))) [
      | inr (x, e) ↦ let bad = rw e at h' in cc
      | inl (n, e) ↦ elim (Result-cases (read_payload t n)) [
        | inr (x, g) ↦ let bad = rw (e, g) at h' in cc
        | inl ((p, r), g) ↦
            let good = rw (e, g) at h' in
            ground (arith, check_length-ok (a + 256 * b) e, read_payload-ok t n g)
      ]
    ]

-- Whatever bytes `ReadFrame` accepts are the encoding of the frame that it returns, with the rest
-- left unread: no two byte strings are read as one frame.
pub read_frame-ok :
    (s : Bytes) (f : Frame) (rest : Bytes)
    → All (λ b. b < 256) s
    → read_frame s ≡ ok (f, rest)
    → (s ≡ encode f ++ rest) × Fits f
unfolding read_frame read_full
read_frame-ok [] f rest b h = cc
read_frame-ok (x ∷ []) f rest b h = cc
read_frame-ok (x ∷ y ∷ []) f rest b h = cc
read_frame-ok (x ∷ y ∷ z ∷ t) f rest (p, (q, (r, _))) h =
    let (size, small, command, body) = body-ok x y z t f rest h in
    let low : x ≡ low_byte (uint16 (1 + length f.payload)) = omega arith in
    let high : y ≡ high_byte (uint16 (1 + length f.payload)) = omega arith in
    let kind : z ≡ byte f.command = omega arith in
    (unfold header in ground arith, record { command_byte = omega arith; payload_size = small })
