-- ===== src/Protocol/Framing/Tests.antt =====
-- Runs of the framing, and the theorems about it at concrete inputs.
use nightveil.Prelude.{
  Bytes, [], arith, length, refl, some, take, ℕ, ◌++◌, ◌<◌, ◌∷◌, ◌≡◌, ◌≢◌, ◌≤◌, ok, err,
}
use nightveil.Io.{unexpected_eof, read_full, buffer_write, buffer-IsWriter}
use nightveil.Protocol.Framing.{
  Frame, header, write_frame, read_frame, frame_too_large, payload_error, invalid_length,
}
use nightveil.Protocol.Framing.RoundTrip.{
  encode, Fits, write_frame-ok, write_frame-too_large, read_frame-encode, read_frame-ok,
}
use nightveil.Protocol.Framing.Stream.{
  write_frames, read_frames, read_frames-write_frames, read_frame-cut,
}

abbrev hello : Frame
hello = record { command = 3; payload = 104 ∷ 105 ∷ [] }

abbrev hello_bytes : Bytes
hello_bytes = 3 ∷ 0 ∷ 3 ∷ 104 ∷ 105 ∷ []

hello-Fits : Fits hello
hello-Fits = omega arith

read_hello : read_frame hello_bytes ≡ ok (hello, [])
unfolding read_frame read_full
read_hello = refl

read_short : read_frame (3 ∷ 0 ∷ 3 ∷ 104 ∷ []) ≡ err (payload_error unexpected_eof)
unfolding read_frame read_full
read_short = refl

read_zero : read_frame (0 ∷ 0 ∷ 3 ∷ []) ≡ err (invalid_length 0)
unfolding read_frame read_full
read_zero = refl

write_frame-ok_example :
    ((write_frame buffer_write (7 ∷ []) hello).0 ≡ 7 ∷ encode hello)
    × (length hello.payload < 65535)
unfolding write_frame header
write_frame-ok_example = write_frame-ok buffer-IsWriter (7 ∷ []) hello refl

write_frame-too_large_example :
    (65535 ≤ length hello.payload
      → write_frame buffer_write [] hello ≡ ([], some (frame_too_large 3)))
    × ((n : ℕ)
        → (write_frame buffer_write [] hello).1 ≡ some (frame_too_large n)
        → 65535 ≤ length hello.payload)
write_frame-too_large_example = write_frame-too_large buffer_write [] hello

read_frame-encode_example : read_frame (encode hello ++ 9 ∷ []) ≡ ok (hello, 9 ∷ [])
read_frame-encode_example = read_frame-encode hello (9 ∷ []) hello-Fits

read_frame-ok_example : (hello_bytes ≡ encode hello ++ []) × Fits hello
read_frame-ok_example = read_frame-ok hello_bytes hello [] (omega arith) read_hello

read_frames-write_frames_example :
    (s : Bytes) × ((write_frames buffer_write [] (hello ∷ hello ∷ [])).0 ≡ [] ++ s)
    × (read_frames 2 (s ++ 5 ∷ []) ≡ ok (hello ∷ hello ∷ [], 5 ∷ []))
unfolding write_frames write_frame header
read_frames-write_frames_example =
    read_frames-write_frames buffer-IsWriter [] (hello ∷ hello ∷ []) (5 ∷ []) (omega arith) refl

read_frame-cut_example : read_frame (take 4 (encode hello)) ≢ ok (hello, [])
unfolding header
read_frame-cut_example = read_frame-cut hello hello 4 [] hello-Fits (omega arith)
