-- ===== src/Io.antt =====
-- What the code uses of Go's package io: byte streams that are read, and writers.
use nightveil.Prelude.{
  ℕ, Bool, Bytes, Result, arith, drop, drop-append_self, if◌then◌else◌, leb, length, length-append,
  length-take, refl, take, take-append-drop, take-append_self, true, ◌++◌, ◌==◌, ◌≡◌, ok, err,
}

-- `io.EOF` and `io.ErrUnexpectedEOF`
pub data ReadError : Type 0 where
  eof unexpected_eof : ReadError

-- `io.ReadFull` of `n` bytes from what a stream delivers before it ends: the bytes and the rest.
unfoldable pub read_full : Bytes → ℕ → Result ReadError (Bytes × Bytes)
read_full s n =
    if leb n (length s)
    then ok (take n s, drop n s)
    else if length s == 0
    then err eof
    else err unexpected_eof

pub read_full-append :
    (xs ys : Bytes) (n : ℕ) → n ≡ length xs → read_full (xs ++ ys) n ≡ ok (xs, ys)
unfolding read_full
read_full-append xs ys n e =
    rw e (ground (arith, length-append xs ys, take-append_self xs ys, drop-append_self xs ys))

-- What is read and what is left make up the stream.
pub append-read_full :
    (s : Bytes) (n : ℕ) {xs ys : Bytes}
    → read_full s n ≡ ok (xs, ys)
    → (s ≡ xs ++ ys) × (length xs ≡ n)
unfolding read_full
append-read_full s n e = ground (arith, take-append-drop n s, length-take n s)

-- An `io.Writer` whose state is `W`: a `Write` that reports no error has appended all of its bytes
-- to what the writer has passed on.
pub record IsWriter {W : Type 0} (write : W → Bytes → W × Bool) (contents : W → Bytes)
    : Type 0 where
  pub appends :
      (w : W) (b : Bytes) → (write w b).1 ≡ true → contents (write w b).0 ≡ contents w ++ b

-- A `bytes.Buffer`.
abbrev pub buffer_write : Bytes → Bytes → Bytes × Bool
buffer_write w b = (w ++ b, true)

pub buffer-IsWriter : IsWriter buffer_write (λ w. w)
buffer-IsWriter = record { appends = λ w b h. refl }
