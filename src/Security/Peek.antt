-- ===== src/Security/Peek.antt =====
-- internal/security/reality.go: `PeekConn`. The inner connection is the bytes that it still delivers;
-- how many of them come before a read's error or its end is an argument.
pub mod Reads
pub mod Tests
use nightveil.Prelude.{
  Bool, Bytes, List, [], drop, if◌then◌else◌, leb, length, ltb, min, take, ℕ, ◌+◌, ◌-◌, ◌++◌, ◌∷◌,
}

pub record PeekConn : Type 0 where
  pub inner : Bytes
  pub peeked : Bytes
  pub read : ℕ

unfoldable pub new_peek_conn : Bytes → PeekConn
new_peek_conn stream = record { inner = stream; peeked = []; read = 0 }

-- The loop reads `n` bytes, or up to an error behind the first `available` ones. The connection, the
-- bytes that are returned, and whether there is an error.
unfoldable pub peek : PeekConn → ℕ → ℕ → PeekConn × Bytes × Bool
peek pc n available =
    let got = take (min n available) pc.inner in
    if leb n (length pc.peeked) then (pc, take n pc.peeked, ltb (length pc.peeked) n) else (
      record pc { inner = drop (min n available) pc.inner; peeked = got },
      got,
      ltb (length got) n,
    )

-- A read with room for `room` bytes, for which the inner connection has `available` ready.
unfoldable pub read : PeekConn → ℕ → ℕ → PeekConn × Bytes
read pc room available =
    if ltb pc.read (length pc.peeked)
    then (
      record pc { read = pc.read + length (take room (drop pc.read pc.peeked)) },
      take room (drop pc.read pc.peeked),
    )
    else (
      record pc { inner = drop (min room available) pc.inner },
      take (min room available) pc.inner,
    )
