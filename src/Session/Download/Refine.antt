-- ===== src/Session/Download/Refine.antt =====
-- The buffer of download_buffer.go behaves as the stream of everything written to it.
use nightveil.Prelude.{
  ℕ, ◌+◌, ◌-◌, ◌≤◌, ◌≡◌, refl, List, [], ◌∷◌, arith, length, drop, length-append, length-drop,
  drop_ge, drop_none, drop-drop, drop-append_le, ℤ, pos_part, ap,
}
use nightveil.Session.Download.{
  Slice, Buffer, append, window_size, new_sized, shrink, compact_locked, write, advance, close,
  read_from, Call, writes, advances, closes, reads, step, run, read,
}
use nightveil.Session.Download.Stream
use nightveil.Session.Download.Stream.{Stream, empty}

-- The buffer holds what was written, from `window` bytes before the delivered mark on.
pub record Represents (window : ℕ) (db : Buffer) (s : Stream) : Type 0 where
  pub bytes : db.buf.bytes ≡ drop db.discarded s.written
  pub floor : db.discarded ≡ s.delivered - window
  pub mark : db.delivered ≡ s.delivered
  pub within : s.delivered ≤ length s.written
  pub retain : db.max_retain ≡ window
  pub closed : db.done ≡ s.done

pub bytes-shrink : (s : Slice) (n : ℕ) → (shrink s n).bytes ≡ drop n s.bytes
unfolding shrink
bytes-shrink s n = ground (arith, drop_ge n s.bytes)

-- Where the floor is not above the window, compaction moves it exactly there.
pub record Compacted (db db' : Buffer) : Type 0 where
  pub floor : db'.discarded ≡ db.delivered - db.max_retain
  pub bytes : db'.buf.bytes ≡ drop (db.delivered - db.max_retain - db.discarded) db.buf.bytes
  pub mark : db'.delivered ≡ db.delivered
  pub retain : db'.max_retain ≡ db.max_retain
  pub closed : db'.done ≡ db.done

pub compact_locked-Compacted :
    (db : Buffer)
    → db.discarded ≤ db.delivered - db.max_retain
    → db.delivered ≤ db.discarded + length db.buf.bytes
    → Compacted db (compact_locked db)
unfolding compact_locked
compact_locked-Compacted db h k =
    let n = db.delivered - db.max_retain - db.discarded in
    ground (arith, bytes-shrink db.buf n, drop_none n db.buf.bytes)

-- Compaction does nothing to a buffer whose floor is already at the window.
pub compact_locked-idle :
    (db : Buffer) → db.discarded ≡ db.delivered - db.max_retain → compact_locked db ≡ db
unfolding compact_locked
compact_locked-idle db e = ground arith

module _ (grow : ℕ → ℕ → ℕ) {window : ℕ} where
  write-Represents :
      (db : Buffer) (s : Stream) (p : List ℕ)
      → Represents window db s
      → Represents window (write grow db p).0 (Stream.step window s (writes p)).0
  unfolding write append Stream.step
  write-Represents db s p r = ground (
    arith,
    compact_locked-idle (record db { buf = append grow db.buf p }),
    drop-append_le db.discarded s.written p,
    length-append s.written p,
  )

  pub advance-Represents :
      (db : Buffer) (s : Stream) (off : ℤ)
      → Represents window db s
      → Represents window (advance db off) (Stream.step window s (advances off)).0
  unfolding advance Stream.step
  advance-Represents db s off r =
      let k = pos_part off in
      ground (
        arith,
        compact_locked-Compacted (record db { delivered = k }),
        compact_locked-Compacted (record db { delivered = length s.written }),
        length-drop db.discarded s.written,
        drop-drop db.discarded (k - window - db.discarded) (k - window) s.written,
        drop-drop db.discarded (length s.written - window - db.discarded)
            (length s.written - window) s.written,
      )

  pub read_from-Represents :
      (db : Buffer) (s : Stream) (off : ℤ) (room : ℕ)
      → Represents window db s
      → read_from db off room ≡ Stream.fetch window s off room
  unfolding read_from Stream.fetch
  read_from-Represents db s off room r =
      let k = pos_part off in
      ground (
        arith,
        length-drop db.discarded s.written,
        drop-drop db.discarded (k - db.discarded) k s.written,
      )

  -- One call: the same answer, and the buffer goes on holding the stream.
  pub step-Represents :
      (db : Buffer) (s : Stream) (c : Call)
      → Represents window db s
      → Represents window (step grow db c).0 (Stream.step window s c).0
        × ((step grow db c).1 ≡ (Stream.step window s c).1)
  unfolding step
  step-Represents db s (writes p) r =
      (write-Represents db s p r, unfold write Stream.step in ground arith)
  step-Represents db s (advances off) r =
      (advance-Represents db s off r, unfold Stream.step in refl)
  step-Represents db s closes r = unfold close Stream.step in ground arith
  step-Represents db s (reads off room) r =
      unfold Stream.step in (r, ap read (read_from-Represents db s off room r))

  run-Represents :
      (db : Buffer) (s : Stream) (cs : List Call)
      → Represents window db s
      → run grow db cs ≡ Stream.run window s cs
  unfolding run Stream.run
  run-Represents db s [] r = refl
  run-Represents db s (c ∷ cs) r =
      let one = step-Represents db s c r in
      let rest = run-Represents (step grow db c).0 (Stream.step window s c).0 cs one.0 in
      cc (one.1, rest)

-- A new buffer holds the empty stream.
pub new_sized-Represents : (n : ℤ) → Represents (window_size n) (new_sized n) empty
unfolding new_sized
new_sized-Represents n = ground arith

-- No sequence of calls tells a new buffer, compaction and reallocation included, from an
-- append-only stream that answers reads from `window_size n` bytes before the delivered mark on,
-- whatever size `n` it was made with and however the runtime grows its slice.
pub run-new_sized :
    (grow : ℕ → ℕ → ℕ) (n : ℤ) (cs : List Call)
    → run grow (new_sized n) cs ≡ Stream.run (window_size n) empty cs
run-new_sized grow n cs = run-Represents grow (new_sized n) empty cs (new_sized-Represents n)
