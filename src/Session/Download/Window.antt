-- ===== src/Session/Download/Window.antt =====
-- What the buffer of download_buffer.go keeps in memory, and when.
use nightveil.Prelude.{
  ℕ, ◌+◌, ◌-◌, ◌*◌, ◌≤◌, ◌<◌, ◌≡◌, List, [], ◌∷◌, arith, length, length-drop, min, Bytes, false, ℤ,
  ap, drop, ◌∙◌,
}
use nightveil.Session.Download.{
  Buffer, append, window_size, new_sized, shrink, compact_locked, write, Call, step, after, len,
}
use nightveil.Session.Download.Stream
use nightveil.Session.Download.Stream.{Stream, empty}
use nightveil.Session.Download.Refine.{
  Represents, compact_locked-idle, step-Represents, new_sized-Represents,
}

module _ (grow : ℕ → ℕ → ℕ) where
  after-Represents :
      {window : ℕ} (db : Buffer) (s : Stream) (cs : List Call)
      → Represents window db s
      → Represents window (after grow db cs) (Stream.after window s cs)
  unfolding after Stream.after
  after-Represents db s [] r = r
  after-Represents {window} db s (c ∷ cs) r =
      after-Represents (step grow db c).0 (Stream.step window s c).0 cs
        (step-Represents grow db s c r).0

  module _ (n : ℤ) (cs : List Call) where
    -- The buffer and the stream that the same calls lead to.
    reached :
        Represents
          (window_size n)
          (after grow (new_sized n) cs)
          (Stream.after (window_size n) empty cs)
    reached = after-Represents (new_sized n) empty cs (new_sized-Represents n)

    -- After any calls the bytes that the buffer holds are those written but not delivered yet and,
    -- before these, the last `window_size n` of the delivered ones, or all if there are fewer; and
    -- `Len` is the number of them.
    pub len-after :
        let db = after grow (new_sized n) cs in
        let s = Stream.after (window_size n) empty cs in
        (db.buf.bytes ≡ drop (s.delivered - window_size n) s.written)
        × (len db ≡ length s.written - s.delivered + min (window_size n) s.delivered)
    unfolding len
    len-after =
        let db = after grow (new_sized n) cs in
        let s = Stream.after (window_size n) empty cs in
        (
          reached.bytes ∙ ap (λ k. drop k s.written) reached.floor,
          omega (
            arith,
            reached.floor,
            reached.within,
            ap length reached.bytes,
            length-drop db.discarded s.written,
          ),
        )

    -- After any calls, a `Write` to an open buffer only appends: the compaction that it asks for
    -- above twice the window finds nothing to drop.
    pub write-append :
        (p : Bytes)
        → (after grow (new_sized n) cs).done ≡ false
        → let db = after grow (new_sized n) cs in
          ((write grow db p).0.buf ≡ append grow db.buf p)
          × ((write grow db p).0.discarded ≡ db.discarded)
    unfolding write
    write-append p h =
        let db = after grow (new_sized n) cs in
        ground (arith, reached, compact_locked-idle (record db { buf = append grow db.buf p }))

-- A compaction that drops bytes lets go of memory too: the capacity that is left is at most four
-- times the length that is left, if the slice was no longer than its capacity.
pub compact_locked-cap :
    (db : Buffer)
    → length db.buf.bytes ≤ db.buf.cap
    → db.discarded < (compact_locked db).discarded
    → let s = (compact_locked db).buf in (length s.bytes ≤ s.cap) × (s.cap ≤ 4 * length s.bytes)
unfolding compact_locked shrink
compact_locked-cap db h moved =
    ground (arith, length-drop (db.delivered - db.max_retain - db.discarded) db.buf.bytes)
