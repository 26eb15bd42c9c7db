-- ===== src/Session/Download/Stream.antt =====
-- What a download buffer promises: an append-only stream of bytes addressed by absolute offsets,
-- of which a reader may ask again for the last `window` bytes before the delivered mark.
use nightveil.Prelude.{
  ℕ, ◌+◌, ◌-◌, Bool, true, false, List, [], ◌∷◌, ◌++◌, none, some, length, drop, take, Bytes, leb,
  min, max, if◌then◌else◌, ℤ, pos, pos_part, ltb_ℤ,
}
use nightveil.Session.Error.{session_closed, offset_too_old}
use nightveil.Session.Download.{
  Read, Call, writes, advances, closes, reads, Reply, wrote, read, nothing,
}

pub record Stream : Type 0 where
  pub written : Bytes
  pub delivered : ℕ
  pub done : Bool

abbrev pub empty : Stream
empty = record { written = []; delivered = 0; done = false }

module _ (window : ℕ) where
  unfoldable pub fetch : Stream → ℤ → ℕ → Read
  fetch s off room =
      let data_ = take room (drop (pos_part off) s.written) in
      if ltb_ℤ off (pos (s.delivered - window))
      then record { copied = []; offset = off; error = some offset_too_old }
      else if leb (length s.written) (pos_part off)
      then record {
        copied = [];
        offset = off;
        error = if s.done then some session_closed else none;
      }
      else record { copied = data_; offset = pos (pos_part off + length data_); error = none }

  unfoldable pub step : Stream → Call → Stream × Reply
  step s (writes p) =
      if s.done
      then (s, wrote 0 (some session_closed))
      else (record s { written = s.written ++ p }, wrote (length p) none)
  step s (advances off) =
      (record s { delivered = max s.delivered (min (pos_part off) (length s.written)) }, nothing)
  step s closes = (record s { done = true }, nothing)
  step s (reads off room) = (s, read (fetch s off room))

  unfoldable pub run : Stream → List Call → List Reply
  run s [] = []
  run s (c ∷ cs) = let (s', r) = step s c in r ∷ run s' cs

  -- The stream after the calls.
  unfoldable pub after : Stream → List Call → Stream
  after s [] = s
  after s (c ∷ cs) = after (step s c).0 cs
