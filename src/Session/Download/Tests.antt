-- ===== src/Session/Download/Tests.antt =====
-- Runs of the download buffer, and the theorems about it at concrete inputs.
use nightveil.Prelude.{ℕ, ◌*◌, ◌≤◌, ◌≡◌, refl, List, [], ◌∷◌, arith, length, pos, none, some, false}
use nightveil.Session.Error.{offset_too_old}
use nightveil.Session.Download.{
  Buffer, append, window_size, new_sized, shrink, compact_locked, write, advance, read_from, Call,
  writes, advances, reads, read, step, run, after, len,
}
use nightveil.Session.Download.Stream
use nightveil.Session.Download.Stream.{empty}
use nightveil.Session.Download.Refine.{run-new_sized}
use nightveil.Session.Download.Window.{len-after, write-append, compact_locked-cap}

-- A runtime that grows a slice to just what is needed.
abbrev grow : ℕ → ℕ → ℕ
grow old needed = needed

-- Six bytes, five of them delivered, through a window of two.
abbrev session : List Call
session = writes (1 ∷ 2 ∷ 3 ∷ 4 ∷ 5 ∷ 6 ∷ []) ∷ advances (pos 5) ∷ []

abbrev replay : List Call
replay = reads (pos 2) 9 ∷ reads (pos 3) 2 ∷ []

run-session :
    run grow (after grow (new_sized (pos 2)) session) replay
    ≡ read (record { copied = []; offset = pos 2; error = some offset_too_old })
      ∷ read (record { copied = 4 ∷ 5 ∷ []; offset = pos 5; error = none })
      ∷ []
unfolding run after step write advance read_from new_sized window_size append compact_locked shrink
run-session = refl

run-new_sized_example :
    run grow (new_sized (pos 2)) session ≡ Stream.run (window_size (pos 2)) empty session
run-new_sized_example = run-new_sized grow (pos 2) session

len-after_example :
    let db = after grow (new_sized (pos 2)) session in
    (db.buf.bytes ≡ 4 ∷ 5 ∷ 6 ∷ []) × (len db ≡ 3)
unfolding Stream.after Stream.step window_size
len-after_example = len-after grow (pos 2) session

write-append_example :
    let db = after grow (new_sized (pos 2)) session in
    ((write grow db (7 ∷ 8 ∷ [])).0.buf ≡ append grow db.buf (7 ∷ 8 ∷ []))
    × ((write grow db (7 ∷ 8 ∷ [])).0.discarded ≡ db.discarded)
unfolding after step write advance new_sized window_size append compact_locked shrink
write-append_example = write-append grow (pos 2) session (7 ∷ 8 ∷ []) refl

-- Six of seven bytes delivered, before the compaction.
abbrev loaded : Buffer
loaded = record {
  buf = record { bytes = 1 ∷ 2 ∷ 3 ∷ 4 ∷ 5 ∷ 6 ∷ 7 ∷ []; cap = 64 };
  discarded = 0;
  delivered = 6;
  max_retain = 1;
  done = false;
  notify = false;
}

compact_locked-cap_example :
    let s = (compact_locked loaded).buf in (length s.bytes ≤ s.cap) × (s.cap ≤ 4 * length s.bytes)
unfolding compact_locked shrink
compact_locked-cap_example = compact_locked-cap loaded (omega arith) (omega arith)
