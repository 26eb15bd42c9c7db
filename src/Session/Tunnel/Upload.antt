-- ===== src/Session/Tunnel/Upload.antt =====
-- internal/session/manager.go: the reassembly of the upload from numbered POST chunks.
use nightveil.Prelude.{
  ℕ, zero, suc, ◌≡◌, refl, inl, inr, List, [], ◌∷◌, ◌++◌, Option, none, some, Bool, true, Bytes, ℤ,
  pos, arith, Option-cases, Bool-cases, ◌+◌, ap, All, length, length-append, ◌∙◌, ap₂, sym,
}
use nightveil.Session.Chunks
use nightveil.Session.Chunks.{Chunks, lookup-insert, lookup-delete, same}
use nightveil.Session.Tunnel.{
  Session, push_upload, read_upload, Outcome, chunk, ended, blocked, mark_connected, close,
  ensure_stream_pipe, close_stream_upload, new_session,
}

-- What the handlers and the reader of a session may do to its upload, in any order.
pub data Event : Type 0 where
  pushes : ℤ → Bytes → Event
  reads : Event
  connects : Event
  flips : Event
  drains : Event
  closes : Event

abbrev pub yield : Session × Outcome → Session × List Bytes
yield (s, chunk b) = (s, b ∷ [])
yield (s, ended) = (s, [])
yield (s, blocked) = (s, [])

-- The session after an event with the chunks that the reader gets; `none` is a panic.
unfoldable pub step : Session → Event → Option (Session × List Bytes)
step s (pushes k b) = elim (push_upload s k b) [ none ↦ none | some s' ↦ some (s', []) ]
step s reads = some (yield (read_upload s))
step s connects = some (mark_connected s, [])
step s flips = some (ensure_stream_pipe s, [])
step s drains = some (close_stream_upload s, [])
step s closes = some (close s, [])

abbrev pub prepend : List Bytes → Option (Session × List Bytes) → Option (Session × List Bytes)
prepend out none = none
prepend out (some (s, rest)) = some (s, out ++ rest)

unfoldable pub run : Session → List Event → Option (Session × List Bytes)
run s [] = some (s, [])
run s (e ∷ es) = elim (step s e) [ none ↦ none | some (s', out) ↦ prepend out (run s' es) ]

module _ (c : ℤ → Bytes) where
  -- Every push of number `k`, a repeated one too, carries the chunk `c k`.
  abbrev pub Agrees : Event → Type 0
  Agrees (pushes k b) = b ≡ c k
  Agrees _ = Unit

  -- The chunks with the `n` numbers from `k` on.
  abbrev pub slice : ℕ → ℕ → List Bytes
  slice k zero = []
  slice k (suc n) = c (pos k) ∷ slice (suc k) n

  -- What the map holds; a nil map is one that nobody writes to any more.
  abbrev pub Held : Option Chunks → Bool → Type 0
  Held none done = done ≡ true
  Held (some m) done = Chunks.From c m

  abbrev pub IsSound : Session → Type 0
  IsSound s = Held s.upload_buf s.upload_done

  push_upload-IsSound :
      (s : Session) (k : ℤ) {v : Bytes}
      → v ≡ c k
      → IsSound s
      → (s' : Session) × (push_upload s k v ≡ some s') × IsSound s' × (s'.next_seq ≡ s.next_seq)
  unfolding push_upload
  push_upload-IsSound s k {v} e h = elim (Bool-cases s.upload_done) [
    | inl d ↦ (s, ground arith, h, refl)
    | inr d ↦ elim (Option-cases s.upload_buf) [
      | inl f ↦ ground arith
      | inr (m, f) ↦ (
        record s { upload_buf = some (Chunks.insert k v m) },
        ground arith,
        ground (arith, Chunks.insert-From c k v m),
        refl,
      )
    ]
  ]

  -- A round of the reader hands over the chunk that is due, or nothing.
  Due : Session → Session × Outcome → Type 0
  Due s (s', chunk b) = (b ≡ c (pos s.next_seq)) × (s'.next_seq ≡ suc s.next_seq)
  Due s (s', _) = s'.next_seq ≡ s.next_seq

  read_upload-IsSound :
      (s : Session) → IsSound s → IsSound (read_upload s).0 × Due s (read_upload s)
  unfolding read_upload Due
  read_upload-IsSound s h = elim (Option-cases s.upload_buf) [
    | inl e ↦ ground arith
    | inr (m, e) ↦ elim (Option-cases (Chunks.lookup (pos s.next_seq) m)) [
      | inl f ↦ ground arith
      | inr (v, f) ↦ ground (
        arith,
        Chunks.delete-From c (pos s.next_seq) m,
        Chunks.lookup-From c (pos s.next_seq) m v,
      )
    ]
  ]

  -- A run that does not panic and hands over, in order, the chunks from the one that was due.
  record Ran (s : Session) (r : Option (Session × List Bytes)) : Type 0 where
    state : Session
    out : List Bytes
    result : r ≡ some (state, out)
    sound : IsSound state
    count : state.next_seq ≡ s.next_seq + length out
    order : out ≡ slice s.next_seq (length out)

  slice-append : (k m n j : ℕ) → j ≡ k + m → slice k m ++ slice j n ≡ slice k (m + n)
  slice-append k zero n j e =
      let e' : j ≡ k = omega arith in let f : n ≡ 0 + n = omega arith in ap₂ slice e' f
  slice-append k (suc m) n j e =
      let f : suc (m + n) ≡ suc m + n = omega arith in
      ap (◌∷◌ (c (pos k))) (slice-append (suc k) m n j (omega arith)) ∙ ap (slice k) f

  close-IsSound : (s : Session) → IsSound s → IsSound (close s)
  unfolding close
  close-IsSound s h = ground arith

  yield-Ran : (s : Session) (r : Session × Outcome) → IsSound r.0 → Due s r → Ran s (some (yield r))
  unfolding Due
  yield-Ran s (s', chunk b) h d = record {
    state = s';
    out = b ∷ [];
    result = refl;
    sound = h;
    count = omega arith;
    order = ap (λ x. x ∷ []) d.0;
  }
  yield-Ran s (s', ended) h d = record {
    state = s';
    out = [];
    result = refl;
    sound = h;
    count = omega arith;
    order = refl;
  }
  yield-Ran s (s', blocked) h d = record {
    state = s';
    out = [];
    result = refl;
    sound = h;
    count = omega arith;
    order = refl;
  }

  quiet-Ran : (s s' : Session) → IsSound s' → s'.next_seq ≡ s.next_seq → Ran s (some (s', []))
  quiet-Ran s s' h e = record {
    state = s';
    out = [];
    result = refl;
    sound = h;
    count = omega arith;
    order = refl;
  }

  step-Ran : (s : Session) (e : Event) → Agrees e → IsSound s → Ran s (step s e)
  unfolding step
  step-Ran s (pushes k b) a h =
      let (s', f, h', n) = push_upload-IsSound s k a h in rw (f, step) (quiet-Ran s s' h' n)
  step-Ran s reads a h = let d = read_upload-IsSound s h in yield-Ran s (read_upload s) d.0 d.1
  step-Ran s connects a h =
      quiet-Ran s _ (unfold mark_connected in h) (unfold mark_connected in refl)
  step-Ran s flips a h =
      quiet-Ran s _ (unfold ensure_stream_pipe in ground arith)
        (unfold ensure_stream_pipe in ground arith)
  step-Ran s drains a h =
      quiet-Ran s _ (unfold close_stream_upload in ground arith)
        (unfold close_stream_upload in ground arith)
  step-Ran s closes a h = quiet-Ran s _ (close-IsSound s h) (unfold close in ground arith)

  run-Ran : (s : Session) (es : List Event) → All Agrees es → IsSound s → Ran s (run s es)
  unfolding run
  run-Ran s [] a h = quiet-Ran s s h refl
  run-Ran s (e ∷ es) a h =
      let one = step-Ran s e a.0 h in
      let rest = run-Ran one.state es a.1 one.sound in
      rw (one.result, run)
        (rw (rest.result) (record {
          state = rest.state;
          out = one.out ++ rest.out;
          result = refl;
          sound = rest.sound;
          count = omega (arith, one.count, rest.count, length-append one.out rest.out);
          order =
              ap₂ ◌++◌ one.order rest.order
              ∙ slice-append s.next_seq (length one.out) (length rest.out) one.state.next_seq
                  one.count
              ∙ ap (slice s.next_seq) (sym (length-append one.out rest.out));
        }))

-- Whatever the order in which numbered chunks arrive, how often each is sent again, and when the
-- reader asks, the session connects, flips to stream mode or closes: nothing panics, and the reader
-- gets the chunks 0, 1, 2, … in order, none twice and none left out.
pub run-in_order :
    (c : ℤ → Bytes) (id now : ℕ) (bytes : ℤ) (es : List Event)
    → All (Agrees c) es
    → (s : Session) × (run (new_session id now bytes) es ≡ some (s, slice c 0 s.next_seq))
unfolding new_session
run-in_order c id now bytes es a =
    let r = run-Ran c (new_session id now bytes) es a tt in
    let e : length r.out ≡ r.state.next_seq = omega (arith, r.count) in
    (r.state, r.result ∙ ap (λ x. some (r.state, x)) (r.order ∙ ap (slice c 0) e))
