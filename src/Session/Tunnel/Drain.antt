-- ===== src/Session/Tunnel/Drain.antt =====
-- internal/session/manager.go: an upload of which every chunk has arrived is read to its end.
use nightveil.Prelude.{
  zero, ◌++◌, refl, inl, inr, Option-cases, Bool-cases, arith, ℕ, List, [], ◌∷◌, Option, some, ◌≡◌,
  ◌<◌, Bytes, ℤ, Option-cases, pos, false, ◌⊎◌, arith, suc, ◌==◌, ◌∙◌, All, ◌+◌, ◌≤◌, replicate,
  dec_lt,
}
use nightveil.Session.Chunks
use nightveil.Session.Chunks.{Chunks, lookup-insert, lookup-delete, same}
use nightveil.Session.Tunnel.{
  Session, new_session, push_upload, read_upload, mark_connected, close_stream_upload, pending,
}
use nightveil.Session.Tunnel.Upload.{
  Event, pushes, reads, connects, flips, drains, closes, step, run, Agrees, slice, run-in_order,
}

-- The events of a session that stays open and in packet mode.
abbrev pub IsPacket : Event → Type 0
IsPacket flips = ⊥
IsPacket closes = ⊥
IsPacket _ = Unit

-- Chunk `k` is pushed at least once.
abbrev pub Pushed : ℕ → List Event → Type 0
Pushed k [] = ⊥
Pushed k (pushes j b ∷ es) = (j ≡ pos k) ⊎ Pushed k es
Pushed k (_ ∷ es) = Pushed k es

abbrev IsOpen : Session → Type 0
IsOpen s =
    (m : Chunks) × (s.upload_buf ≡ some m) × (s.stream_mode ≡ false) × (s.upload_done ≡ false)

-- Chunk `k` has been read, or waits in the map.
abbrev IsAvailable : ℕ → Session → Type 0
IsAvailable k s = (k < s.next_seq) ⊎ ((v : Bytes) × (pending s.upload_buf k ≡ some v))

-- The event pushes chunk `k`.
abbrev Pushes : ℕ → Event → Type 0
Pushes k (pushes j b) = j ≡ pos k
Pushes k _ = ⊥

Pushed-cons : (k : ℕ) (e : Event) (es : List Event) → Pushed k (e ∷ es) → Pushes k e ⊎ Pushed k es
Pushed-cons k (pushes j b) es h = h
Pushed-cons k reads es h = inr h
Pushed-cons k connects es h = inr h
Pushed-cons k flips es h = inr h
Pushed-cons k drains es h = inr h
Pushed-cons k closes es h = inr h

-- What events do to an open session, where `New` says which chunks they push.
record Kept (New : ℕ → Type 0) (s : Session) (r : Option (Session × List Bytes)) : Type 0 where
  state : Session
  out : List Bytes
  result : r ≡ some (state, out)
  still_open : IsOpen state
  available : (k : ℕ) → IsAvailable k s → IsAvailable k state
  fresh : (k : ℕ) → New k → IsAvailable k state

-- A push leaves every chunk in reach, its own included.
IsAvailable-insert :
    (s : Session) (m : Chunks) (j : ℤ) (b : Bytes) (k : ℕ)
    → s.upload_buf ≡ some m
    → (j ≡ pos k) ⊎ IsAvailable k s
    → IsAvailable k (record s { upload_buf = some (Chunks.insert j b m) })
IsAvailable-insert s m j b k e (inl own) = inr (b, ground (arith, lookup-insert j (pos k) b m))
IsAvailable-insert s m j b k e (inr (inl past)) = inl past
IsAvailable-insert s m j b k e (inr (inr (v, h))) = elim (Bool-cases (same j (pos k))) [
  | inl hit ↦ inr (b, rw (lookup-insert j (pos k) b m, hit))
  | inr miss ↦ inr (v, rw (lookup-insert j (pos k) b m, miss) (ground arith))
]

-- A read leaves every chunk in reach.
IsAvailable-delete :
    (s : Session) (m : Chunks) (k : ℕ)
    → s.upload_buf ≡ some m
    → IsAvailable k s
    → IsAvailable k (record s {
      upload_buf = some (Chunks.delete (pos s.next_seq) m);
      next_seq = suc s.next_seq;
    })
IsAvailable-delete s m k e (inl past) = inl (omega arith)
IsAvailable-delete s m k e (inr (v, h)) = elim (Bool-cases (s.next_seq == k)) [
  | inl hit ↦ inl (ground arith)
  | inr miss ↦ inr (v, rw (lookup-delete (pos s.next_seq) (pos k) m, miss) (ground arith))
]

push-Kept :
    (s : Session) (j : ℤ) (b : Bytes) → IsOpen s → Kept (λ k. j ≡ pos k) s (step s (pushes j b))
unfolding step push_upload
push-Kept s j b (m, e, f, g) = record {
  state = record s { upload_buf = some (Chunks.insert j b m) };
  out = [];
  result = ground arith;
  still_open = (Chunks.insert j b m, refl, f, g);
  available = λ k a. IsAvailable-insert s m j b k e (inr a);
  fresh = λ k a. IsAvailable-insert s m j b k e (inl a);
}

-- A read keeps every chunk in reach, and moves on if the one that is due is there.
read-Kept :
    (s : Session)
    → IsOpen s
    → (r : Kept (λ k. ⊥) s (step s reads)) × (IsAvailable s.next_seq s
        → r.state.next_seq ≡ suc s.next_seq)
      × (s.next_seq ≤ r.state.next_seq)
unfolding step read_upload
read-Kept s (m, e, f, g) = elim (Option-cases (Chunks.lookup (pos s.next_seq) m)) [
  | inl h ↦ (
    record {
      state = s;
      out = [];
      result = ground arith;
      still_open = (m, e, f, g);
      available = λ k a. a;
      fresh = λ k a. absurd a;
    },
    ground arith,
    omega arith,
  )
  | inr (v, h) ↦ (
    record {
      state = record s {
        upload_buf = some (Chunks.delete (pos s.next_seq) m);
        next_seq = suc s.next_seq;
      };
      out = v ∷ [];
      result = ground arith;
      still_open = (_, refl, f, g);
      available = λ k a. IsAvailable-delete s m k e a;
      fresh = λ k a. absurd a;
    },
    λ a. refl,
    omega arith,
  )
]

-- Closing the pipe's writer leaves the upload queue alone.
close_stream_upload-queue :
    (s : Session)
    → let s' = close_stream_upload s in
      (s'.upload_buf ≡ s.upload_buf)
      × (s'.next_seq ≡ s.next_seq)
      × (s'.stream_mode ≡ s.stream_mode)
      × (s'.upload_done ≡ s.upload_done)
unfolding close_stream_upload
close_stream_upload-queue s = ground arith

step-Kept : (s : Session) (e : Event) → IsPacket e → IsOpen s → Kept (λ k. Pushes k e) s (step s e)
step-Kept s (pushes j b) p o = push-Kept s j b o
step-Kept s reads p o = (read-Kept s o).0
step-Kept s connects p o = record {
  state = mark_connected s;
  out = [];
  result = unfold step in refl;
  still_open = unfold mark_connected in o;
  available = unfold mark_connected in λ k a. a;
  fresh = λ k a. absurd a;
}
step-Kept s flips p o = absurd p
step-Kept s drains p (m, e, f, g) =
    let q = close_stream_upload-queue s in
    record {
      state = close_stream_upload s;
      out = [];
      result = unfold step in refl;
      still_open = (m, q.0 ∙ e, q.2 ∙ f, q.3 ∙ g);
      available = λ k a. rw (q.0, q.1) a;
      fresh = λ k a. absurd a;
    }
step-Kept s closes p o = absurd p

-- Enough reads reach the end of the chunks that are there.
reads-reach :
    (n m : ℕ) (s : Session)
    → IsOpen s
    → ((k : ℕ) → k < n → IsAvailable k s)
    → n ≤ s.next_seq + m
    → (s' : Session) × (out : List Bytes) × (run s (replicate m reads) ≡ some (s', out))
      × (n ≤ s'.next_seq)
unfolding run
reads-reach n zero s o all h = (s, [], refl, omega arith)
reads-reach n (suc m) s o all h =
    let (one, moves, grows) = read-Kept s o in
    let reach : n ≤ one.state.next_seq + m = elim (dec_lt s.next_seq n) [
      | yes below ↦ omega (arith, moves (all s.next_seq below))
      | no past ↦ omega arith
    ] in
    let (s', out, e, l) =
      reads-reach n m one.state one.still_open (λ k b. one.available k (all k b)) reach in
    (s', one.out ++ out, rw (one.result, run) (rw e), l)

-- The same after events that push the chunks that are not there yet.
events-reach :
    (n : ℕ) (s : Session) (es : List Event)
    → All IsPacket es
    → IsOpen s
    → ((k : ℕ) → k < n → IsAvailable k s ⊎ Pushed k es)
    → (s' : Session) × (out : List Bytes) × (run s (es ++ replicate n reads) ≡ some (s', out))
      × (n ≤ s'.next_seq)
unfolding run
events-reach n s [] p o all =
    reads-reach n n s o (λ k b. elim (all k b) [ inl a ↦ a | inr a ↦ absurd a ]) (omega arith)
events-reach n s (e ∷ es) (p, ps) o all =
    let one = step-Kept s e p o in
    let later : (k : ℕ) → k < n → IsAvailable k one.state ⊎ Pushed k es = λ k b. elim (all k b) [
      | inl a ↦ inl (one.available k a)
      | inr a ↦ elim (Pushed-cons k e es a) [
        | inl now ↦ inl (one.fresh k now)
        | inr rest ↦ inr rest
      ]
    ] in
    let (s', out, f, l) = events-reach n one.state es ps one.still_open later in
    (s', one.out ++ out, rw (one.result, run) (rw f), l)

-- One run ends in one state.
same_state :
    {n : ℕ} {r : Option (Session × List Bytes)} {s t : Session} {x y : List Bytes}
    → r ≡ some (s, x)
    → r ≡ some (t, y)
    → n ≤ t.next_seq
    → n ≤ s.next_seq
same_state e f l = ground arith

All-reads : (P : Event → Type 0) (n : ℕ) → P reads → All P (replicate n reads)
All-reads P zero h = tt
All-reads P (suc n) h = (h, All-reads P n h)

All-append : (P : Event → Type 0) (xs ys : List Event) → All P xs → All P ys → All P (xs ++ ys)
All-append P [] ys h k = k
All-append P (x ∷ xs) ys (h, hs) k = (h, All-append P xs ys hs k)

-- If each of the chunks 0, …, n - 1 is pushed at least once, in any order and among other reads,
-- while the session stays open and in packet mode, then `n` more reads bring the reader past all
-- of them: what it has got by then is the chunks in order, from 0 to at least n - 1.
pub run_complete :
    (c : ℤ → Bytes) (id now : ℕ) (bytes : ℤ) (n : ℕ) (es : List Event)
    → All (Agrees c) es
    → All IsPacket es
    → ((k : ℕ) → k < n → Pushed k es)
    → (s : Session) × (run (new_session id now bytes) (es ++ replicate n reads)
        ≡ some (s, slice c 0 s.next_seq))
      × (n ≤ s.next_seq)
unfolding new_session
run_complete c id now bytes n es a p all =
    let s₀ = new_session id now bytes in
    let (s, e) =
      run-in_order c id now bytes (es ++ replicate n reads)
        (All-append (Agrees c) es _ a (All-reads (Agrees c) n tt)) in
    let (t, out, f, l) = events-reach n s₀ es p ([], refl, refl, refl) (λ k b. inr (all k b)) in
    (s, e, same_state {n = n} e f l)
