-- ===== src/Transport/Xhttp/Download/Resume.antt =====
-- What reaches the client over GETs that break and resume.
use nightveil.Prelude.{
  Bool-cases, Bytes, [], ap, append_assoc, arith, drop, drop-append_self, inl, inr, leb, length,
  ltb_ℤ, pos, refl, some, sym, take, take-append-drop, ℕ, ◌++◌, ◌+◌, ◌-◌, ◌∙◌, ◌∷◌, ◌≡◌, Option,
  Option-cases, append-nil, length-append, ltb, none, pos_part, List, ℤ,
}
use nightveil.Session.Download.{
  closes, Read, Buffer, Call, window_size, advance, writes, advances, reads,
}
use nightveil.Session.Download.Stream
use nightveil.Session.Download.Stream.{Stream, empty}
use nightveil.Session.Download.Refine.{
  Represents, read_from-Represents, new_sized-Represents, step-Represents, advance-Represents,
}
use nightveil.Transport.Xhttp.Download.{
  World, Event, polls, arrives, breaks, gets, new_world, step, run, poll, start_offset, buf_size,
  absorb, settle, write_failed, count, is_written, calls, flushed, writable,
}

-- `p` is where the sequence starts, and `rest` how it goes on.
pub record IsPrefix (p whole : Bytes) : Type 0 where
  pub rest : Bytes
  pub joined : p ++ rest ≡ whole

-- A read at the end of a prefix: it copies some of what comes next, and tells the offset after it.
record IsPiece (off : ℕ) (rest : Bytes) (r : Read) : Type 0 where
  room : ℕ
  copied : r.copied ≡ take room rest
  offset : r.offset ≡ pos (off + length r.copied)

add_zero : (n : ℕ) → n ≡ n + 0
add_zero n = omega arith

fetch-IsPiece :
    (window : ℕ) (s : Stream) (p rest : Bytes)
    → p ++ rest ≡ s.written
    → IsPiece (length p) rest (Stream.fetch window s (pos (length p)) buf_size)
unfolding Stream.fetch
fetch-IsPiece window s p rest e =
    elim (Bool-cases (ltb_ℤ (pos (length p)) (pos (s.delivered - window)))) [
      | inl old ↦ rw old (record { room = 0; copied = refl; offset = ap pos (add_zero (length p)) })
      | inr _old ↦ elim (Bool-cases (leb (length s.written) (length p))) [
        | inl over ↦
            rw (_old, over)
              (record { room = 0; copied = refl; offset = ap pos (add_zero (length p)) })
        | inr more ↦
            rw (_old, more)
              (record {
                room = buf_size;
                copied =
                    ap (take buf_size) (ap (drop (length p)) (sym e) ∙ drop-append_self p rest);
                offset = refl;
              })
      ]
    ]

-- The bytes on their way to the client follow those that it has, and the GET goes on after them.
record Follows (w : World) : Type 0 where
  prefix : IsPrefix (w.received ++ w.in_flight) w.written
  here : (off : ℕ) → w.get ≡ some off → off ≡ length (w.received ++ w.in_flight)

record Good (window : ℕ) (w : World) : Type 0 where
  stream : Stream
  rep : Represents window w.buffer stream
  same : stream.written ≡ w.written
  follows : Follows w

IsPrefix-append :
    (p piece rest whole : Bytes) (k : ℕ)
    → p ++ rest ≡ whole
    → piece ≡ take k rest
    → IsPrefix (p ++ piece) whole
IsPrefix-append p piece rest whole k e f = record {
  rest = drop k rest;
  joined =
      ap (λ x. (p ++ x) ++ drop k rest) f
      ∙ append_assoc p (take k rest) (drop k rest)
      ∙ ap (λ x. p ++ x) (take-append-drop k rest)
      ∙ e;
}

IsPrefix-left : (p q whole : Bytes) → IsPrefix (p ++ q) whole → IsPrefix p whole
IsPrefix-left p q whole h = record {
  rest = q ++ h.rest;
  joined = sym (append_assoc p q h.rest) ∙ h.joined;
}

IsPrefix-more : (p whole more : Bytes) → IsPrefix p whole → IsPrefix p (whole ++ more)
IsPrefix-more p whole more h = record {
  rest = h.rest ++ more;
  joined = sym (append_assoc p h.rest more) ∙ ap (λ x. x ++ more) h.joined;
}

start_offset-length : (xs : Bytes) → start_offset (some (pos (length xs))) ≡ length xs
unfolding start_offset
start_offset-length [] = refl
start_offset-length (x ∷ xs) = ground arith

step-written :
    (window : ℕ) (db : Buffer) (s : Stream) (c : Call)
    → db.done ≡ s.done
    → (Stream.step window s c).0.written ≡ s.written ++ is_written db c
unfolding Stream.step
step-written window db s (writes p) e = elim (Bool-cases s.done) [
  | inl d ↦ rw (e, d) (sym (append-nil s.written))
  | inr d ↦ rw (e, d) refl
]
step-written window db s (advances off) e = sym (append-nil s.written)
step-written window db s closes e = sym (append-nil s.written)
step-written window db s (reads off room) e = sym (append-nil s.written)

abbrev sent : World → Bytes
sent w = w.received ++ w.in_flight

module _ (grow : ℕ → ℕ → ℕ) {window : ℕ} where
  calls-Good : (w : World) (c : Call) → Good window w → Good window (step grow w (calls c))
  unfolding step
  calls-Good w c g = record {
    stream = (Stream.step window g.stream c).0;
    rep = (step-Represents grow w.buffer g.stream c g.rep).0;
    same =
        step-written window w.buffer g.stream c g.rep.closed
        ∙ ap (λ x. x ++ is_written w.buffer c) g.same;
    follows = record {
      prefix = IsPrefix-more (sent w) w.written (is_written w.buffer c) g.follows.prefix;
      here = g.follows.here;
    };
  }

  -- The handler's write goes through.
  flushed-Good :
      (w : World) (r : Read) (g : Good window w)
      → IsPiece (length (sent w)) g.follows.prefix.rest r
      → Good window (absorb w 0 (advance w.buffer r.offset, flushed r.copied (pos_part r.offset)))
  unfolding absorb
  flushed-Good w r g piece =
      let h = g.follows.prefix in
      let both = append_assoc w.received w.in_flight r.copied in
      let whole =
        IsPrefix-append (sent w) r.copied h.rest w.written piece.room h.joined piece.copied in
      record {
        stream = (Stream.step window g.stream (advances r.offset)).0;
        rep = advance-Represents grow w.buffer g.stream r.offset g.rep;
        same = unfold Stream.step in g.same;
        follows = record {
          prefix = rw both at whole;
          here = λ off e.
              let e' : pos_part r.offset ≡ off = cc e in
              sym e'
              ∙ ap pos_part piece.offset
              ∙ sym (length-append (sent w) r.copied)
              ∙ ap length both;
        };
      }

  -- It fails after some bytes.
  failed-Good :
      (w : World) (k : ℕ) (r : Read) (g : Good window w)
      → IsPiece (length (sent w)) g.follows.prefix.rest r
      → Good window (absorb w k (w.buffer, write_failed r.copied))
  unfolding absorb
  failed-Good w k r g piece =
      let h = g.follows.prefix in
      let whole =
        IsPrefix-append (sent w) r.copied h.rest w.written piece.room h.joined piece.copied in
      let cut =
        ap (λ x. sent w ++ x) (sym (take-append-drop k r.copied))
        ∙ sym (append_assoc (sent w) (take k r.copied) (drop k r.copied)) in
      let whole' = rw cut at whole in
      let start = IsPrefix-left (sent w ++ take k r.copied) (drop k r.copied) w.written whole' in
      record {
        stream = g.stream;
        rep = g.rep;
        same = g.same;
        follows = record {
          prefix = rw (append_assoc w.received w.in_flight (take k r.copied)) at start;
          here = λ off e. absurd (cc e);
        };
      }

  -- It returns without a write.
  stopped-Good : (w : World) → Good window w → Good window (record w { get = none })
  stopped-Good w g = record {
    stream = g.stream;
    rep = g.rep;
    same = g.same;
    follows = record { prefix = g.follows.prefix; here = λ off e. absurd (cc e) };
  }

  settle-Good :
      (w : World) (o : Option ℕ) (r : Read) (g : Good window w)
      → IsPiece (length (sent w)) g.follows.prefix.rest r
      → Good window (absorb w (count o) (settle w.buffer r (writable o)))
  unfolding settle absorb
  settle-Good w none r g piece = elim (Bool-cases (ltb 0 (length r.copied))) [
    | inl some_ ↦ rw some_ (flushed-Good w r g piece)
    | inr none_ ↦ elim (Option-cases r.error) [
      | inl silent ↦
          rw (none_, silent)
            (record { stream = g.stream; rep = g.rep; same = g.same; follows = g.follows })
      | inr (e, told) ↦ rw (none_, told) (stopped-Good w g)
    ]
  ]
  settle-Good w (some k) r g piece = elim (Bool-cases (ltb 0 (length r.copied))) [
    | inl some_ ↦ rw some_ (failed-Good w k r g piece)
    | inr none_ ↦ elim (Option-cases r.error) [
      | inl silent ↦
          rw (none_, silent)
            (record { stream = g.stream; rep = g.rep; same = g.same; follows = g.follows })
      | inr (e, told) ↦ rw (none_, told) (stopped-Good w g)
    ]
  ]

  -- An iteration of the GET at this offset, if there is one.
  polled-Good :
      (w : World) (o : Option ℕ) (at_ : Option ℕ)
      → w.get ≡ at_
      → Good window w
      → Good window (elim at_ as (λ x. World) [
        | none ↦ w
        | some off ↦ absorb w (count o) (poll w.buffer off (writable o))
      ])
  unfolding poll
  polled-Good w o none e g = g
  polled-Good w o (some off) e g =
      let h = g.follows.prefix in
      let piece = fetch-IsPiece window g.stream (sent w) h.rest (h.joined ∙ sym g.same) in
      let read =
        read_from-Represents grow w.buffer g.stream (pos (length (sent w))) buf_size g.rep in
      rw (g.follows.here off e, read) (settle-Good w o _ g piece)

  polls-Good : (w : World) (o : Option ℕ) → Good window w → Good window (step grow w (polls o))
  unfolding step
  polls-Good w o g = polled-Good w o w.get refl g

  arrives-Good : (w : World) (k : ℕ) → Good window w → Good window (step grow w (arrives k))
  unfolding step
  arrives-Good w k g =
      let moved =
        append_assoc w.received (take k w.in_flight) (drop k w.in_flight)
        ∙ ap (λ x. w.received ++ x) (take-append-drop k w.in_flight) in
      record {
        stream = g.stream;
        rep = g.rep;
        same = g.same;
        follows = record {
          prefix = rw (sym moved) at g.follows.prefix;
          here = λ off e. g.follows.here off e ∙ ap length (sym moved);
        };
      }

  breaks-Good : (w : World) → Good window w → Good window (step grow w breaks)
  unfolding step
  breaks-Good w g = record {
    stream = g.stream;
    rep = g.rep;
    same = g.same;
    follows = record {
      prefix =
          let left = IsPrefix-left w.received w.in_flight w.written g.follows.prefix in
          rw (append-nil w.received) left;
      here = λ off e. absurd (cc e);
    };
  }

  gets-Good : (w : World) → Good window w → Good window (step grow w gets)
  unfolding step
  gets-Good w g = record {
    stream = g.stream;
    rep = g.rep;
    same = g.same;
    follows = record {
      prefix =
          let left = IsPrefix-left w.received w.in_flight w.written g.follows.prefix in
          rw (append-nil w.received) left;
      here = λ off e.
          let e' : start_offset (some (pos (length w.received))) ≡ off = cc e in
          sym e' ∙ start_offset-length w.received ∙ ap length (sym (append-nil w.received));
    };
  }

  step-Good : (w : World) (e : Event) → Good window w → Good window (step grow w e)
  step-Good w (calls c) g = calls-Good w c g
  step-Good w (polls o) g = polls-Good w o g
  step-Good w (arrives k) g = arrives-Good w k g
  step-Good w breaks g = breaks-Good w g
  step-Good w gets g = gets-Good w g

  run-Good : (w : World) (es : List Event) → Good window w → Good window (run grow w es)
  unfolding run
  run-Good w [] g = g
  run-Good w (e ∷ es) g = run-Good (step grow w e) es (step-Good w e g)

new_world-Good : (n : ℤ) → Good (window_size n) (new_world n)
unfolding new_world
new_world-Good n = record {
  stream = empty;
  rep = new_sized-Represents n;
  same = refl;
  follows = record { prefix = record { rest = []; joined = refl }; here = λ off e. absurd (cc e) };
}

-- What the client has read is always the start of what the relay has written, without a gap and
-- without a repetition: whatever is written, advanced and closed, in whatever order GETs are made,
-- break, fail in the middle of a write and resume, and however the runtime grows slices.
pub received-run :
    (grow : ℕ → ℕ → ℕ) (n : ℤ) (es : List Event)
    → let w = run grow (new_world n) es in IsPrefix w.received w.written
received-run grow n es =
    let w = run grow (new_world n) es in
    let g = run-Good grow (new_world n) es (new_world-Good n) in
    IsPrefix-left w.received w.in_flight w.written g.follows.prefix
