-- ===== src/Security/Peek/Reads.antt =====
-- internal/security/reality.go: what reads give after a peek.
use nightveil.Prelude.{
  Bool-cases, Bytes, List, [], ap, append_assoc, arith, drop, drop-drop, drop_ge, inl, inr, leb,
  length, length-take, ltb, min, refl, sym, take, take-append-drop, ℕ, ◌+◌, ◌++◌, ◌<◌, ◌∙◌, ◌∷◌,
  ◌≡◌, ◌≤◌, suc, zero, false,
}
use nightveil.Security.Peek.{PeekConn, new_peek_conn, peek, read}

-- What the connection has still to give.
abbrev pub unread : PeekConn → Bytes
unread pc = drop pc.read pc.peeked ++ pc.inner

-- A row of reads, each with its room and with what is ready.
unfoldable pub reads : PeekConn → List (ℕ × ℕ) → PeekConn × Bytes
reads pc [] = (pc, [])
reads pc ((room, available) ∷ more) =
    let (pc₁, got) = read pc room available in
    let (pc₂, rest) = reads pc₁ more in (pc₂, got ++ rest)

take-append-rest : (n : ℕ) (xs : Bytes) → take n xs ++ drop (length (take n xs)) xs ≡ xs
take-append-rest zero xs = refl
take-append-rest (suc n) [] = refl
take-append-rest (suc n) (x ∷ xs) = ap (λ ys. x ∷ ys) (take-append-rest n xs)

read-unread :
    (pc : PeekConn) (room available : ℕ)
    → (read pc room available).1 ++ unread (read pc room available).0 ≡ unread pc
unfolding read
read-unread pc room available = elim (Bool-cases (ltb pc.read (length pc.peeked))) [
  | inl e ↦
      let tail = drop pc.read pc.peeked in
      let got = take room tail in
      let rest = drop-drop pc.read (length got) (pc.read + length got) pc.peeked refl in
      rw e (
        sym (append_assoc got (drop (pc.read + length got) pc.peeked) pc.inner)
        ∙ ap (λ d. d ++ pc.inner) (ap (λ d. got ++ d) (sym rest) ∙ take-append-rest room tail))
  | inr e ↦
      let used : drop pc.read pc.peeked ≡ [] = drop_ge pc.read pc.peeked (ground arith) in
      let k = min room available in
      rw e (
        ap (λ d. take k pc.inner ++ (d ++ drop k pc.inner)) used
        ∙ take-append-drop k pc.inner
        ∙ ap (λ d. d ++ pc.inner) (sym used))
]

-- What reads return and what is left make up what there was.
reads-unread :
    (pc : PeekConn) (rs : List (ℕ × ℕ)) → (reads pc rs).1 ++ unread (reads pc rs).0 ≡ unread pc
unfolding reads
reads-unread pc [] = refl
reads-unread pc ((room, available) ∷ rs) =
    let one = read pc room available in
    append_assoc one.1 (reads one.0 rs).1 (unread (reads one.0 rs).0)
    ∙ ap (λ d. one.1 ++ d) (reads-unread one.0 rs)
    ∙ read-unread pc room available

-- A peek for more than there is in the buffer.
peek_more :
    (pc : PeekConn) (n available : ℕ)
    → length pc.peeked < n
    → peek pc n available ≡ (
      record pc {
        inner = drop (min n available) pc.inner;
        peeked = take (min n available) pc.inner;
      },
      take (min n available) pc.inner,
      ltb (length (take (min n available) pc.inner)) n,
    )
unfolding peek
peek_more pc n available h =
    let more : leb n (length pc.peeked) ≡ false = ground arith in rw more refl

unread-peek_more :
    (pc : PeekConn) (n available : ℕ)
    → pc.read ≡ 0
    → length pc.peeked < n
    → unread (peek pc n available).0 ≡ pc.inner
unread-peek_more pc n available r h =
    let k = min n available in
    ap (λ p. unread p.0) (peek_more pc n available h)
    ∙ ap (λ j. drop j (take k pc.inner) ++ drop k pc.inner) r
    ∙ take-append-drop k pc.inner

-- A first peek returns a prefix of the stream, and takes nothing away: it and any reads after it
-- return together exactly a prefix of the stream, and what is left then is the rest of it.
pub reads-peek :
    (stream : Bytes) (n available : ℕ) (rs : List (ℕ × ℕ))
    → let (pc, got, failed) = peek (new_peek_conn stream) n available in
      let (pc', out) = reads pc rs in
      (out ++ unread pc' ≡ stream) × (got ≡ take (min n available) stream)
unfolding new_peek_conn
reads-peek stream zero available rs =
    unfold peek in
    (
      reads-unread (new_peek_conn stream) rs,
      let none_yet : 0 ≡ min 0 available = omega arith in ap (λ k. take k stream) none_yet,
    )
reads-peek stream (suc n) available rs =
    let start = new_peek_conn stream in
    (
      reads-unread (peek start (suc n) available).0 rs
          ∙ unread-peek_more start (suc n) available refl (omega arith),
      ap (λ p. p.1) (peek_more start (suc n) available (omega arith)),
    )

dropped-peek :
    (stream : Bytes) (n m available : ℕ)
    → n < m
    → n ≤ available
    → n ≤ length stream
    → unread (peek (peek (new_peek_conn stream) n available).0 m available).0 ≡ drop n stream
unfolding new_peek_conn
dropped-peek stream zero m available h k l =
    unfold peek in unread-peek_more (new_peek_conn stream) m available refl (omega arith)
dropped-peek stream (suc n) m available h k l =
    let start = new_peek_conn stream in
    let first = peek_more start (suc n) available (omega arith) in
    let cut : min (suc n) available ≡ suc n = omega arith in
    let pc = (peek start (suc n) available).0 in
    let short : length pc.peeked < m =
      omega
        (arith, ap (λ p. length p.0.peeked) first, length-take (min (suc n) available) stream) in
    unread-peek_more pc m available (ap (λ p. p.0.read) first) short
    ∙ ap (λ p. p.0.inner) first
    ∙ ap (λ j. drop j stream) cut

-- A first peek for `n` bytes that gets them, then a second one for more: whatever reads follow return, with what is left after them, is the
-- stream without its first `n` bytes.
pub peek-peek :
    (stream : Bytes) (n m available : ℕ) (rs : List (ℕ × ℕ))
    → n < m
    → n ≤ available
    → n ≤ length stream
    → let (pc, got, failed) = peek (peek (new_peek_conn stream) n available).0 m available in
      let (pc', out) = reads pc rs in out ++ unread pc' ≡ drop n stream
peek-peek stream n m available rs h k l =
    reads-unread (peek (peek (new_peek_conn stream) n available).0 m available).0 rs
    ∙ dropped-peek stream n m available h k l
