-- ===== src/Transport/Xhttp/Client/Reading.antt =====
-- internal/transport/xhttp/client.go: what a row of `Read`s returns over GETs that break off.
use nightveil.Prelude.{
  Bytes, List, Option, [], length, none, refl, some, ℕ, ◌+◌, ◌++◌, ◌∷◌, ◌≡◌, ◌∙◌, ap, ap₂, arith,
  suc, zero, take, drop, ◌<◌, ◌≤◌, sym, drop-drop, inl, inr, Option-cases, ◌↔◌, length-append,
  take-take-drop, Bool-cases, ltb, min,
}
use mathlib.Core.Path.{subst}
use nightveil.Transport.Xhttp.Client.{
  ClientConn, ReadError, Round, RoundEnd, after_error, after_start, continues, eof, passed_on, read,
  read_body, read_loop, read_round, reconnect_failed, retry_or, returns, start_download,
}

-- A row of reads, each with the room of its slice and what the other side does, and the bytes that
-- they return.
unfoldable pub reads : (ℕ → Bytes) → ClientConn → List (ℕ × (ℕ → Round)) → ClientConn × Bytes
reads serve c [] = (c, [])
reads serve c ((room, rounds) ∷ more) =
    let (c₁, got, e) = (read serve c room rounds).0 in
    let (c₂, rest) = reads serve c₁ more in (c₂, got ++ rest)

take-length-take : (n : ℕ) (xs : Bytes) → take n xs ≡ take (length (take n xs)) xs
take-length-take zero xs = refl
take-length-take (suc n) [] = refl
take-length-take (suc n) (x ∷ xs) = ap (λ ys. x ∷ ys) (take-length-take n xs)

drop-length-take : (n : ℕ) (xs : Bytes) → drop n xs ≡ drop (length (take n xs)) xs
drop-length-take zero xs = refl
drop-length-take (suc n) [] = refl
drop-length-take (suc n) (x ∷ xs) = drop-length-take n xs

module _ (stream : Bytes) where
  -- An open body has the rest of the stream from the offset on.
  abbrev Resumes : ℕ → Option Bytes → Type 0
  Resumes offset none = Unit
  Resumes offset (some body) = body ≡ drop offset stream

  record Good (c c' : ClientConn) (got : Bytes) (e : Option ReadError) : Type 0 where
    pub exact : got ≡ take (length got) (drop c.download_offset stream)
    pub moved : c'.download_offset ≡ c.download_offset + length got
    pub resumes : Resumes c'.download_offset c'.body
    pub outcome : (0 < length got) ↔ (e ≡ none)

  -- What a round leaves.
  abbrev GoodEnd : ClientConn → RoundEnd → Type 0
  GoodEnd c (returns c' got e) = Good c c' got e
  GoodEnd c (continues c') =
      (c'.download_offset ≡ c.download_offset) × Resumes c'.download_offset c'.body

  quiet-Good :
      (c c' : ClientConn) (e : ReadError)
      → c'.download_offset ≡ c.download_offset
      → Resumes c'.download_offset c'.body
      → Good c c' [] (some e)
  quiet-Good c c' e h r = record {
    exact = refl;
    moved = omega (arith, h);
    resumes = r;
    outcome = ((λ k. absurd (omega arith)), (λ k. cc));
  }

  retry_or-GoodEnd :
      (retries : ℕ) (c c' : ClientConn) (e : ReadError)
      → c'.download_offset ≡ c.download_offset
      → Resumes c'.download_offset c'.body
      → GoodEnd c (retry_or retries c' e)
  unfolding retry_or
  retry_or-GoodEnd retries c c' e h r = elim (Bool-cases (ltb retries 2)) [
    | inl again ↦ rw again (h, r)
    | inr last ↦ rw last (quiet-Good c c' e h r)
  ]

  after_error-GoodEnd :
      (retries : ℕ) (c c' : ClientConn) (e : Option ℕ)
      → c'.download_offset ≡ c.download_offset
      → Resumes c'.download_offset c'.body
      → GoodEnd c (after_error retries c' e)
  unfolding after_error
  after_error-GoodEnd retries c c' none h r = (h, r)
  after_error-GoodEnd retries c c' (some e) h r =
      retry_or-GoodEnd retries c (record c' { body = none }) (passed_on e) h tt

  read_body-GoodEnd :
      (room retries : ℕ) (c c' : ClientConn) (body : Bytes) (r : Round)
      → c'.download_offset ≡ c.download_offset
      → Resumes c'.download_offset c'.body
      → body ≡ drop c'.download_offset stream
      → GoodEnd c (read_body room retries c' body r)
  unfolding read_body
  read_body-GoodEnd room retries c c' body r h k b =
      let n = min room r.ready in
      let got = take n body in
      let after = c'.download_offset + length got in
      elim (Bool-cases (ltb 0 (length got))) [
        | inr nothing ↦ rw nothing (after_error-GoodEnd retries c c' r.body_error h k)
        | inl some_bytes ↦ rw some_bytes (record {
          exact = take-length-take n body ∙ ap (take (length got)) (b ∙ ap (λ j. drop j stream) h);
          moved = ap (λ j. j + length got) h;
          resumes =
              drop-length-take n body
              ∙ ap (drop (length got)) b
              ∙ drop-drop c'.download_offset (length got) after stream refl;
          outcome = ((λ _. refl), (λ _. ground arith));
        })
      ]

  module _ (serve : ℕ → Bytes) (serves : (off : ℕ) → serve off ≡ drop off stream) where
    after_start-GoodEnd :
        (room retries : ℕ) (c : ClientConn) (e : Option ℕ) (r : Round)
        → c.body ≡ none
        → GoodEnd c (after_start room retries c (start_download serve c e) r)
    unfolding after_start start_download
    after_start-GoodEnd room retries c none r h =
        let body = serve c.download_offset in
        let opened : ClientConn = record c { body = some body } in
        read_body-GoodEnd room retries c opened body r refl (serves c.download_offset)
          (serves c.download_offset)
    after_start-GoodEnd room retries c (some e) r h =
        retry_or-GoodEnd retries c c (reconnect_failed e) refl
          (subst (Resumes c.download_offset) (sym h) tt)

    read_round-GoodEnd :
        (room retries : ℕ) (c : ClientConn) (b : Option Bytes) (r : Round)
        → c.body ≡ b
        → Resumes c.download_offset c.body
        → let (end, gets) = read_round serve room retries c b r in GoodEnd c end × (gets ≤ 1)
    unfolding read_round
    read_round-GoodEnd room retries c none r e h =
        (after_start-GoodEnd room retries c r.get_error r e, omega arith)
    read_round-GoodEnd room retries c (some body) r e h = (
      read_body-GoodEnd room retries c c body r refl h (subst (Resumes c.download_offset) e h),
      omega arith,
    )

    abbrev GoodRead : ClientConn → ℕ → (ClientConn × Bytes × Option ReadError) × ℕ → Type 0
    GoodRead c left r = Good c r.0.0 r.0.1 r.0.2 × (r.1 ≤ left)

    -- A round, then the rest of the loop.
    join :
        (c : ClientConn) (left : ℕ) (end : RoundEnd) (gets : ℕ)
        (rest : ClientConn → (ClientConn × Bytes × Option ReadError) × ℕ)
        → GoodEnd c end
        → gets ≤ 1
        → ((c' : ClientConn) → Resumes c'.download_offset c'.body → GoodRead c' left (rest c'))
        → GoodRead c (suc left) (elim end as (λ _. (ClientConn × Bytes × Option ReadError) × ℕ) [
          | returns c' got e ↦ ((c', got, e), gets)
          | continues c' ↦ ((rest c').0, gets + (rest c').1)
        ])
    join c left (returns c' got e) gets rest g k h = (g, omega arith)
    join c left (continues c') gets rest (same, g) k h =
        let (later, few) = h c' g in
        (
          record {
            exact = later.exact ∙ ap (λ j. take (length (rest c').0.1) (drop j stream)) same;
            moved = omega (arith, later.moved, same);
            resumes = later.resumes;
            outcome = later.outcome;
          },
          omega arith,
        )

    read_loop-Good :
        (room : ℕ) (rounds : ℕ → Round) (left retries : ℕ) (c : ClientConn)
        → Resumes c.download_offset c.body
        → GoodRead c left (read_loop serve room rounds left retries c)
    unfolding read_loop
    read_loop-Good room rounds zero retries c h = (quiet-Good c c eof refl h, omega arith)
    read_loop-Good room rounds (suc left) retries c h =
        let (end, gets) = read_round serve room retries c c.body (rounds retries) in
        let (good, few) = read_round-GoodEnd room retries c c.body (rounds retries) refl h in
        join c left end gets (read_loop serve room rounds left (suc retries)) good few
          (read_loop-Good room rounds left (suc retries))

    read-Good :
        (c : ClientConn) (room : ℕ) (rounds : ℕ → Round)
        → Resumes c.download_offset c.body
        → GoodRead c 3 (read serve c room rounds)
    unfolding read
    read-Good c room rounds h = elim (Option-cases c.broken) [
      | inl e ↦ simp (read, e) (read_loop-Good room rounds 3 0 c h)
      | inr (x, e) ↦ simp (read, e) (quiet-Good c c (passed_on x) refl h, omega arith)
    ]

    -- Two stretches of the stream that adjoin.
    stretch :
        (n m : ℕ) (xs ys : Bytes)
        → xs ≡ take (length xs) (drop n stream)
        → m ≡ n + length xs
        → ys ≡ take (length ys) (drop m stream)
        → xs ++ ys ≡ take (length (xs ++ ys)) (drop n stream)
    stretch n m xs ys h e k =
        let k' = k ∙ ap (take (length ys)) (sym (drop-drop n (length xs) m stream e)) in
        ap₂ ◌++◌ h k'
        ∙ take-take-drop (length xs) (length ys) (length (xs ++ ys)) (drop n stream)
            (length-append xs ys)

    reads-Good :
        (c : ClientConn) (runs : List (ℕ × (ℕ → Round)))
        → Resumes c.download_offset c.body
        → let (c', got) = reads serve c runs in
          (got ≡ take (length got) (drop c.download_offset stream))
          × (c'.download_offset ≡ c.download_offset + length got)
    unfolding reads
    reads-Good c [] h = (refl, omega arith)
    reads-Good c ((room, rounds) ∷ more) h =
        let one = (read-Good c room rounds h).0 in
        let r = (read serve c room rounds).0 in
        let (rest, moved) = reads-Good r.0 more one.resumes in
        (
          stretch c.download_offset _ _ _ one.exact one.moved rest,
          omega (arith, one.moved, moved, length-append r.1 (reads serve r.0 more).1),
        )

    -- A server answers a GET for an offset with the stream from that offset on. Then the bytes that a
    -- row of reads returns, of a connection that has no body open at first, are those of the stream
    -- from the connection's offset on, none twice and none left out, and the offset ends right behind
    -- them: for any sizes of the reads, and however often the GETs fail or their bodies break off.
    pub reads-exact :
        (c : ClientConn) (runs : List (ℕ × (ℕ → Round)))
        → c.body ≡ none
        → let (c', got) = reads serve c runs in
          (got ≡ take (length got) (drop c.download_offset stream))
          × (c'.download_offset ≡ c.download_offset + length got)
    reads-exact c runs h = reads-Good c runs (subst (Resumes c.download_offset) (sym h) tt)

    -- A `Read` makes at most three GETs, and returns bytes exactly when it returns no error.
    pub read_lem :
        (c : ClientConn) (room : ℕ) (rounds : ℕ → Round)
        → c.body ≡ none
        → ((read serve c room rounds).1 ≤ 3)
          × ((0 < length (read serve c room rounds).0.1) ↔ ((read serve c room rounds).0.2 ≡ none))
    read_lem c room rounds h =
        let g = read-Good c room rounds (subst (Resumes c.download_offset) (sym h) tt) in
        (g.1, g.0.outcome)
