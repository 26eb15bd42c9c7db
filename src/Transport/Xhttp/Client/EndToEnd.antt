-- ===== src/Transport/Xhttp/Client/EndToEnd.antt =====
-- internal/transport/xhttp: what the client writes in packet mode, posted to `handleUpload` and read
-- from the session of internal/session/manager.go.
use nightveil.Prelude.{
  Bytes, List, Option, [], length, none, refl, some, ℕ, ◌+◌, ◌++◌, ◌∷◌, ◌≡◌, concat, ◌∙◌, ap, ap₂,
  arith, suc, zero, All, ◌<◌, ◌≤◌, sym, false, get_or, get_elem?, ok, Result, pos, negsuc, ℤ,
  pos_part, ◌+ℤ◌, replicate, take_ge,
}
use nightveil.Session.Tunnel.{Session, new_session}
use nightveil.Session.Tunnel.Upload.{
  Event, pushes, reads, connects, flips, drains, closes, run, slice, Agrees,
}
use nightveil.Session.Tunnel.Drain.{IsPacket, Pushed, run_complete}
use nightveil.Transport.Xhttp.Upload.{Request, post, received, read_limited}
use nightveil.Transport.Xhttp.Client.{Answers, ClientConn, Post, number, packet, max_chunk}
use nightveil.Transport.Xhttp.Client.Upload.{inputs, posts_of, writes, writes-Streamed}

get_elem?-number :
    (seq : ℕ) (xs : List Bytes) (k : ℕ) (p : Post)
    → get_elem? (number seq xs) k ≡ some p
    → p ≡ (seq + k, get_or xs k [])
unfolding number
get_elem?-number seq [] k p h = cc
get_elem?-number seq (x ∷ xs) zero p h = ground arith
get_elem?-number seq (x ∷ xs) (suc k) p h =
    let e : suc seq + k ≡ seq + suc k = omega arith in
    get_elem?-number (suc seq) xs k p h ∙ ap (λ j. (j, get_or xs k [])) e

length-number : (seq : ℕ) (xs : List Bytes) → length (number seq xs) ≡ length xs
unfolding number
length-number seq [] = refl
length-number seq (x ∷ xs) = ap suc (length-number (suc seq) xs)

get_or-All :
    (n : ℕ) (xs : List Bytes) (k : ℕ) → All (λ b. length b ≤ n) xs → length (get_or xs k []) ≤ n
get_or-All n [] k h = omega arith
get_or-All n (x ∷ xs) zero h = h.0
get_or-All n (x ∷ xs) (suc k) h = get_or-All n xs k h.1

concat-slice_head :
    (c : ℤ → Bytes) (k : ℕ) (xs : List Bytes)
    → ((i : ℕ) → c (pos (k + i)) ≡ get_or xs i [])
    → c (pos k) ≡ get_or xs 0 []
concat-slice_head c k xs f = let e : k ≡ k + 0 = omega arith in ap (λ j. c (pos j)) e ∙ f 0

concat-slice_tail :
    (c : ℤ → Bytes) (k : ℕ) (xs ys : List Bytes)
    → ((i : ℕ) → c (pos (k + i)) ≡ get_or xs i [])
    → ((i : ℕ) → get_or xs (suc i) [] ≡ get_or ys i [])
    → (i : ℕ) → c (pos (suc k + i)) ≡ get_or ys i []
concat-slice_tail c k xs ys f g i =
    let e : suc k + i ≡ k + suc i = omega arith in ap (λ j. c (pos j)) e ∙ f (suc i) ∙ g i

concat-slice :
    (c : ℤ → Bytes) (k n : ℕ) (xs : List Bytes)
    → ((i : ℕ) → c (pos (k + i)) ≡ get_or xs i [])
    → length xs ≤ n
    → concat (slice c k n) ≡ concat xs
concat-slice c k zero [] f h = refl
concat-slice c k zero (x ∷ xs) f h = absurd (omega arith)
concat-slice c k (suc n) [] f h =
    ap₂ ◌++◌ (concat-slice_head c k [] f)
      (concat-slice c (suc k) n [] (concat-slice_tail c k [] [] f (λ i. refl)) (omega arith))
concat-slice c k (suc n) (x ∷ xs) f h =
    ap₂ ◌++◌ (concat-slice_head c k (x ∷ xs) f)
      (concat-slice c (suc k) n xs (concat-slice_tail c k (x ∷ xs) xs f (λ i. refl)) (omega arith))

ok_parts :
    {j k : ℤ} {b d : Bytes} {r s : Result ℕ (ℤ × Bytes)}
    → r ≡ s
    → r ≡ ok (j, b)
    → s ≡ ok (k, d)
    → (j ≡ k) × (b ≡ d)
ok_parts h p q = (cc, cc)

-- The chunks by number, as the session knows them.
abbrev numbered : List Bytes → ℤ → Bytes
numbered xs (pos k) = get_or xs k []
numbered xs (negsuc k) = []

-- What `handleUpload` pushes of a request whose number parses and whose body is within the limit.
received_whole :
    (parse_int : Bytes → Option ℤ) (m : ℤ) (r : Request) {n : ℤ}
    → parse_int r.seq ≡ some n
    → r.body_fails ≡ false
    → length r.body ≤ pos_part (m +ℤ pos 1024)
    → received parse_int m r ≡ ok (n, r.body)
unfolding received read_limited
received_whole parse_int m r h f l = ground (arith, take_ge (pos_part (m +ℤ pos 1024)) r.body l)

module _ (format_int : ℕ → Bytes) (parse_int : Bytes → Option ℤ) where
  -- The request of `postChunkWithSeq`.
  unfoldable pub request_for : Post → Request
  request_for (seq, bytes) = record {
    method = post;
    stream = false;
    seq = format_int seq;
    body = bytes;
    body_fails = false;
  }

  -- What a session meets: a push is that of the handler for one of the posts.
  abbrev pub Delivers : ℤ → List Post → Event → Type 0
  Delivers max_chunk_size posts (pushes j b) =
      (i : ℕ) × (p : Post) × (get_elem? posts i ≡ some p)
      × (received parse_int max_chunk_size (request_for p) ≡ ok (j, b))
  Delivers max_chunk_size posts _ = Unit

  module _ (laws : (n : ℕ) → parse_int (format_int n) ≡ some (pos n)) where
    -- The handler takes the whole body of a post that is within the limit.
    received-request_for :
        (m : ℤ) (p : Post)
        → length p.1 ≤ pos_part (m +ℤ pos 1024)
        → received parse_int m (request_for p) ≡ ok (pos p.0, p.1)
    unfolding request_for
    received-request_for m p h = received_whole parse_int m (request_for p) (laws p.0) refl h

    Delivers-Agrees :
        (m : ℤ) (xs : List Bytes) (e : Event)
        → All (λ b. length b ≤ pos_part (m +ℤ pos 1024)) xs
        → Delivers m (number 0 xs) e
        → Agrees (numbered xs) e
    Delivers-Agrees m xs (pushes j b) small (i, p, at, got) =
        let e = get_elem?-number 0 xs i p at in
        let fits : length p.1 ≤ pos_part (m +ℤ pos 1024) =
          rw (ap (λ q. length q.1) e) (get_or-All (pos_part (m +ℤ pos 1024)) xs i small) in
        let (at_j, at_b) = ok_parts refl got (received-request_for m p fits) in
        let zero_i : 0 + i ≡ i = omega arith in
        let index : j ≡ pos i = at_j ∙ ap (λ q. pos q.0) e ∙ ap pos zero_i in
        at_b ∙ ap (λ q. q.1) e ∙ ap (numbered xs) (sym index)
    Delivers-Agrees m xs reads small d = tt
    Delivers-Agrees m xs connects small d = tt
    Delivers-Agrees m xs flips small d = tt
    Delivers-Agrees m xs drains small d = tt
    Delivers-Agrees m xs closes small d = tt

    All-Delivers :
        (m : ℤ) (xs : List Bytes) (es : List Event)
        → All (λ b. length b ≤ pos_part (m +ℤ pos 1024)) xs
        → All (Delivers m (number 0 xs)) es
        → All (Agrees (numbered xs)) es
    All-Delivers m xs [] small d = tt
    All-Delivers m xs (e ∷ es) small d =
        (Delivers-Agrees m xs e small d.0, All-Delivers m xs es small d.1)

    All_le :
        (m n : ℕ) (xs : List Bytes)
        → m ≤ n
        → All (λ b. length b ≤ m) xs
        → All (λ b. length b ≤ n) xs
    All_le m n [] h a = tt
    All_le m n (x ∷ xs) h a = (omega (arith, a.0), All_le m n xs h a.1)

    -- A row of writes in packet mode from the start of a connection that does not break. Each of
    -- its posts reaches the server's handler at least once, in any order, repeated or not and
    -- between reads, in a session that stays open and in packet mode; the chunks are within the
    -- server's limit. Then as many more reads as there were posts give the session's reader, in
    -- one piece after the other, exactly the bytes that the client wrote.
    pub writes-run :
        (c : ClientConn) (rs : List (Bytes × Answers)) (m : ℤ) (id now : ℕ) (bytes : ℤ)
        (es : List Event)
        → c.broken ≡ none
        → c.upload_mode ≡ packet
        → c.upload_seq ≡ 0
        → (writes c rs).0.broken ≡ none
        → max_chunk c ≤ pos_part (m +ℤ pos 1024)
        → let posts = posts_of (writes c rs).1 in
          All (Delivers m posts) es
          → All IsPacket es
          → ((k : ℕ) → k < length posts → Pushed k es)
          → (s : Session) × (out : List Bytes) × (run
                (new_session id now bytes)
                (es ++ replicate (length posts) reads)
              ≡ some (s, out))
            × (concat out ≡ concat (inputs rs))
    writes-run c rs m id now bytes es h k z w l d p all =
        let t = writes-Streamed c rs h k w in
        let xs = t.chunks in
        let e : posts_of (writes c rs).1 ≡ number 0 xs = t.numbered ∙ ap (λ q. number q xs) z in
        let small = All_le (max_chunk c) (pos_part (m +ℤ pos 1024)) xs l t.small in
        let agrees = All-Delivers m xs es small (rw⁻¹ e d) in
        let (s, r, n) =
          run_complete (numbered xs) id now bytes (length (posts_of (writes c rs).1)) es agrees p
            all in
        let long : length xs ≤ s.next_seq = omega (arith, ap length e, length-number 0 xs, n) in
        (
          s,
          _,
          r,
          concat-slice (numbered xs) 0 s.next_seq xs
                (λ i. let e : 0 + i ≡ i = omega arith in ap (λ k. get_or xs k []) e) long
              ∙ t.whole,
        )
