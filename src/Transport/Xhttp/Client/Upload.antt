-- ===== src/Transport/Xhttp/Client/Upload.antt =====
-- internal/transport/xhttp/client.go: what a row of `Write`s posts.
use nightveil.Prelude.{
  Bytes, List, [], length, none, refl, some, ℕ, ◌+◌, ◌++◌, ◌∷◌, ◌≡◌, map, concat, concat-pieces,
  ◌∙◌, ap, arith, tests, suc, All, pieces-All, leb, Bool-cases, inl, inr, ◌<◌, ◌≤◌, sym, append-nil,
  concat-append, Option-cases, ◌⊎◌, All-append, ap₂,
}
use nightveil.Transport.Xhttp.Client.{
  Answers, ClientConn, Post, Written, chunks_of, close, finish, first_error, mark_broken, max_chunk,
  number, packet, write, write_packet, write_stream,
}

-- A row of `Write`s, each with what the other side does during it.
unfoldable pub writes : ClientConn → List (Bytes × Answers) → ClientConn × List Written
writes c [] = (c, [])
writes c ((p, a) ∷ more) =
    let (c₁, w) = write c p a in let (c₂, ws) = writes c₁ more in (c₂, w ∷ ws)

abbrev pub posts_of : List Written → List Post
posts_of [] = []
posts_of (w ∷ ws) = w.posts ++ posts_of ws

abbrev pub inputs : List (Bytes × Answers) → List Bytes
inputs rs = map (λ r. r.0) rs

-- A write that returns how many bytes it was given, and no error.
abbrev pub Took : Bytes → Written → Type 0
Took p w = (w.count ≡ length p) × (w.error ≡ none)

abbrev pub AllTook : List (Bytes × Answers) → List Written → Type 0
AllTook [] [] = Unit
AllTook [] (w ∷ ws) = ⊥
AllTook (r ∷ rs) [] = ⊥
AllTook (r ∷ rs) (w ∷ ws) = Took r.0 w × AllTook rs ws

number-append :
    (seq : ℕ) (xs ys : List Bytes)
    → number seq (xs ++ ys) ≡ number seq xs ++ number (seq + length xs) ys
unfolding number
number-append seq [] ys = let e : seq ≡ seq + 0 = omega arith in ap (λ k. number k ys) e
number-append seq (x ∷ xs) ys =
    let e : suc seq + length xs ≡ seq + suc (length xs) = omega arith in
    ap (λ ps. (seq, x) ∷ ps)
      (number-append (suc seq) xs ys ∙ ap (λ k. number (suc seq) xs ++ number k ys) e)

concat-chunks_of : (size : ℕ) (p : Bytes) → 0 < size → concat (chunks_of size p) ≡ p
concat-chunks_of size p h = elim (Bool-cases (leb (length p) size)) [
  | inl e ↦ rw e (append-nil p)
  | inr e ↦ rw e (concat-pieces size (length p) p h (omega arith))
]

chunks_of-All : (size : ℕ) (p : Bytes) → All (λ b. length b ≤ size) (chunks_of size p)
chunks_of-All size p = elim (Bool-cases (leb (length p) size)) [
  | inl e ↦ rw e (omega tests, tt)
  | inr e ↦ rw e (pieces-All size (length p) p)
]

pub max_chunk-pos : (c : ClientConn) → 0 < max_chunk c
unfolding max_chunk
max_chunk-pos c = ground arith

-- A write on a broken connection changes nothing.
pub write-broken :
    (c : ClientConn) (p : Bytes) (a : Answers) {e : ℕ}
    → c.broken ≡ some e
    → write c p a ≡ (c, record { posts = []; count = 0; error = some e })
unfolding write
write-broken c p a h = rw h refl

abbrev refusals : ℕ → List (Bytes × Answers) → List Written
refusals e [] = []
refusals e (r ∷ rs) = record { posts = []; count = 0; error = some e } ∷ refusals e rs

writes-broken :
    (c : ClientConn) (rs : List (Bytes × Answers)) {e : ℕ}
    → c.broken ≡ some e
    → writes c rs ≡ (c, refusals e rs)
unfolding writes
writes-broken c [] h = refl
writes-broken c ((p, a) ∷ rs) {e} h = rw (write-broken c p a h) (
    ap
      (λ (r : ClientConn × List Written).
        (r.0, record { posts = []; count = 0; error = some e } ∷ r.1))
      (writes-broken c rs h))

-- The outcome of a write in the packet mode on a connection that works, by the posts' answers.
pub write-packet :
    (c : ClientConn) (p : Bytes) (a : Answers)
    → c.broken ≡ none
    → c.upload_mode ≡ packet
    → write c p a ≡ write_packet c p a
unfolding write
write-packet c p a h m = simp (write, h, m) refl

-- What a failed write leaves.
pub write-error :
    (c : ClientConn) (p : Bytes) (a : Answers) (e : ℕ)
    → (write c p a).1.error ≡ some e
    → (write c p a).0.broken ≡ some e
unfolding write write_packet write_stream finish mark_broken close
write-error c p a e h = ground arith

-- What an accepted row of writes posts.
pub record Streamed (size seq : ℕ) (rs : List (Bytes × Answers)) (ws : List Written) : Type 0 where
  pub chunks : List Bytes
  pub numbered : posts_of ws ≡ number seq chunks
  pub whole : concat chunks ≡ concat (inputs rs)
  pub small : All (λ b. length b ≤ size) chunks
  pub took : AllTook rs ws

-- One write in the packet mode: it breaks the connection, or it took everything.
write_packet-cases :
    (c : ClientConn) (p : Bytes) (a : Answers)
    → ((e : ℕ) × ((write_packet c p a).0.broken ≡ some e))
      ⊎ ((write_packet c p a ≡ (
        record c { upload_seq = c.upload_seq + length (chunks_of (max_chunk c) p) },
        record {
          posts = number c.upload_seq (chunks_of (max_chunk c) p);
          count = length p;
          error = none;
        },
      )))
unfolding write_packet finish mark_broken close
write_packet-cases c p a =
    let chunks = chunks_of (max_chunk c) p in
    elim (Option-cases (first_error (length chunks) a.posted)) [
      | inl h ↦ inr (rw h refl)
      | inr (e, h) ↦ elim (Option-cases c.broken) [
        | inl k ↦ inl (e, simp (h, k) refl)
        | inr (e', k) ↦ inl (e', simp (h, k) refl)
      ]
    ]

-- As long as the connection does not break, all of a row of writes is posted.
pub writes-Streamed :
    (c : ClientConn) (rs : List (Bytes × Answers))
    → c.broken ≡ none
    → c.upload_mode ≡ packet
    → (writes c rs).0.broken ≡ none
    → Streamed (max_chunk c) c.upload_seq rs (writes c rs).1
unfolding writes number max_chunk
writes-Streamed c [] h m w = record {
  chunks = [];
  numbered = refl;
  whole = refl;
  small = tt;
  took = tt;
}
writes-Streamed c ((p, a) ∷ rs) h m w = elim (write_packet-cases c p a) [
  | inl (e, b) ↦
      let same = ap (λ r. (writes r.0 rs).0.broken) (write-packet c p a h m) in
      let stays = ap (λ r. r.0.broken) (writes-broken (write_packet c p a).0 rs b) in
      let clash : none ≡ some e = sym w ∙ same ∙ stays ∙ b in cc
  | inr took ↦
      let now = write-packet c p a h m ∙ took in
      let chunks = chunks_of (max_chunk c) p in
      let next = record c { upload_seq = c.upload_seq + length chunks } in
      let w' : (writes next rs).0.broken ≡ none =
        sym (ap (λ r. (writes r.0 rs).0.broken) now) ∙ w in
      let rest = writes-Streamed next rs h m w' in
      rw now (record {
        chunks = chunks ++ rest.chunks;
        numbered =
            ap (λ ps. number c.upload_seq chunks ++ ps) rest.numbered
            ∙ sym (number-append c.upload_seq chunks rest.chunks);
        whole =
            concat-append chunks rest.chunks
            ∙ ap₂ ◌++◌ (concat-chunks_of (max_chunk c) p (max_chunk-pos c)) rest.whole;
        small =
            All-append (λ b. length b ≤ max_chunk c) chunks rest.chunks
              (chunks_of-All (max_chunk c) p) rest.small;
        took = ((refl, refl), rest.took);
      })
]
