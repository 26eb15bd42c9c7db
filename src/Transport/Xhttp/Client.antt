-- ===== src/Transport/Xhttp/Client.antt =====
-- internal/transport/xhttp/client.go: a connection of the client. What the HTTP client answers is an
-- argument; an error is a number. `brokenOnce` and `closeOnce` are the fields that they guard.
pub mod Upload
pub mod EndToEnd
pub mod Reading
pub mod Tests
use nightveil.Prelude.{
  Bool, Bytes, List, Option, [], codes, false, if◌then◌else◌, leb, leb_ℤ, length, none, pieces, pos,
  pos_part, some, suc, true, zero, ℕ, ℤ, ◌&&◌, ◌+◌, ◌==◌, ◌∷◌, drop, ltb, min, take,
}
use nightveil.Transport.Xhttp.Config.{Config}

pub data UploadMode : Type 0 where
  packet stream : UploadMode

abbrev pub same_text : Bytes → Bytes → Bool
same_text [] [] = true
same_text [] (y ∷ ys) = false
same_text (x ∷ xs) [] = false
same_text (x ∷ xs) (y ∷ ys) = x == y && same_text xs ys

-- `is_http2` is what `isHTTP2Transport` finds, and false where there is no HTTP client.
unfoldable pub resolve_upload_mode : Bytes → Bool → UploadMode
resolve_upload_mode configured is_http2 =
    if same_text configured (codes "stream")
    then stream
    else if same_text configured (codes "packet")
    then packet
    else if is_http2
    then stream
    else packet

-- `clientConn`. `body` is `downloadBody`: what the open body of a GET still
-- has to give.
pub record ClientConn : Type 0 where
  pub max_chunk_size : ℤ
  pub upload_mode : UploadMode
  pub upload_seq : ℕ
  pub body : Option Bytes
  pub download_offset : ℕ
  pub broken : Option ℕ
  pub closed : Bool

unfoldable pub new_conn : Config → Bool → ClientConn
unfolding resolve_upload_mode
new_conn c is_http2 = record {
  max_chunk_size = c.max_chunk_size;
  upload_mode = resolve_upload_mode c.upload_mode is_http2;
  upload_seq = 0;
  body = none;
  download_offset = 0;
  broken = none;
  closed = false;
}

-- `Close`: the download's body is closed, and stays in its field.
unfoldable pub close : ClientConn → ClientConn
close c = record c { closed = true }

unfoldable pub mark_broken : ClientConn → ℕ → ClientConn
unfolding close
mark_broken c e = elim c.broken [ some _ ↦ c | none ↦ close (record c { broken = some e }) ]

-- The size of the chunks in `Write`.
unfoldable pub max_chunk : ClientConn → ℕ
max_chunk c = if leb_ℤ c.max_chunk_size (pos 0) then 65_536 else pos_part c.max_chunk_size

-- A POST: its sequence number and its body.
abbrev pub Post : Type 0
Post = ℕ × Bytes

-- The chunks with their numbers from `seq` on.
unfoldable pub number : ℕ → List Bytes → List Post
number seq [] = []
number seq (p ∷ ps) = (seq, p) ∷ number (suc seq) ps

-- The first error among as many answers as there are posts, in the order of their arrival.
unfoldable pub first_error : ℕ → List (Option ℕ) → Option ℕ
first_error zero answers = none
first_error (suc n) [] = none
first_error (suc n) (some e ∷ answers) = some e
first_error (suc n) (none ∷ answers) = first_error n answers

-- What the other side does during a `Write`: the answers to the posts as they arrive, and, in the
-- stream mode, how many bytes the pipe takes and its error.
pub record Answers : Type 0 where
  pub posted : List (Option ℕ)
  pub piped : ℕ × Option ℕ

-- What a `Write` returns, and the posts that it makes.
pub record Written : Type 0 where
  pub posts : List Post
  pub count : ℕ
  pub error : Option ℕ

-- Both ways of the packet mode: one chunk, which may be empty, or a pipeline.
abbrev pub chunks_of : ℕ → Bytes → List Bytes
chunks_of size p =
    let many = pieces size (length p) p in if leb (length p) size then p ∷ [] else many

unfoldable pub finish : ClientConn → List Post → ℕ → Option ℕ → ClientConn × Written
unfolding mark_broken
finish c posts n none = (c, record { posts = posts; count = n; error = none })
finish c posts n (some e) = (mark_broken c e, record { posts = posts; count = 0; error = some e })

unfoldable pub write_packet : ClientConn → Bytes → Answers → ClientConn × Written
unfolding finish
write_packet c p a =
    let chunks = chunks_of (max_chunk c) p in
    finish (record c { upload_seq = c.upload_seq + length chunks }) (number c.upload_seq chunks)
      (length p) (first_error (length chunks) a.posted)

unfoldable pub write_stream : ClientConn → Answers → ClientConn × Written
unfolding mark_broken
write_stream c a =
    let result : Written = record { posts = []; count = a.piped.0; error = a.piped.1 } in
    elim a.piped.1 [ none ↦ (c, result) | some e ↦ (mark_broken c e, result) ]

unfoldable pub write : ClientConn → Bytes → Answers → ClientConn × Written
unfolding write_packet write_stream
write c p a = elim c.broken [
  | some e ↦ (c, record { posts = []; count = 0; error = some e })
  | none ↦ elim c.upload_mode [ stream ↦ write_stream c a | packet ↦ write_packet c p a ]
]

-- The error that `Read` makes of a GET's, `io.EOF`, or one that is passed on.
pub data ReadError : Type 0 where
  reconnect_failed : ℕ → ReadError
  eof : ReadError
  passed_on : ℕ → ReadError

-- What the other side does in a round of the loop of `Read`: the error of the GET, if one is made;
-- how many bytes the body has ready; and the error that it has where it gives none.
pub record Round : Type 0 where
  pub get_error : Option ℕ
  pub ready : ℕ
  pub body_error : Option ℕ

-- A round returns from `Read`, or goes on with the next one.
pub data RoundEnd : Type 0 where
  returns : ClientConn → Bytes → Option ReadError → RoundEnd
  continues : ClientConn → RoundEnd

-- `startDownload`, where `serve off` is what the body of the answer to a GET with that `off` gives.
pub data Started : Type 0 where
  got_body : ClientConn → Bytes → Started
  refused : ℕ → Started

unfoldable pub start_download : (ℕ → Bytes) → ClientConn → Option ℕ → Started
start_download serve c none =
    let body = serve c.download_offset in got_body (record c { body = some body }) body
start_download serve c (some e) = refused e

-- `retries < 2`, or the last of the three rounds.
unfoldable pub retry_or : ℕ → ClientConn → ReadError → RoundEnd
retry_or retries c e = if ltb retries 2 then continues c else returns c [] (some e)

unfoldable pub after_error : ℕ → ClientConn → Option ℕ → RoundEnd
unfolding retry_or
after_error retries c none = continues c
after_error retries c (some e) = retry_or retries (record c { body = none }) (passed_on e)

-- A read of the body into `room` bytes, and what is made of it.
unfoldable pub read_body : ℕ → ℕ → ClientConn → Bytes → Round → RoundEnd
unfolding after_error
read_body room retries c body r =
    let n = min room r.ready in
    let got = take n body in
    if ltb 0 (length got)
    then returns
        (record c { body = some (drop n body); download_offset = c.download_offset + length got })
        got none
    else after_error retries c r.body_error

unfoldable pub after_start : ℕ → ℕ → ClientConn → Started → Round → RoundEnd
unfolding read_body retry_or
after_start room retries c (got_body c' body) r = read_body room retries c' body r
after_start room retries c (refused e) r = retry_or retries c (reconnect_failed e)

-- One round, and the number of GETs that it makes.
unfoldable pub read_round : (ℕ → Bytes) → ℕ → ℕ → ClientConn → Option Bytes → Round → RoundEnd × ℕ
unfolding read_body after_start start_download
read_round serve room retries c (some body) r = (read_body room retries c body r, 0)
read_round serve room retries c none r =
    (after_start room retries c (start_download serve c r.get_error) r, 1)

-- The loop of `Read` with `left` rounds to go: the connection, the bytes that are returned with the
-- error, and the number of GETs that were made.
unfoldable pub read_loop :
    (ℕ → Bytes) → ℕ → (ℕ → Round) → ℕ → ℕ → ClientConn → (ClientConn × Bytes × Option ReadError) × ℕ
unfolding read_round
read_loop serve room rounds zero retries c = ((c, [], some eof), 0)
read_loop serve room rounds (suc left) retries c =
    let (end, gets) = read_round serve room retries c c.body (rounds retries) in
    elim end [
      | returns c' got e ↦ ((c', got, e), gets)
      | continues c' ↦
          let (r, n) = read_loop serve room rounds left (suc retries) c' in (r, gets + n)
    ]

unfoldable pub read :
    (ℕ → Bytes) → ClientConn → ℕ → (ℕ → Round) → (ClientConn × Bytes × Option ReadError) × ℕ
unfolding read_loop
read serve c room rounds = elim c.broken [
  | some e ↦ ((c, [], some (passed_on e)), 0)
  | none ↦ read_loop serve room rounds 3 0 c
]
