-- ===== src/Transport/Xhttp/Client/Tests.antt =====
-- internal/transport/xhttp/client.go at concrete inputs.
use nightveil.Transport.Xhttp.Client.Reading.{reads-exact, read_lem}
use nightveil.Prelude.{
  Bytes, List, Option, [], none, refl, some, ℕ, ◌∷◌, ◌≡◌, All, ℤ, pos, arith, length, ◌<◌, codes,
  replicate, Bool, false, zero, suc, ◌++◌, concat, ◌≤◌, pos_part, ◌+ℤ◌, ap, inl, inr, pieces, ◌↔◌,
  length-replicate, drop, if◌then◌else◌, ◌==◌,
}
use nightveil.Session.Tunnel.{Session, new_session}
use nightveil.Session.Tunnel.Upload.{Event, pushes, reads, connects, run}
use nightveil.Session.Tunnel.Drain.{Pushed}
use nightveil.Transport.Xhttp.Config.{Config}
use nightveil.Transport.Xhttp.Client
use nightveil.Transport.Xhttp.Client.{
  Answers, ClientConn, Post, Round, new_conn, write, max_chunk, packet,
}
use nightveil.Transport.Xhttp.Client.Upload.{writes, posts_of}
use nightveil.Transport.Xhttp.Client.Reading
use nightveil.Transport.Xhttp.Upload.{received, read_limited}
use nightveil.Transport.Xhttp.Client.EndToEnd
use nightveil.Transport.Xhttp.Client.EndToEnd.{Delivers, writes-run}

abbrev config : Config
config = record {
  path_prefix = [];
  upload_path = [];
  download_path = [];
  session_key_name = [];
  max_chunk_size = pos 2;
  session_timeout = pos 30;
  download_buffer_bytes = pos 100;
  upload_mode = codes "packet";
}

abbrev conn : ClientConn
conn = new_conn config false

abbrev fine : Answers
fine = record { posted = none ∷ none ∷ []; piped = (0, none) }

abbrev two_writes : List (Bytes × Answers)
two_writes = (1 ∷ 2 ∷ 3 ∷ [], fine) ∷ (4 ∷ [], fine) ∷ []

-- A number in unary stands for `strconv.FormatInt`.
abbrev format_int : ℕ → Bytes
format_int n = replicate n 49

abbrev parse_int : Bytes → Option ℤ
parse_int s = some (pos (length s))

format_int_lem : (n : ℕ) → parse_int (format_int n) ≡ some (pos n)
format_int_lem n = ap (λ k. some (pos k)) (length-replicate n 49)

-- The posts arrive in another order, one of them twice.
abbrev arrivals : List Event
arrivals =
    pushes (pos 2) (4 ∷ [])
    ∷ pushes (pos 0) (1 ∷ 2 ∷ [])
    ∷ reads
    ∷ pushes (pos 1) (3 ∷ [])
    ∷ pushes (pos 1) (3 ∷ [])
    ∷ connects
    ∷ []

posts_test : posts_of (writes conn two_writes).1 ≡ (0, 1 ∷ 2 ∷ []) ∷ (1, 3 ∷ []) ∷ (2, 4 ∷ []) ∷ []
unfolding writes write max_chunk new_conn Client.first_error nightveil.Prelude.pieces Client.number
posts_test = refl

delivered :
    All (Delivers format_int parse_int (pos 2) (posts_of (writes conn two_writes).1)) arrivals
unfolding writes write max_chunk new_conn Client.first_error nightveil.Prelude.pieces Client.number
    ◌+ℤ◌ EndToEnd.request_for received read_limited
delivered =
    let again : Delivers format_int parse_int (pos 2) (posts_of (writes conn two_writes).1)
        (pushes (pos 1) (3 ∷ [])) =
      (1, (1, 3 ∷ []), refl, refl) in
    (
      (2, (2, 4 ∷ []), refl, refl),
      ((0, (0, 1 ∷ 2 ∷ []), refl, refl), (tt, (again, (again, (tt, tt))))),
    )

arrivals-Pushed : (k : ℕ) → k < 3 → Pushed k arrivals
arrivals-Pushed zero h = inr (inl refl)
arrivals-Pushed (suc zero) h = inr (inr (inl refl))
arrivals-Pushed (suc (suc zero)) h = inl refl
arrivals-Pushed (suc (suc (suc k))) h = absurd (omega arith)

writes-run_example :
    (s : Session) × (out : List Bytes) × (run
        (new_session 7 0 (pos 100))
        (arrivals ++ replicate 3 reads)
      ≡ some (s, out))
    × (concat out ≡ 1 ∷ 2 ∷ 3 ∷ 4 ∷ [])
unfolding writes write max_chunk new_conn Client.first_error nightveil.Prelude.pieces Client.number
    ◌+ℤ◌
writes-run_example =
    writes-run format_int parse_int format_int_lem conn two_writes (pos 2) 7 0 (pos 100) arrivals
      refl refl refl refl (omega arith) delivered (tt, (tt, (tt, (tt, (tt, (tt, tt))))))
      arrivals-Pushed

abbrev stream : Bytes
stream = 10 ∷ 11 ∷ 12 ∷ 13 ∷ []

abbrev serve : ℕ → Bytes
serve off = drop off stream

-- The GET or body of round 0 fails; the next gives two bytes.
abbrev broken_off : ℕ → Round
broken_off retries = record {
  get_error = if retries == 0 then some 5 else none;
  ready = if retries == 0 then 0 else 2;
  body_error = some 6;
}

reads-exact_example :
    let (c', got) = Reading.reads serve conn ((9, broken_off) ∷ (9, broken_off) ∷ []) in
    (got ≡ 10 ∷ 11 ∷ 12 ∷ 13 ∷ []) × (c'.download_offset ≡ 4)
unfolding Reading.reads Client.read new_conn
reads-exact_example =
    reads-exact stream serve (λ off. refl) conn ((9, broken_off) ∷ (9, broken_off) ∷ []) refl

read_lem_example :
    ((Client.read serve conn 9 broken_off).1 ≤ 3)
    × ((0 < length (Client.read serve conn 9 broken_off).0.1)
        ↔ ((Client.read serve conn 9 broken_off).0.2 ≡ none))
unfolding new_conn
read_lem_example = read_lem stream serve (λ off. refl) conn 9 broken_off refl
