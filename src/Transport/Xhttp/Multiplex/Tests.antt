-- ===== src/Transport/Xhttp/Multiplex/Tests.antt =====
-- internal/transport/xhttp/multiplex.go at concrete inputs.
use nightveil.Prelude.{
  Bytes, List, Option, [], arith, codes, none, pos, refl, some, ℕ, ◌+◌, ◌<◌, ◌==◌, ◌≡◌, ◌∷◌,
  if◌then◌else◌, ◌≤◌,
}
use nightveil.Transport.Xhttp.Config.{Config}
use nightveil.Transport.Xhttp.Client
use nightveil.Transport.Xhttp.Client.{Answers, ClientConn}
use nightveil.Transport.Xhttp.Multiplex.{
  Others, Semaphore, acquire, blocks, new_semaphore, release, resize, returns, runs_on, write,
}
use nightveil.Transport.Xhttp.Multiplex.Posting.{write_zero}
use nightveil.Transport.Xhttp.Multiplex.Rounds.{IsSmooth}
use nightveil.Transport.Xhttp.Multiplex.Resizing
use nightveil.Transport.Xhttp.Multiplex.Resizing.{
  gives, release-resize, resizes, run-bounded, takes,
}

-- No other writes, and no resize; the post with number 8 is refused.
abbrev refusing : Others
refusing = record {
  answer = λ k. if k == 8 then some 5 else none;
  before = λ _ s. s;
  during = λ _ s. s;
}

abbrev accepting : Others
accepting = record { answer = λ _. none; before = λ _ s. s; during = λ _ s. s }

accepting-IsSmooth : IsSmooth accepting
accepting-IsSmooth = record { token = λ _ s h. h; room = λ _ s h. h }

abbrev one : Semaphore
one = record { capacity = 1; tokens = 1 }

write_test :
    write (pos 2) 5 refusing one 7 (1 ∷ 2 ∷ 3 ∷ 4 ∷ 5 ∷ [])
    ≡ returns (record { posts = (7, 1 ∷ 2 ∷ []) ∷ (8, 3 ∷ 4 ∷ []) ∷ []; count = 2; error = some 5 })
unfolding write acquire release
write_test = refl

-- The size goes from 1 to 4 while the first post is under way: its token has no place.
abbrev resizing : Others
resizing = record { answer = λ _. none; before = λ _ s. s; during = λ _ s. resize s 4 }

resizing_test : write (pos 2) 5 resizing one 7 (1 ∷ 2 ∷ 3 ∷ []) ≡ blocks ((7, 1 ∷ 2 ∷ []) ∷ [])
unfolding write acquire release resize
resizing_test = refl

write_zero_example : write (pos 0) 100 accepting one 7 (1 ∷ 2 ∷ []) ≡ runs_on
write_zero_example =
    write_zero accepting accepting-IsSmooth (λ _. refl) 100 one 7 1 (2 ∷ [])
      (omega arith, omega arith)

abbrev config : Config
config = record {
  path_prefix = [];
  upload_path = [];
  download_path = [];
  session_key_name = [];
  max_chunk_size = pos 2;
  session_timeout = pos 30;
  download_buffer_bytes = pos 100;
  upload_mode = codes "packet";
}

abbrev fine : Answers
fine = record { posted = none ∷ none ∷ []; piped = (0, none) }

run-bounded_example :
    let s = Resizing.run (new_semaphore 4) (takes ∷ resizes 2 ∷ gives ∷ takes ∷ gives ∷ []) in
    s.tokens ≤ s.capacity
run-bounded_example =
    run-bounded (new_semaphore 4) (takes ∷ resizes 2 ∷ gives ∷ takes ∷ gives ∷ [])
      (unfold new_semaphore in omega arith)

release-resize_example :
    (s : Semaphore) × (acquire (new_semaphore 1) ≡ some s) × (release (resize s 4) ≡ none)
release-resize_example = release-resize 1 4 (omega arith) (omega arith)
