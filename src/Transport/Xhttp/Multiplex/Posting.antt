-- ===== src/Transport/Xhttp/Multiplex/Posting.antt =====
-- internal/transport/xhttp/multiplex.go: what `Write` posts, and when it ends.
use nightveil.Prelude.{
  Bytes, List, Option, [], concat, length, none, pos, refl, some, suc, zero, ℕ, ◌++◌, ◌+◌, ◌<◌, ◌∙◌,
  ◌∷◌, ◌≡◌, ◌⊎◌, ap₂,
}
use nightveil.Transport.Xhttp.Client.{Post, UploadMode, number}
use nightveil.Transport.Xhttp.Client
use nightveil.Transport.Xhttp.Multiplex.Rounds.{HasToken, IsSmooth, round_of, write_loop_round}
use nightveil.Transport.Xhttp.Multiplex.{
  Others, Outcome, Semaphore, Written, after_post, returns, runs_on, write, write_loop,
}

-- How a `Write` ended: all of it is posted and counted; or the last post was refused, and the count
-- is that of the bytes before it.
pub record Posted (answer : ℕ → Option ℕ) (seq written : ℕ) (p : Bytes) (o : Outcome) : Type 0 where
  pub result : Written
  pub chunks : List Bytes
  pub left : Bytes
  pub outcome : o ≡ returns result
  pub numbered : result.posts ≡ number seq chunks
  pub prefix : concat chunks ++ left ≡ p
  pub ending :
      ((result.error ≡ none) × (left ≡ []) × (result.count ≡ written + length p))
      ⊎ ((e : ℕ) × (last : ℕ) × (result.error ≡ some e)
          × (answer last ≡ some e)
          × (seq + length chunks ≡ suc last)
          × (result.count < written + length p))

-- Every post is accepted.
abbrev pub Accepts : Others → Type 0
Accepts o = (seq : ℕ) → o.answer seq ≡ none

write_loop_zero :
    (o : Others) (smooth : IsSmooth o) (accepts : Accepts o) (fuel : ℕ) (sem : Semaphore)
    (seq written x : ℕ) (p : Bytes)
    → HasToken sem
    → write_loop 0 fuel o sem seq written (x ∷ p) ≡ runs_on
unfolding write_loop
write_loop_zero o smooth accepts zero sem seq written x p t = refl
write_loop_zero o smooth accepts (suc fuel) sem seq written x p t =
    let round = round_of o sem seq smooth t in
    write_loop_round round 0 fuel written x p
    ∙ ap₂ (λ y z. after_post y (seq, []) written z) (accepts seq)
        (write_loop_zero o smooth accepts fuel round.back (suc seq) (written + 0) x p round.again)

-- With a chunk size of zero, and as long as the server takes the empty chunks and no token is missing,
-- `Write` does not end, whatever the fuel.
pub write_zero :
    (o : Others) (smooth : IsSmooth o) (accepts : Accepts o) (fuel : ℕ) (sem : Semaphore)
    (seq x : ℕ) (p : Bytes)
    → HasToken sem
    → write (pos 0) fuel o sem seq (x ∷ p) ≡ runs_on
unfolding write
write_zero o smooth accepts fuel sem seq x p t =
    write_loop_zero o smooth accepts fuel sem seq 0 x p t
