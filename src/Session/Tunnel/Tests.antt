-- ===== src/Session/Tunnel/Tests.antt =====
-- Runs of a session, and the theorems about it at concrete inputs.
use nightveil.Prelude.{
  arith, All, negsuc, ◌≡◌, ◌<◌, some, true, inr, ◌≤◌, refl, inl, suc, Bytes, List, [], pos, zero, ℕ,
  ℤ, ◌++◌, ◌∷◌,
}
use nightveil.Session.Tunnel.{
  Session, new_session, push_upload, close, ensure_stream_pipe, open_pipe,
}
use nightveil.Session.Tunnel.Upload.{Event, pushes, reads, run, slice, Agrees, run-in_order}
use nightveil.Session.Tunnel.Drain.{IsPacket, Pushed, run_complete, Pushed}
use nightveil.Session.Tunnel.Closing.{close_lem, ensure_stream_pipe-close}

abbrev chunks : ℤ → Bytes
chunks (pos n) = n ∷ n ∷ []
chunks (negsuc n) = []

-- Chunks 1, 0, 2 arrive in this order, 0 twice, and the reader asks in between.
abbrev shuffled : List Event
shuffled =
    pushes (pos 1) (1 ∷ 1 ∷ [])
    ∷ reads
    ∷ pushes (pos 0) (0 ∷ 0 ∷ [])
    ∷ reads
    ∷ pushes (pos 0) (0 ∷ 0 ∷ [])
    ∷ pushes (pos 2) (2 ∷ 2 ∷ [])
    ∷ []

fresh : Session
unfolding new_session
fresh = new_session 7 0 (pos 4)

shuffled-Agrees : All (Agrees chunks) shuffled
shuffled-Agrees = (refl, (tt, (refl, (tt, (refl, (refl, tt))))))

shuffled-IsPacket : All IsPacket shuffled
shuffled-IsPacket = (tt, (tt, (tt, (tt, (tt, (tt, tt))))))

run-in_order_example :
    (s : Session) × (run (new_session 7 0 (pos 4)) shuffled ≡ some (s, slice chunks 0 s.next_seq))
run-in_order_example = run-in_order chunks 7 0 (pos 4) shuffled shuffled-Agrees

shuffled-Pushed : (k : ℕ) → k < 3 → Pushed k shuffled
shuffled-Pushed zero h = inr (inl refl)
shuffled-Pushed (suc zero) h = inl refl
shuffled-Pushed (suc (suc zero)) h = inr (inr (inr (inl refl)))
shuffled-Pushed (suc (suc (suc k))) h = absurd (omega arith)

run_complete_example :
    (s : Session) × (run (new_session 7 0 (pos 4)) (shuffled ++ reads ∷ reads ∷ reads ∷ [])
      ≡ some (s, slice chunks 0 s.next_seq))
    × (3 ≤ s.next_seq)
run_complete_example =
    run_complete chunks 7 0 (pos 4) 3 shuffled shuffled-Agrees shuffled-IsPacket shuffled-Pushed

close_lem_example : push_upload (close fresh) (pos 0) (1 ∷ []) ≡ some (close fresh)
unfolding fresh
close_lem_example = (close_lem (λ old needed. needed) fresh (pos 0) (1 ∷ []) refl).0

ensure_stream_pipe-close_example :
    let t = ensure_stream_pipe (close fresh) in
    (t.closed ≡ true) × (t.stream_pipe ≡ some open_pipe) × (close t ≡ t)
unfolding fresh
ensure_stream_pipe-close_example = ensure_stream_pipe-close fresh refl refl
