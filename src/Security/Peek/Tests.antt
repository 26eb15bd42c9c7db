-- ===== src/Security/Peek/Tests.antt =====
-- internal/security/reality.go: `PeekConn` at concrete inputs.
use nightveil.Prelude.{Bytes, [], arith, min, take, ◌++◌, ◌∷◌, ◌≡◌}
use nightveil.Security.Peek.{new_peek_conn, peek}
use nightveil.Security.Peek.Reads.{peek-peek, reads, reads-peek, unread}

abbrev stream : Bytes
stream = 22 ∷ 3 ∷ 1 ∷ 0 ∷ 70 ∷ []

reads-peek_example :
    let (pc, got, failed) = peek (new_peek_conn stream) 3 9 in
    let (pc', out) = reads pc ((2, 9) ∷ (2, 9) ∷ (4, 1) ∷ []) in
    (out ++ unread pc' ≡ stream) × (got ≡ take (min 3 9) stream)
reads-peek_example = reads-peek stream 3 9 ((2, 9) ∷ (2, 9) ∷ (4, 1) ∷ [])

peek-peek_example :
    let (pc, got, failed) = peek (peek (new_peek_conn stream) 1 9).0 3 9 in
    let (pc', out) = reads pc ((2, 9) ∷ (2, 9) ∷ []) in out ++ unread pc' ≡ 3 ∷ 1 ∷ 0 ∷ 70 ∷ []
peek-peek_example =
    peek-peek stream 1 3 9 ((2, 9) ∷ (2, 9) ∷ []) (omega arith) (omega arith) (omega arith)
