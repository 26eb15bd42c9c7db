-- ===== src/Transport/Xhttp/Conn/Lossless.antt =====
-- A connection returns all bytes of the uploads that it takes.
use nightveil.Prelude.{
  Bytes, [], suc, zero, ℕ, ◌++◌, ◌≡◌, Bool-cases, Option, append-nil, arith, inl, inr, length, ltb,
  nil_of_length, refl, sym, take-append-drop, ◌+◌, ◌∙◌, List, ap, append_assoc, ◌∷◌,
}
use nightveil.Session.Tunnel.{Session, Outcome, chunk, ended, blocked, read_upload}
use nightveil.Transport.Xhttp.Conn.{
  SplitConn, PipeError, Reading, got, streamed, closed, waits, deliver, read, reads,
}

-- What calls of `ReadUpload` return together, and the session after them.
abbrev pub payload_of : Outcome → Bytes
payload_of (chunk p) = p
payload_of ended = []
payload_of blocked = []

abbrev pub uploads : Session → ℕ → Session × Bytes
uploads s zero = (s, [])
uploads s (suc n) =
    let (s', o) = read_upload s in let (s'', rest) = uploads s' n in (s'', payload_of o ++ rest)

abbrev returned : Reading → Bytes
returned (got b) = b
returned (streamed s) = []
returned closed = []
returned waits = []

-- One `Read` takes some uploads, and keeps what it does not return.
record Took (c : SplitConn) (r : SplitConn × Reading) : Type 0 where
  count : ℕ
  session : r.0.sess ≡ (uploads c.sess count).0
  kept : returned r.1 ++ r.0.leftover ≡ c.leftover ++ (uploads c.sess count).1

deliver-Took :
    (c : SplitConn) (room : ℕ) (fed : Bytes × Option PipeError) (r : Session × Outcome)
    → c.leftover ≡ []
    → read_upload c.sess ≡ r
    → Took c (deliver room fed r)
unfolding deliver
deliver-Took c room fed (s, chunk p) l e = record {
  count = 1;
  session = rw e refl;
  kept = rw (l, e) (take-append-drop room p ∙ sym (append-nil p));
}
deliver-Took c room fed (s, ended) l e = elim (Bool-cases s.stream_mode) [
  | inl b ↦ record { count = 1; session = rw e refl; kept = rw (l, e, b) refl }
  | inr b ↦ record { count = 1; session = rw e refl; kept = rw (l, e, b) refl }
]
deliver-Took c room fed (s, blocked) l e = record {
  count = 1;
  session = rw e refl;
  kept = rw (l, e) refl;
}

read-Took : (c : SplitConn) (room : ℕ) (fed : Bytes × Option PipeError) → Took c (read c room fed)
unfolding read
read-Took c room fed = elim (Bool-cases c.sess.stream_mode) [
  | inl b ↦ simp b (record { count = 0; session = refl; kept = sym (append-nil c.leftover) })
  | inr b ↦ elim (Bool-cases (ltb 0 (length c.leftover))) [
    | inl h ↦
        simp (b, h)
          (record {
            count = 0;
            session = refl;
            kept = take-append-drop room c.leftover ∙ sym (append-nil c.leftover);
          })
    | inr h ↦
        let l = nil_of_length c.leftover (ground arith) in
        simp (b, h) (deliver-Took c room fed (read_upload c.sess) l refl)
  ]
]

-- The total `k` is a variable with an equation, since `m + n` is stuck.
uploads_add :
    (s : Session) (m n k : ℕ)
    → k ≡ m + n
    → ((uploads (uploads s m).0 n).0 ≡ (uploads s k).0)
      × ((uploads s m).1 ++ (uploads (uploads s m).0 n).1 ≡ (uploads s k).1)
uploads_add s zero n k e =
    let e' : n ≡ k = omega arith in (ap (λ j. (uploads s j).0) e', ap (λ j. (uploads s j).1) e')
uploads_add s (suc m) n zero e = absurd (omega arith)
uploads_add s (suc m) n (suc k) e =
    let (s', o) = read_upload s in
    let (session, bytes) = uploads_add s' m n k (omega arith) in
    (
      session,
      append_assoc (payload_of o) (uploads s' m).1 (uploads (uploads s' m).0 n).1
          ∙ ap (λ x. payload_of o ++ x) bytes,
    )

-- What a row of reads returns, taken together.
pub record IsLossless (c : SplitConn) (r : SplitConn × Bytes) : Type 0 where
  pub count : ℕ
  pub session : r.0.sess ≡ (uploads c.sess count).0
  pub kept : r.1 ++ r.0.leftover ≡ c.leftover ++ (uploads c.sess count).1

elim_returned :
    (r : Reading) (rest : Bytes)
    → (elim r as (λ x. Bytes) [
      | got bytes ↦ bytes ++ rest
      | streamed s ↦ rest
      | closed ↦ rest
      | waits ↦ rest
    ])
      ≡ returned r ++ rest
elim_returned (got b) rest = refl
elim_returned (streamed s) rest = refl
elim_returned closed rest = refl
elim_returned waits rest = refl

-- Reads of any sizes lose and repeat nothing that the session's uploads gave: there is a number of
-- calls of `ReadUpload` such that what the reads returned from uploads, followed by what is kept for
-- the next read, is what was kept before, followed by what these calls return in order; and the
-- session is where these calls lead. What the pipe of the stream mode gives is not counted.
pub reads-IsLossless :
    (c : SplitConn) (rooms : List (ℕ × Bytes × Option PipeError)) → IsLossless c (reads c rooms)
unfolding reads
reads-IsLossless c [] = record { count = 0; session = refl; kept = sym (append-nil c.leftover) }
reads-IsLossless c ((room, give, e) ∷ rooms) =
    let one = read-Took c room (give, e) in
    let (c', r) = read c room (give, e) in
    let ih = reads-IsLossless c' rooms in
    let rest = (reads c' rooms).1 in
    let left = (reads c' rooms).0.leftover in
    let (session, bytes) = uploads_add c.sess one.count ih.count (one.count + ih.count) refl in
    let first = (uploads c.sess one.count).1 in
    record {
      count = one.count + ih.count;
      session = ih.session ∙ ap (λ s. (uploads s ih.count).0) one.session ∙ session;
      kept =
          ap (λ x. x ++ left) (elim_returned r rest)
          ∙ append_assoc (returned r) rest left
          ∙ ap (λ x. returned r ++ x) ih.kept
          ∙ sym (append_assoc (returned r) c'.leftover (uploads c'.sess ih.count).1)
          ∙ ap (λ x. x ++ (uploads c'.sess ih.count).1) one.kept
          ∙ append_assoc c.leftover first (uploads c'.sess ih.count).1
          ∙ ap (λ s. c.leftover ++ (first ++ (uploads s ih.count).1)) one.session
          ∙ ap (λ x. c.leftover ++ x) bytes;
    }
