-- ===== src/Proxy/UdpRelay/Sockets.antt =====
-- internal/proxy/udprelay.go: the map holds open sockets, each under its destination.
use nightveil.Prelude.{
  All, Bool, Bool-cases, List, Option, Option-cases, [], arith, false, get_elem?, inl, inr, length,
  none, some, suc, true, zero, ℕ, ◌++◌, ◌==◌, ◌∷◌, ◌≡◌, refl, sym, ◌∙◌, ap,
}
use nightveil.Proxy.UdpRelay.{
  Server, Socket, UdpConn, close_at, delete, get_or_create, lookup, read_fails, touch,
}

-- The entry's socket is open, and was dialled for the entry's destination.
abbrev pub IsLive : List Socket → ℕ × UdpConn → Type 0
IsLive ss (k, (i, t)) = get_elem? ss i ≡ some (record { dest = k; is_open = true })

-- No entry is for this destination.
abbrev pub Absent : ℕ → List (ℕ × UdpConn) → Type 0
Absent k m = All (λ e. (e.0 == k) ≡ false) m

abbrev pub Distinct : List (ℕ × UdpConn) → Type 0
Distinct [] = Unit
Distinct ((k, c) ∷ m) = Absent k m × Distinct m

pub record IsValid (s : Server) : Type 0 where
  pub live : All (IsLive s.sockets) s.conns
  pub distinct : Distinct s.conns

get_elem?-close_at :
    (ss : List Socket) (i j : ℕ) {x : Option Socket}
    → (i == j) ≡ false
    → get_elem? ss j ≡ x
    → get_elem? (close_at ss i) j ≡ x
unfolding close_at
get_elem?-close_at [] i j h e = e
get_elem?-close_at (s ∷ ss) zero zero h e = cc
get_elem?-close_at (s ∷ ss) zero (suc j) h e = e
get_elem?-close_at (s ∷ ss) (suc i) zero h e = e
get_elem?-close_at (s ∷ ss) (suc i) (suc j) h e = get_elem?-close_at ss i j (ground arith) e

get_elem?-append :
    (ss : List Socket) (y : Socket) (j : ℕ) {x : Socket}
    → get_elem? ss j ≡ some x
    → get_elem? (ss ++ y ∷ []) j ≡ some x
get_elem?-append [] y j e = cc
get_elem?-append (s ∷ ss) y zero e = e
get_elem?-append (s ∷ ss) y (suc j) e = get_elem?-append ss y j e

get_elem?-last : (ss : List Socket) (y : Socket) → get_elem? (ss ++ y ∷ []) (length ss) ≡ some y
get_elem?-last [] y = refl
get_elem?-last (s ∷ ss) y = get_elem?-last ss y

abbrev dest_of : Option Socket → ℕ
dest_of none = 0
dest_of (some s) = s.dest

-- Entries for different destinations have different sockets, so closing one leaves the other.
pub IsLive-close_at :
    (ss : List Socket) (i : ℕ) (socket : Socket) (e : ℕ × UdpConn)
    → get_elem? ss i ≡ some socket
    → (e.0 == socket.dest) ≡ false
    → IsLive ss e
    → IsLive (close_at ss i) e
IsLive-close_at ss i socket (k, (j, t)) h d l = elim (Bool-cases (i == j)) [
  | inr other ↦ get_elem?-close_at ss i j other l
  | inl same ↦
      let e : i ≡ j = ground arith in
      let one = sym h ∙ ap (get_elem? ss) e ∙ l in
      let dest : socket.dest ≡ k = ap (λ o. dest_of o) one in ground arith
]

pub All-IsLive-close_at :
    (ss : List Socket) (i : ℕ) (socket : Socket) (m : List (ℕ × UdpConn))
    → get_elem? ss i ≡ some socket
    → Absent socket.dest m
    → All (IsLive ss) m
    → All (IsLive (close_at ss i)) m
All-IsLive-close_at ss i socket [] h a l = tt
All-IsLive-close_at ss i socket (e ∷ m) h (a, as_) (l, ls) =
    (IsLive-close_at ss i socket e h a l, All-IsLive-close_at ss i socket m h as_ ls)

All-IsLive-append :
    (ss : List Socket) (y : Socket) (m : List (ℕ × UdpConn))
    → All (IsLive ss) m
    → All (IsLive (ss ++ y ∷ [])) m
All-IsLive-append ss y [] l = tt
All-IsLive-append ss y ((k, (j, t)) ∷ m) (l, ls) =
    (get_elem?-append ss y j l, All-IsLive-append ss y m ls)

module _ (P : ℕ × UdpConn → Type 0) where
  All-delete : (k : ℕ) (m : List (ℕ × UdpConn)) → All P m → All P (delete k m)
  unfolding delete
  All-delete k [] h = tt
  All-delete k ((j, c) ∷ m) (h, hs) = elim (Bool-cases (j == k)) [
    | inl e ↦ rw e (All-delete k m hs)
    | inr e ↦ rw e (h, All-delete k m hs)
  ]

delete-Absent : (k : ℕ) (m : List (ℕ × UdpConn)) → Absent k (delete k m)
unfolding delete
delete-Absent k [] = tt
delete-Absent k ((j, c) ∷ m) = elim (Bool-cases (j == k)) [
  | inl e ↦ rw e (delete-Absent k m)
  | inr e ↦ rw e (e, delete-Absent k m)
]

delete-Distinct : (k : ℕ) (m : List (ℕ × UdpConn)) → Distinct m → Distinct (delete k m)
unfolding delete
delete-Distinct k [] d = tt
delete-Distinct k ((j, c) ∷ m) (a, d) = elim (Bool-cases (j == k)) [
  | inl e ↦ rw e (delete-Distinct k m d)
  | inr e ↦ rw e (All-delete (λ x. (x.0 == j) ≡ false) k m a, delete-Distinct k m d)
]

pub read_fails-IsValid : (s : Server) (i : ℕ) → IsValid s → IsValid (read_fails s i)
unfolding read_fails
read_fails-IsValid s i v = elim (Option-cases (get_elem? s.sockets i)) [
  | inl e ↦ simp (read_fails, e) v
  | inr (socket, e) ↦
      simp (read_fails, e)
        (record {
          live =
              All-IsLive-close_at s.sockets i socket (delete socket.dest s.conns) e
                (delete-Absent socket.dest s.conns)
                (All-delete (IsLive s.sockets) socket.dest s.conns v.live);
          distinct = delete-Distinct socket.dest s.conns v.distinct;
        })
]

-- Refreshing a time keeps sockets and destinations.
pub touch-IsLive :
    (ss : List Socket) (i now : ℕ) (m : List (ℕ × UdpConn))
    → All (IsLive ss) m
    → All (IsLive ss) (touch i now m)
unfolding touch
touch-IsLive ss i now [] l = tt
touch-IsLive ss i now ((k, (j, t)) ∷ m) (l, ls) = (l, touch-IsLive ss i now m ls)

touch-Absent : (k i now : ℕ) (m : List (ℕ × UdpConn)) → Absent k m → Absent k (touch i now m)
unfolding touch
touch-Absent k i now [] a = tt
touch-Absent k i now ((j, (n, t)) ∷ m) (a, as_) = (a, touch-Absent k i now m as_)

pub touch-Distinct : (i now : ℕ) (m : List (ℕ × UdpConn)) → Distinct m → Distinct (touch i now m)
unfolding touch
touch-Distinct i now [] d = tt
touch-Distinct i now ((j, (n, t)) ∷ m) (a, d) = (touch-Absent j i now m a, touch-Distinct i now m d)

lookup-Absent : (k : ℕ) (m : List (ℕ × UdpConn)) → lookup k m ≡ none → Absent k m
unfolding lookup
lookup-Absent k [] h = tt
lookup-Absent k ((j, c) ∷ m) h = elim (Bool-cases (j == k)) [
  | inl e ↦ ground arith
  | inr e ↦ (e, lookup-Absent k m (rw (lookup, e) at h))
]

pub get_or_create-IsValid :
    (s : Server) (dest now : ℕ) (dials : Bool)
    → IsValid s
    → IsValid (get_or_create s dest now dials).0
unfolding get_or_create
get_or_create-IsValid s dest now dials v = elim (Option-cases (lookup dest s.conns)) [
  | inr (c, e) ↦ simp (get_or_create, e) v
  | inl e ↦ elim (Bool-cases dials) [
    | inr f ↦ simp (get_or_create, e, f) v
    | inl f ↦
        simp (get_or_create, e, f)
          (record {
            live = (
              get_elem?-last s.sockets (record { dest = dest; is_open = true }),
              All-IsLive-append s.sockets (record { dest = dest; is_open = true }) s.conns v.live,
            );
            distinct = (lookup-Absent dest s.conns e, v.distinct);
          })
  ]
]
