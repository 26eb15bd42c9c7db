-- ===== src/Proxy/UdpRelay/Runs.antt =====
-- internal/proxy/udprelay.go: the sockets of the relay over any run of its goroutines.
use nightveil.Prelude.{
  All, Bool, Bool-cases, List, Option, [], arith, false, inl, inr, none, some, true, ℕ, ◌==◌, ◌∷◌,
  ◌≡◌, ◌+◌, ◌<◌, refl,
}
use nightveil.Proxy.UdpRelay
use nightveil.Proxy.UdpRelay.{
  Event, Server, Socket, UdpConn, cleanup, close, close_at, closes, fails, forward, forwards,
  get_or_create, is_idle, new_server, read_fails, run, step, sweep, ticks, touch, use_conn,
  udp_idle_timeout,
}
use nightveil.Proxy.UdpRelay.Sockets.{
  Absent, All-IsLive-close_at, Distinct, IsLive, IsLive-close_at, IsValid, get_or_create-IsValid,
  read_fails-IsValid, touch-Distinct, touch-IsLive,
}

use_conn-IsValid :
    (s : Server) (c : Option UdpConn) (now : ℕ) (sends : Bool)
    → IsValid s
    → IsValid (use_conn s c now sends)
use_conn-IsValid s none now sends v = v
use_conn-IsValid s (some (i, t)) now false v = v
use_conn-IsValid s (some (i, t)) now true v = record {
  live = touch-IsLive s.sockets i now s.conns v.live;
  distinct = touch-Distinct i now s.conns v.distinct;
}

-- What a sweep does to entries that are not its own: they stay live, and absent destinations stay
-- absent.
record Swept (ss : List Socket) (m : List (ℕ × UdpConn)) (r : List Socket × List (ℕ × UdpConn))
    : Type 0 where
  live : All (IsLive r.0) r.1
  others : (e : ℕ × UdpConn) → IsLive ss e → All (λ x. (e.0 == x.0) ≡ false) m → IsLive r.0 e
  absent : (k : ℕ) → Absent k m → Absent k r.1
  distinct : Distinct r.1

swap : (k : ℕ) (m : List (ℕ × UdpConn)) → Absent k m → All (λ x. (k == x.0) ≡ false) m
swap k [] a = tt
swap k (e ∷ m) (a, as_) = (ground arith, swap k m as_)

sweep-Swept :
    (now : ℕ) (ss : List Socket) (m : List (ℕ × UdpConn))
    → All (IsLive ss) m
    → Distinct m
    → Swept ss m (sweep now ss m)
unfolding sweep
sweep-Swept now ss [] l d = record {
  live = tt;
  others = λ e h _. h;
  absent = λ k _. tt;
  distinct = tt;
}
sweep-Swept now ss ((k, (i, t)) ∷ m) (l, ls) (a, d) = elim (Bool-cases (is_idle now t)) [
  | inl e ↦
      let socket : Socket = record { dest = k; is_open = true } in
      let rest = sweep-Swept now (close_at ss i) m (All-IsLive-close_at ss i socket m l a ls) d in
      rw e (record {
        live = rest.live;
        others = λ x h n. rest.others x (IsLive-close_at ss i socket x l n.0 h) n.1;
        absent = λ j n. rest.absent j n.1;
        distinct = rest.distinct;
      })
  | inr e ↦
      let rest = sweep-Swept now ss m ls d in
      rw e (record {
        live = (rest.others (k, (i, t)) l (swap k m a), rest.live);
        others = λ x h n. rest.others x h n.1;
        absent = λ j n. (n.0, rest.absent j n.1);
        distinct = (rest.absent k a, rest.distinct);
      })
]

step-IsValid : (s : Server) (e : Event) → IsValid s → IsValid (step s e)
unfolding step forward cleanup close
step-IsValid s (forwards dest now dials sends) v =
    let r = get_or_create s dest now dials in
    use_conn-IsValid r.0 r.1 now sends (get_or_create-IsValid s dest now dials v)
step-IsValid s (fails i) v = read_fails-IsValid s i v
step-IsValid s (ticks now) v =
    let swept = sweep-Swept now s.sockets s.conns v.live v.distinct in
    record { live = swept.live; distinct = swept.distinct }
step-IsValid s closes v = record { live = tt; distinct = tt }

run_from : (s : Server) (es : List Event) → IsValid s → IsValid (run s es)
unfolding run
run_from s [] v = v
run_from s (e ∷ es) v = run_from (step s e) es (step-IsValid s e v)

-- In whatever order messages arrive, reads of sockets fail, the cleanup ticks and the relay is
-- closed: the map has at most one entry for a destination, and the socket of each entry is open and
-- was dialled for that destination.
pub run-IsValid : (es : List Event) → IsValid (run new_server es)
unfolding new_server
run-IsValid es =
    run_from (record { sockets = []; conns = [] }) es (record { live = tt; distinct = tt })

-- The cleanup drops a socket of an idle destination, the next message opens another one, and then
-- the read of the first one fails: its goroutine deletes the entry of the second, whose socket stays
-- open with no entry for it.
pub run-stale :
    (dest t later : ℕ)
    → t + udp_idle_timeout < later
    → run new_server
        (forwards dest t true true ∷ ticks later ∷ forwards dest later true true ∷ fails 0 ∷ [])
      ≡ record {
        sockets =
            record { dest = dest; is_open = false } ∷ record { dest = dest; is_open = true } ∷ [];
        conns = [];
      }
unfolding run new_server forward read_fails cleanup get_or_create touch sweep UdpRelay.lookup
    UdpRelay.delete close_at
run-stale dest t later h =
    let same : (dest == dest) ≡ true = ground arith in
    let idle : is_idle later t ≡ true = ground arith in rw (idle, same) refl
