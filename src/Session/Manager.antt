-- ===== src/Session/Manager.antt =====
-- internal/session/manager.go, the type `Manager`: the sessions by identifier. Sessions are shared
-- by pointer with the connections that use them, so they stand in a store and the map holds their
-- places in it; a session that is taken off the map stays in the store. The clock is an argument,
-- in the unit of `ttl`. Each function is one critical section.
pub mod Valid
pub mod Cleanup
pub mod Tests
use nightveil.Prelude.{
  ℕ, ◌+◌, List, ℤ, Option, length, Bool, if◌then◌else◌, some, [], none, ◌∷◌, ◌++◌, ltb_ℤ, ◌==◌, pos,
  get_elem?, suc, sub_ℕ, zero,
}
use nightveil.Session.Tunnel
use nightveil.Session.Tunnel.{Session, new_session, close}

-- `map[[16]byte]*Session`
abbrev pub Index : Type 0
Index = List (ℕ × ℕ)

pub record Manager : Type 0 where
  pub store : List Session
  pub sessions : Index
  pub ttl : ℕ
  pub download_buffer_bytes : ℤ

-- `NewManager`. The field `DownloadBufferBytes` is set before the first session is made.
unfoldable pub new_manager : ℕ → ℤ → Manager
new_manager ttl bytes = record {
  store = [];
  sessions = [];
  ttl = ttl;
  download_buffer_bytes = bytes;
}

unfoldable pub lookup : ℕ → Index → Option ℕ
lookup id [] = none
lookup id ((j, a) ∷ m) = if j == id then some a else lookup id m

unfoldable pub delete : ℕ → Index → Index
delete id [] = []
delete id ((j, a) ∷ m) = if j == id then delete id m else (j, a) ∷ delete id m

-- A method of the session at place `a`; the other sessions are left alone.
unfoldable pub update : List Session → ℕ → (Session → Session) → List Session
update [] a f = []
update (s ∷ ss) zero f = f s ∷ ss
update (s ∷ ss) (suc a) f = s ∷ update ss a f

-- The manager and the place of the session.
unfoldable pub get_or_create : Manager → ℕ → ℕ → Manager × ℕ
get_or_create m id now = elim (lookup id m.sessions) [
  | some a ↦ (m, a)
  | none ↦ (
    record m {
      store = m.store ++ new_session id now m.download_buffer_bytes ∷ [];
      sessions = (id, length m.store) ∷ m.sessions;
    },
    length m.store,
  )
]

unfoldable pub get : Manager → ℕ → Option ℕ
get m id = lookup id m.sessions

unfoldable pub remove : Manager → ℕ → Manager
remove m id = elim (lookup id m.sessions) [
  | none ↦ m
  | some a ↦ record m { store = update m.store a close; sessions = delete id m.sessions }
]

unfoldable pub count : Manager → ℕ
count m = length m.sessions

-- What a round of `cleanupLoop` does with a session.
pub data Verdict : Type 0 where
  keep drop_closed expire : Verdict

-- `now.Sub(s.CreatedAt) > m.ttl`
abbrev pub is_expired : ℕ → ℕ → Session → Bool
is_expired now ttl s = ltb_ℤ (pos ttl) (sub_ℕ now s.created_at)

unfoldable pub verdict : ℕ → ℕ → Session → Verdict
verdict now ttl s =
    if s.connected
    then if s.closed then drop_closed else keep
    else if is_expired now ttl s
    then expire
    else keep

-- A place that is not in the store would be a nil pointer.
abbrev pub verdict_at : ℕ → ℕ → Option Session → Verdict
verdict_at now ttl none = keep
verdict_at now ttl (some s) = verdict now ttl s

-- The rest of the pass without and with the session closed.
abbrev pub resolve :
    Verdict → ℕ × ℕ → List Session × Index → List Session × Index → List Session × Index
resolve keep e rest rest_closed = (rest.0, e ∷ rest.1)
resolve drop_closed e rest rest_closed = rest
resolve expire e rest rest_closed = rest_closed

-- The pass over the map.
unfoldable pub sweep : ℕ → ℕ → List Session → Index → List Session × Index
sweep now ttl store [] = (store, [])
sweep now ttl store ((id, a) ∷ m) =
    let rest = sweep now ttl store m in
    let rest_closed = sweep now ttl (update store a close) m in
    resolve (verdict_at now ttl (get_elem? store a)) (id, a) rest rest_closed

-- One tick of `cleanupLoop`.
unfoldable pub cleanup : Manager → ℕ → Manager
cleanup m now =
    let (store, sessions) = sweep now m.ttl m.store m.sessions in
    record m { store = store; sessions = sessions }
