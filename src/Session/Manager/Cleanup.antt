-- ===== src/Session/Manager/Cleanup.antt =====
-- What a lookup finds after each operation of the manager, a cleanup tick among them.
use nightveil.Prelude.{
  All, Bool-cases, List, [], arith, get_elem?, inl, inr, none, refl, some, true, ℕ, ◌==◌, ◌∙◌, ◌∷◌,
  ◌≡◌, ◌≢◌, false, if◌then◌else◌, Option-cases, Bool, ℤ, ap, sym, length,
}
use nightveil.Session.Tunnel.{Session, close, new_session}
use nightveil.Session.Manager.{
  Manager, Index, Verdict, keep, drop_closed, expire, verdict, verdict_at, resolve, lookup, delete,
  update, get_or_create, get, remove, sweep, cleanup, is_expired, new_manager,
}
use nightveil.Session.Manager.Valid.{
  get_elem?-append_last, Leads, Absent, Distinct, IsValid, get_elem?-update, Leads-update,
  sweep-All, resolve-cases, Event, run, run-new_manager,
}

lookup_of_Absent : (id : ℕ) (m : Index) → Absent id m → lookup id m ≡ none
unfolding lookup
lookup_of_Absent id [] h = refl
lookup_of_Absent id ((j, a) ∷ m) (h, hs) = elim (Bool-cases (j == id)) [
  | inl hit ↦ absurd (h (ground arith))
  | inr miss ↦ rw miss (lookup_of_Absent id m hs)
]

closed-close : (s : Session) → (close s).closed ≡ true
unfolding close
closed-close s = ground arith

-- No entry of the list leads to place `a`.
abbrev Avoids : ℕ → Index → Type 0
Avoids a m = All (λ e. e.1 ≢ a) m

-- Entries of other identifiers lead to other places.
lookup-All :
    (P : ℕ × ℕ → Type 0) (id : ℕ) {a : ℕ} (m : Index) → lookup id m ≡ some a → All P m → P (id, a)
unfolding lookup
lookup-All P id [] e h = cc
lookup-All P id {a} ((j, b) ∷ m) e (h, hs) = elim (Bool-cases (j == id)) [
  | inl hit ↦
      let same_id : j ≡ id = ground arith in
      let same_place : b ≡ a = ground arith in rw (same_id, same_place) at h
  | inr miss ↦ lookup-All P id m (rw miss at e) hs
]

All-Leads-update :
    (ss : List Session) (b : ℕ) (m : Index) → All (Leads ss) m → All (Leads (update ss b close)) m
All-Leads-update ss b [] h = tt
All-Leads-update ss b (e ∷ m) (h, hs) = (Leads-update ss b e h, All-Leads-update ss b m hs)

lookup-delete :
    (id k : ℕ) (m : Index) → lookup k (delete id m) ≡ (if id == k then none else lookup k m)
unfolding lookup delete
lookup-delete id k [] = ground arith
lookup-delete id k ((j, a) ∷ m) = ground (arith, lookup-delete id k m)

-- A place holds the session of one identifier.
same_entry :
    (ss : List Session) {id a j b : ℕ} → Leads ss (id, a) → Leads ss (j, b) → b ≡ a → j ≡ id
same_entry ss (s, e, i) (t, f, k) g = ground arith

get_elem?-update_ne :
    (ss : List Session) {a b : ℕ} → b ≢ a → get_elem? (update ss b close) a ≡ get_elem? ss a
get_elem?-update_ne ss {a} {b} h = ground (arith, get_elem?-update ss b close a)

Absent-Avoids :
    (ss : List Session) (id a : ℕ) (m : Index)
    → Leads ss (id, a)
    → All (Leads ss) m
    → Absent id m
    → Avoids a m
Absent-Avoids ss id a [] h hs f = tt
Absent-Avoids ss id a ((j, b) ∷ m) h (k, ks) (f, fs) =
    (λ e. f (same_entry ss h k e), Absent-Avoids ss id a m h ks fs)

module _ (now ttl : ℕ) where
  -- The pass leaves alone what none of its entries leads to.
  sweep-Avoids :
      (ss : List Session) (m : Index) (a : ℕ)
      → Avoids a m
      → get_elem? (sweep now ttl ss m).0 a ≡ get_elem? ss a
  unfolding sweep
  sweep-Avoids ss [] a f = refl
  sweep-Avoids ss ((id, b) ∷ m) a (f, fs) =
      resolve-cases (λ r. get_elem? r.0 a ≡ get_elem? ss a) (verdict_at now ttl (get_elem? ss b))
        (sweep-Avoids ss m a fs) (sweep-Avoids ss m a fs)
        (sweep-Avoids (update ss b close) m a fs ∙ get_elem?-update_ne ss f)

-- What becomes of a session at place `a`: the map and the store afterwards.
abbrev pub Outcome : Verdict → ℕ → ℕ → Session → Index → List Session → Type 0
Outcome keep id a s m ss = (lookup id m ≡ some a) × (get_elem? ss a ≡ some s)
Outcome _ id a s m ss =
    (lookup id m ≡ none) × (t : Session) × (get_elem? ss a ≡ some t) × (t.closed ≡ true)

Outcome-cons :
    (v : Verdict) (id a j b : ℕ) (s : Session) (m : Index) (ss : List Session)
    → (j == id) ≡ false
    → Outcome v id a s m ss
    → Outcome v id a s ((j, b) ∷ m) ss
unfolding lookup
Outcome-cons keep id a j b s m ss e o = rw e o
Outcome-cons drop_closed id a j b s m ss e o = rw e o
Outcome-cons expire id a j b s m ss e o = rw e o

verdict-closed : (now ttl : ℕ) (s : Session) → verdict now ttl s ≡ drop_closed → s.closed ≡ true
unfolding verdict
verdict-closed now ttl s e = ground arith

-- The entry at the head of the list, before the rest `r` of the pass or `c` with the session closed.
Outcome-head :
    (v : Verdict) (id a : ℕ) (s : Session) (r c : List Session × Index)
    → (v ≡ drop_closed → s.closed ≡ true)
    → Absent id r.1
    → Absent id c.1
    → get_elem? r.0 a ≡ some s
    → get_elem? c.0 a ≡ some (close s)
    → let p = resolve v (id, a) r c in Outcome v id a s p.1 p.0
unfolding lookup
Outcome-head keep id a s r c h x y e f = (ground arith, e)
Outcome-head drop_closed id a s r c h x y e f = (lookup_of_Absent id r.1 x, s, e, h refl)
Outcome-head expire id a s r c h x y e f = (lookup_of_Absent id c.1 y, close s, f, closed-close s)

module _ (now ttl id a : ℕ) (s : Session) where
  sweep_first :
      (ss : List Session) (m : Index)
      → All (Leads ss) ((id, a) ∷ m)
      → Distinct ((id, a) ∷ m)
      → get_elem? ss a ≡ some s
      → let r = sweep now ttl ss ((id, a) ∷ m) in Outcome (verdict now ttl s) id a s r.1 r.0
  unfolding sweep
  sweep_first ss m (h, hs) (d, ds) f =
      let away = Absent-Avoids ss id a m h hs d in
      let shut : get_elem? (update ss a close) a ≡ some (close s) =
        ground (arith, get_elem?-update ss a close a) in
      rw f (
        Outcome-head (verdict now ttl s) id a s (sweep now ttl ss m)
          (sweep now ttl (update ss a close) m) (verdict-closed now ttl s)
          (sweep-All now ttl (λ e. e.0 ≢ id) ss m d)
          (sweep-All now ttl (λ e. e.0 ≢ id) (update ss a close) m d)
          (sweep-Avoids now ttl ss m a away ∙ f)
          (sweep-Avoids now ttl (update ss a close) m a away ∙ shut))

  sweep-Outcome :
      (ss : List Session) (m : Index)
      → All (Leads ss) m
      → Distinct m
      → lookup id m ≡ some a
      → get_elem? ss a ≡ some s
      → let r = sweep now ttl ss m in Outcome (verdict now ttl s) id a s r.1 r.0
  unfolding lookup sweep
  sweep-Outcome ss [] hs d e f = cc
  sweep-Outcome ss ((j, b) ∷ m) (h, hs) (d, ds) e f = elim (Bool-cases (j == id)) [
    | inl hit ↦
        let same_id : j ≡ id = ground arith in
        let same_place : b ≡ a = ground arith in
        rw (same_id, same_place)
          (sweep_first ss m (rw (same_id, same_place) at h, hs) (rw same_id at d, ds) f)
    | inr miss ↦
        let v = verdict now ttl s in
        let e' : lookup id m ≡ some a = rw miss at e in
        let apart : b ≢ a = λ g.
          let clash : j ≡ id = same_entry ss (lookup-All (Leads ss) id m e' hs) h g in
          ground arith in
        let shut = All-Leads-update ss b m hs in
        let kept = sweep-Outcome ss m hs ds e' f in
        let closed_ =
          sweep-Outcome (update ss b close) m shut ds e' (get_elem?-update_ne ss apart ∙ f) in
        resolve-cases (λ r. Outcome v id a s r.1 r.0) (verdict_at now ttl (get_elem? ss b))
          (Outcome-cons v id a j b s (sweep now ttl ss m).1 (sweep now ttl ss m).0 miss kept) kept
          closed_
  ]

-- What is to become of a session, by whether it is connected, closed and older than the TTL.
abbrev pub fate : (connected closed old : Bool) → Verdict
fate true true old = drop_closed
fate true false old = keep
fate false closed true = expire
fate false closed false = keep

verdict-fate :
    (now ttl : ℕ) (s : Session)
    → verdict now ttl s ≡ fate s.connected s.closed (is_expired now ttl s)
unfolding verdict
verdict-fate now ttl s = cases s.connected s.closed (is_expired now ttl s)
  where
    cases :
        (a b c : Bool)
        → (if a then if b then drop_closed else keep else if c then expire else keep) ≡ fate a b c
    cases true true c = refl
    cases true false c = refl
    cases false b true = refl
    cases false b false = refl

-- A cleanup tick decides about each session by itself: a connected one goes if it was closed, one
-- that is not connected yet goes, and is closed, if it is older than the TTL; any other stays, under
-- its identifier and untouched. So no session that leaves the map is left open.
pub get-cleanup :
    {m : Manager} (now id : ℕ) {a : ℕ} {s : Session}
    → IsValid m
    → get m id ≡ some a
    → get_elem? m.store a ≡ some s
    → let m' = cleanup m now in
      Outcome (fate s.connected s.closed (is_expired now m.ttl s)) id a s m'.sessions m'.store
unfolding cleanup get
get-cleanup {m} now id {a} {s} v e f =
    let o = sweep-Outcome now m.ttl id a s m.store m.sessions v.leads v.distinct e f in
    rw⁻¹ (verdict-fate now m.ttl s) o

-- `GetOrCreate` hands out a session of the identifier, and hands out the same one again, with no
-- further change, whenever it is asked later; no other identifier is affected.
pub get_or_create-get_or_create :
    {m : Manager} (id now later : ℕ)
    → IsValid m
    → let (m', a) = get_or_create m id now in
      (get_or_create m' id later ≡ (m', a))
      × Leads m'.store (id, a)
      × ((other : ℕ) → other ≢ id → get m' other ≡ get m other)
unfolding get_or_create get lookup
get_or_create-get_or_create {m} id now later v = elim (Option-cases (lookup id m.sessions)) [
  | inl e ↦
      let fresh = new_session id now m.download_buffer_bytes in
      rw (e, get_or_create)
        (
          ground arith,
          (fresh, get_elem?-append_last m.store fresh, unfold new_session in refl),
          λ other ne. ground arith,
        )
  | inr (a, e) ↦
      rw (e, get_or_create)
        (ground arith, lookup-All (Leads m.store) id m.sessions e v.leads, λ other ne. refl)
]

-- `Remove` takes the identifier off the map and closes its session; every other lookup is as before.
pub remove_lem :
    {m : Manager} (id : ℕ) {a : ℕ} {s : Session}
    → IsValid m
    → get m id ≡ some a
    → get_elem? m.store a ≡ some s
    → (get (remove m id) id ≡ none)
      × (get_elem? (remove m id).store a ≡ some (close s))
      × ((other : ℕ) → other ≢ id → get (remove m id) other ≡ get m other)
unfolding remove get
remove_lem {m} id {a} {s} v e f =
    rw (e, remove)
      (
        ground (arith, lookup-delete id id m.sessions),
        ground (arith, get_elem?-update m.store a close a),
        λ other ne. ground (arith, lookup-delete id other m.sessions),
      )

get_elem?-length : (ss : List Session) → get_elem? ss (length ss) ≡ none
get_elem?-length [] = refl
get_elem?-length (s ∷ ss) = get_elem?-length ss

lookup-remove :
    (m : Manager) (id other : ℕ) {a : ℕ}
    → lookup id m.sessions ≡ some a
    → lookup other (remove m id).sessions ≡ (if id == other then none else lookup other m.sessions)
unfolding remove
lookup-remove m id other e = rw (e, remove) (lookup-delete id other m.sessions)

get_or_create-absent :
    (m : Manager) (id now : ℕ)
    → lookup id m.sessions ≡ none
    → (get_or_create m id now).1 ≡ length m.store
unfolding get_or_create
get_or_create-absent m id now e = rw (e, get_or_create) refl

-- In a manager that any history of requests, removals, cleanup ticks and methods of the sessions led
-- to, an identifier that is on the map leads to a session of that identifier. `Remove` closes that
-- session where it is, takes the identifier off the map and leaves every other lookup as it was;
-- when the identifier is asked for again, `GetOrCreate` makes a session at another place.
pub remove-run :
    (ttl : ℕ) (bytes : ℤ) (es : List Event) (id other now : ℕ) {a : ℕ}
    → get (run (new_manager ttl bytes) es) id ≡ some a
    → let m = run (new_manager ttl bytes) es in
      let m' = remove m id in
      (s : Session) × (get_elem? m.store a ≡ some s)
      × (s.id ≡ id)
      × (get_elem? m'.store a ≡ some (close s))
      × (get m' id ≡ none)
      × (get m' other ≡ (if id == other then none else get m other))
      × ((get_or_create m' id now).1 ≢ a)
unfolding get
remove-run ttl bytes es id other now {a} e =
    let m = run (new_manager ttl bytes) es in
    let v = run-new_manager ttl bytes es in
    let (s, found, same_id) = lookup-All (Leads m.store) id m.sessions e v.leads in
    let (gone, shut, rest) = remove_lem id v e found in
    (
      s,
      found,
      same_id,
      shut,
      gone,
      lookup-remove m id other e,
      λ g.
          let fresh = get_or_create-absent (remove m id) id now gone in
          let nothing = get_elem?-length (remove m id).store in
          let at : length (remove m id).store ≡ a = sym fresh ∙ g in
          let clash : some (close s) ≡ none =
            sym shut ∙ ap (get_elem? (remove m id).store) (sym at) ∙ nothing in
          cc,
    )
