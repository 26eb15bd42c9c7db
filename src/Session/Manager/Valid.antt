-- ===== src/Session/Manager/Valid.antt =====
-- Each identifier has one session, and each session one identifier.
use nightveil.Prelude.{
  List, ℕ, All, ◌≡◌, get_elem?, ◌≢◌, none, arith, some, if◌then◌else◌, ◌==◌, Bool-cases, [], inl,
  inr, suc, zero, ◌∷◌, Option-cases, length, refl, ◌++◌, ◌∙◌, ℤ,
}
use mathlib.Core.Option
use nightveil.Session.Tunnel.{Session, close, new_session}
use nightveil.Session.Manager.{
  new_manager, Manager, Index, Verdict, verdict_at, resolve, lookup, delete, update, get_or_create,
  remove, sweep, cleanup, keep, drop_closed, expire, List, ℕ,
}

-- The entry leads to a session of that identifier.
abbrev pub Leads : List Session → ℕ × ℕ → Type 0
Leads store (id, a) = (s : Session) × (get_elem? store a ≡ some s) × (s.id ≡ id)

abbrev pub Absent : ℕ → Index → Type 0
Absent id m = All (λ e. e.0 ≢ id) m

abbrev pub Distinct : Index → Type 0
Distinct [] = Unit
Distinct ((id, a) ∷ m) = Absent id m × Distinct m

-- No identifier twice, and no dangling entry.
pub record IsValid (m : Manager) : Type 0 where
  pub distinct : Distinct m.sessions
  pub leads : All (Leads m.store) m.sessions

lookup-Absent : (id : ℕ) (m : Index) → lookup id m ≡ none → Absent id m
unfolding lookup
lookup-Absent id [] h = tt
lookup-Absent id ((j, a) ∷ m) h = (λ e. ground arith, lookup-Absent id m (ground arith))

delete-All : (P : ℕ × ℕ → Type 0) (id : ℕ) (m : Index) → All P m → All P (delete id m)
unfolding delete
delete-All P id [] h = tt
delete-All P id ((j, a) ∷ m) (h, hs) = elim (Bool-cases (j == id)) [
  | inl e ↦ rw e (delete-All P id m hs)
  | inr e ↦ rw e (h, delete-All P id m hs)
]

delete-Distinct : (id : ℕ) (m : Index) → Distinct m → Distinct (delete id m)
unfolding delete
delete-Distinct id [] h = tt
delete-Distinct id ((j, a) ∷ m) (h, hs) = elim (Bool-cases (j == id)) [
  | inl e ↦ rw e (delete-Distinct id m hs)
  | inr e ↦ rw e (delete-All (λ e. e.0 ≢ j) id m h, delete-Distinct id m hs)
]

-- A method that leaves the identifier alone.
pub get_elem?-update :
    (ss : List Session) (a : ℕ) (f : Session → Session) (b : ℕ)
    → get_elem? (update ss a f) b
      ≡ (if a == b then Option.map f (get_elem? ss b) else get_elem? ss b)
unfolding update
get_elem?-update [] a f b = ground arith
get_elem?-update (s ∷ ss) zero f zero = ground arith
get_elem?-update (s ∷ ss) zero f (suc b) = ground arith
get_elem?-update (s ∷ ss) (suc a) f zero = ground arith
get_elem?-update (s ∷ ss) (suc a) f (suc b) = ground (arith, get_elem?-update ss a f b)

id-close : (s : Session) → (close s).id ≡ s.id
unfolding close
id-close s = ground arith

-- A method of a session that keeps the identifier leaves every entry where it leads.
pub Leads-act :
    (ss : List Session) (a : ℕ) (f : Session → Session)
    → ((s : Session) → (f s).id ≡ s.id)
    → (e : ℕ × ℕ) → Leads ss e
    → Leads (update ss a f) e
Leads-act ss a f same_id (id, b) (s, h, i) = elim (Bool-cases (a == b)) [
  | inl hit ↦ (f s, rw (get_elem?-update ss a f b, hit, h), same_id s ∙ i)
  | inr miss ↦ (s, rw (get_elem?-update ss a f b, miss) h, i)
]

pub Leads-update :
    (ss : List Session) (a : ℕ) (e : ℕ × ℕ) → Leads ss e → Leads (update ss a close) e
Leads-update ss a e h = Leads-act ss a close id-close e h

get_elem?-append :
    (ss : List Session) (t : Session) (a : ℕ) {s : Session}
    → get_elem? ss a ≡ some s
    → get_elem? (ss ++ t ∷ []) a ≡ some s
get_elem?-append [] t a h = cc
get_elem?-append (x ∷ ss) t zero h = h
get_elem?-append (x ∷ ss) t (suc a) h = get_elem?-append ss t a h

pub get_elem?-append_last :
    (ss : List Session) (t : Session) → get_elem? (ss ++ t ∷ []) (length ss) ≡ some t
get_elem?-append_last [] t = refl
get_elem?-append_last (x ∷ ss) t = get_elem?-append_last ss t

All-mono : (P Q : ℕ × ℕ → Type 0) (m : Index) → ((e : ℕ × ℕ) → P e → Q e) → All P m → All Q m
All-mono P Q [] f h = tt
All-mono P Q (e ∷ m) f (h, hs) = (f e h, All-mono P Q m f hs)

get_or_create-IsValid : {m : Manager} (id now : ℕ) → IsValid m → IsValid (get_or_create m id now).0
unfolding get_or_create new_session
get_or_create-IsValid {m} id now v = elim (Option-cases (lookup id m.sessions)) [
  | inl e ↦
      rw (e, get_or_create)
        (record {
          distinct = (lookup-Absent id m.sessions e, v.distinct);
          leads = (
            (_, get_elem?-append_last m.store _, refl),
            All-mono _ _ m.sessions (λ e (s, h, i). (s, get_elem?-append m.store _ e.1 h, i))
                v.leads,
          );
        })
  | inr (a, e) ↦ rw (e, get_or_create) v
]

remove-IsValid : {m : Manager} (id : ℕ) → IsValid m → IsValid (remove m id)
unfolding remove
remove-IsValid {m} id v = elim (Option-cases (lookup id m.sessions)) [
  | inl e ↦ rw (e, remove) v
  | inr (a, e) ↦
      rw (e, remove)
        (record {
          distinct = delete-Distinct id m.sessions v.distinct;
          leads =
              delete-All (Leads (update m.store a close)) id m.sessions
                (All-mono _ _ m.sessions (λ e. Leads-update m.store a e) v.leads);
        })
]

-- A statement of what an entry leaves, for each verdict.
pub resolve-cases :
    (P : List Session × Index → Type 0) (v : Verdict) {e : ℕ × ℕ} {r c : List Session × Index}
    → P (r.0, e ∷ r.1)
    → P r
    → P c
    → P (resolve v e r c)
resolve-cases P keep p q t = p
resolve-cases P drop_closed p q t = q
resolve-cases P expire p q t = t

module _ (now ttl : ℕ) where
  -- The pass only takes entries away.
  pub sweep-All :
      (P : ℕ × ℕ → Type 0) (ss : List Session) (m : Index) → All P m → All P (sweep now ttl ss m).1
  unfolding sweep
  sweep-All P ss [] h = tt
  sweep-All P ss ((id, a) ∷ m) (h, hs) =
      let rest = sweep-All P ss m hs in
      resolve-cases (λ r. All P r.1) (verdict_at now ttl (get_elem? ss a)) (h, rest) rest
        (sweep-All P (update ss a close) m hs)

  sweep-Distinct : (ss : List Session) (m : Index) → Distinct m → Distinct (sweep now ttl ss m).1
  unfolding sweep
  sweep-Distinct ss [] h = tt
  sweep-Distinct ss ((id, a) ∷ m) (h, hs) =
      let rest = sweep-Distinct ss m hs in
      resolve-cases (λ r. Distinct r.1) (verdict_at now ttl (get_elem? ss a))
        (sweep-All (λ e. e.0 ≢ id) ss m h, rest) rest (sweep-Distinct (update ss a close) m hs)

  sweep-Leads :
      (ss : List Session) (m : Index) (e : ℕ × ℕ) → Leads ss e → Leads (sweep now ttl ss m).0 e
  unfolding sweep
  sweep-Leads ss [] e h = h
  sweep-Leads ss ((id, a) ∷ m) e h =
      let rest = sweep-Leads ss m e h in
      resolve-cases (λ r. Leads r.0 e) (verdict_at now ttl (get_elem? ss a)) rest rest
        (sweep-Leads (update ss a close) m e (Leads-update ss a e h))

cleanup-IsValid : {m : Manager} (now : ℕ) → IsValid m → IsValid (cleanup m now)
unfolding cleanup
cleanup-IsValid {m} now v = record {
  distinct = sweep-Distinct now m.ttl m.store m.sessions v.distinct;
  leads =
      sweep-All now m.ttl _ m.store m.sessions
        (All-mono _ _ m.sessions (sweep-Leads now m.ttl m.store m.sessions) v.leads);
}

-- What may happen to a manager.
pub data Event : Type 0 where
  asks : ℕ → ℕ → Event
  removes : ℕ → Event
  ticks : ℕ → Event
  -- A method of a session, by whoever holds a pointer to it.
  acts : ℕ → (f : Session → Session) → ((s : Session) → (f s).id ≡ s.id) → Event

unfoldable pub step : Manager → Event → Manager
step m (asks id now) = (get_or_create m id now).0
step m (removes id) = remove m id
step m (ticks now) = cleanup m now
step m (acts a f same_id) = record m { store = update m.store a f }

unfoldable pub run : Manager → List Event → Manager
run m [] = m
run m (e ∷ es) = run (step m e) es

step-IsValid : {m : Manager} (e : Event) → IsValid m → IsValid (step m e)
unfolding step
step-IsValid (asks id now) v = get_or_create-IsValid id now v
step-IsValid (removes id) v = remove-IsValid id v
step-IsValid (ticks now) v = cleanup-IsValid now v
step-IsValid {m} (acts a f same_id) v = record {
  distinct = v.distinct;
  leads = All-mono _ _ m.sessions (Leads-act m.store a f same_id) v.leads;
}

run-IsValid : (m : Manager) (es : List Event) → IsValid m → IsValid (run m es)
unfolding run
run-IsValid m [] v = v
run-IsValid m (e ∷ es) v = run-IsValid (step m e) es (step-IsValid e v)

-- Through any history of requests, removals, cleanup ticks and methods of the sessions, a manager
-- has no identifier twice, and every entry leads to a session of that identifier.
pub run-new_manager :
    (ttl : ℕ) (bytes : ℤ) (es : List Event) → IsValid (run (new_manager ttl bytes) es)
unfolding new_manager
run-new_manager ttl bytes es = run-IsValid _ es (record { distinct = tt; leads = tt })
