-- ===== src/Session/Manager/Tests.antt =====
-- Runs of the manager, and the theorems about it at concrete inputs.
use nightveil.Prelude.{List, [], arith, get_elem?, none, pos, refl, some, true, ◌∷◌, ◌≡◌, ◌≢◌}
use nightveil.Session.Tunnel
use nightveil.Session.Tunnel.{Session, new_session, close, mark_connected}
use nightveil.Session.Manager.{
  Manager, new_manager, lookup, update, get_or_create, get, remove, count, sweep, cleanup, verdict,
}
use nightveil.Session.Manager.Valid.{
  IsValid, Event, asks, removes, ticks, run, run-new_manager, step,
}
use nightveil.Session.Manager.Cleanup.{
  get-cleanup, get_or_create-get_or_create, remove-run, remove_lem,
}

-- Two sessions, made at 0 and at 50; the second is connected.
abbrev old : Session
old = new_session 4 0 (pos 1)

abbrev young : Session
young = mark_connected (new_session 9 50 (pos 1))

abbrev two : Manager
two = record {
  store = old ∷ young ∷ [];
  sessions = (9, 1) ∷ (4, 0) ∷ [];
  ttl = 30;
  download_buffer_bytes = pos 1;
}

two-IsValid : IsValid two
unfolding mark_connected new_session
two-IsValid = record {
  distinct = ((λ e. omega arith, tt), (tt, tt));
  leads = ((young, refl, refl), ((old, refl, refl), tt));
}

history : List Event
history = asks 4 0 ∷ asks 9 50 ∷ asks 4 51 ∷ ticks 60 ∷ removes 9 ∷ []

run-new_manager_example : IsValid (run (new_manager 30 (pos 1)) history)
run-new_manager_example = run-new_manager 30 (pos 1) history

-- At 60 the first session has not connected within 30.
get-cleanup_example :
    let m = cleanup two 60 in
    (lookup 4 m.sessions ≡ none)
    × (t : Session) × (get_elem? m.store 0 ≡ some t)
    × (t.closed ≡ true)
unfolding new_session mark_connected verdict lookup get
get-cleanup_example = get-cleanup 60 4 two-IsValid refl refl

get-cleanup_counts : count (cleanup two 60) ≡ 1
unfolding count cleanup sweep verdict new_session mark_connected update close Tunnel.end_upload
get-cleanup_counts = refl

get_or_create-get_or_create_example :
    get_or_create (get_or_create two 5 70).0 5 80 ≡ get_or_create two 5 70
get_or_create-get_or_create_example = (get_or_create-get_or_create 5 70 80 two-IsValid).0

remove_lem_example : get (remove two 9) 9 ≡ none
unfolding get lookup
remove_lem_example = (remove_lem 9 two-IsValid refl refl).0

-- Before the removal at the end of `history`.
abbrev asked : List Event
asked = asks 4 0 ∷ asks 9 50 ∷ asks 4 51 ∷ []

remove-run_example :
    let m = run (new_manager 30 (pos 1)) asked in
    let m' = remove m 9 in
    (s : Session) × (get_elem? m.store 1 ≡ some s)
    × (s.id ≡ 9)
    × (get_elem? m'.store 1 ≡ some (close s))
    × (get m' 9 ≡ none)
    × (get m' 4 ≡ get m 4)
    × ((get_or_create m' 9 70).1 ≢ 1)
unfolding get run step get_or_create new_manager lookup new_session
remove-run_example = remove-run 30 (pos 1) asked 9 4 70 refl
