-- ===== src/Transport/Xhttp/Accept/Once.antt =====
-- A session is handed out once.
use nightveil.Prelude.{
  Bool, Bool-cases, List, [], ap, false, if◌then◌else◌, inl, inr, refl, true, ℕ, ◌++◌, ◌∙◌, ◌∷◌,
  ◌≡◌,
}
use nightveil.Transport.Xhttp.Accept.{
  Emission, State, Event, Request, upload, download, requests, accepts, handle, handle_upload,
  handle_download, try_emit, accept, run,
}

abbrev pub fresh : ℕ → Emission
fresh id = record { id = id; has_upload = false; has_download = false; accepted = false }

abbrev pub has_download_in : List Event → Bool
has_download_in [] = false
has_download_in (requests upload ∷ es) = has_download_in es
has_download_in (requests download ∷ es) = true
has_download_in (accepts ∷ es) = has_download_in es

handle-accepted :
    (r : Request) (s : Emission) (ch : List ℕ)
    → s.accepted ≡ true
    → ((handle r (s, ch)).0.accepted ≡ true) × ((handle r (s, ch)).1 ≡ ch)
unfolding handle_upload handle_download try_emit
handle-accepted upload s ch a = elim (Bool-cases s.has_download) [
  | inl e ↦ simp (e, a) (refl, refl)
  | inr e ↦ simp (e, a) (refl, refl)
]
handle-accepted download s ch a = simp a (refl, refl)

run-accepted :
    (st : State) (es : List Event) → st.0.accepted ≡ true → (run st es).1 ++ (run st es).0.1 ≡ st.1
unfolding run accept
run-accepted st [] a = refl
run-accepted (s, ch) (requests r ∷ es) a =
    let (b, same) = handle-accepted r s ch a in run-accepted (handle r (s, ch)) es b ∙ same
run-accepted (s, []) (accepts ∷ es) a = run-accepted (s, []) es a
run-accepted (s, id ∷ ch) (accepts ∷ es) a = ap (λ x. id ∷ x) (run-accepted (s, ch) es a)

run_waiting :
    (id : ℕ) (b : Bool) (es : List Event)
    → let r = run (record (fresh id) { has_upload = b }, []) es in
      r.1 ++ r.0.1 ≡ (if has_download_in es then id ∷ [] else [])
unfolding run accept handle_upload handle_download try_emit
run_waiting id b [] = refl
run_waiting id b (requests upload ∷ es) = run_waiting id true es
run_waiting id b (requests download ∷ es) =
    run-accepted
      (record (fresh id) { has_upload = b; has_download = true; accepted = true }, id ∷ []) es refl
run_waiting id b (accepts ∷ es) = run_waiting id b es

-- Of a new session whose channel is empty, whatever requests come and whenever `Accept` is called:
-- once a download was asked for, `Accept` has returned the session exactly once or the channel holds
-- it exactly once; before that, neither does at all.
pub run-fresh :
    (id : ℕ) (es : List Event)
    → let r = run (fresh id, []) es in r.1 ++ r.0.1 ≡ (if has_download_in es then id ∷ [] else [])
run-fresh id es = run_waiting id false es
