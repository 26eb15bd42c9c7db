-- ===== src/Transport/Xhttp/Accept/Tests.antt =====
-- A session whose upload comes first.
use nightveil.Prelude.{List, [], if◌then◌else◌, ◌++◌, ◌∷◌, ◌≡◌}
use nightveil.Transport.Xhttp.Accept.{Event, upload, download, requests, accepts, run}
use nightveil.Transport.Xhttp.Accept.Once.{fresh, has_download_in, run-fresh}

abbrev events : List Event
events = requests upload ∷ accepts ∷ requests download ∷ requests upload ∷ accepts ∷ accepts ∷ []

run-fresh_example :
    let r = run (fresh 5, []) events in
    r.1 ++ r.0.1 ≡ (if has_download_in events then 5 ∷ [] else [])
run-fresh_example = run-fresh 5 events
