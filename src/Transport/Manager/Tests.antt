-- ===== src/Transport/Manager/Tests.antt =====
-- Failover at concrete inputs.
use nightveil.Prelude.{
  Bool, Bytes, List, [], arith, codes, false, pos, refl, true, ℕ, ◌<◌, ◌==◌, ◌∷◌, ◌≡◌, ◌≢◌, ◌≤◌,
  ◌⊎◌,
}
use nightveil.Transport.Manager.{
  Manager, connected, index_panic, new_manager, first_up, dial, try_promote, Event, dials, promotes,
  replaces, run, all_failed,
}
use nightveil.Transport.Manager.Failover.{Chosen, dial_lem, try_promote_lem, run-ne_panic}

abbrev names : List Bytes
names = codes "xhttp" ∷ codes "raw" ∷ codes "quic" ∷ []

-- Only the third transport answers.
abbrev quic_only : ℕ → Bool
quic_only i = i == 2

abbrev started : Manager
started = record { transports = names; active_idx = 0 }

falls_back : dial started quic_only ≡ (record started { active_idx = 2 }, connected 2)
unfolding dial first_up
falls_back = refl

dial_lem_example :
    let (m', r) = dial started quic_only in
    ((k : ℕ) × (r ≡ connected k) × Chosen started m' quic_only k)
    ⊎ ((r ≡ all_failed) × (m' ≡ started) × ((j : ℕ) → j < 3 → quic_only j ≡ false))
dial_lem_example = dial_lem started quic_only (omega arith)

try_promote_lem_example :
    let m' = try_promote (record started { active_idx = 2 }) (λ i. i == 1) in
    (m'.active_idx ≤ 2)
    × ((m'.active_idx ≡ 2) ⊎ ((m'.active_idx == 1) ≡ true))
    × ((j : ℕ) → j < m'.active_idx → (j == 1) ≡ false)
    × (m'.transports ≡ names)
try_promote_lem_example = try_promote_lem (record started { active_idx = 2 }) (λ i. i == 1)

abbrev history : List Event
history = dials quic_only ∷ replaces (pos 7) (codes "ws") ∷ promotes (λ i. i == 0) ∷ []

run-ne_panic_example : (dial (run (new_manager names) history) quic_only).1 ≢ index_panic
run-ne_panic_example = run-ne_panic names history quic_only (λ e. cc)
