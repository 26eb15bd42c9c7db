-- ===== src/Transport/Reconnect/Tests.antt =====
-- internal/transport/reconnect.go at concrete inputs.
use nightveil.Prelude.{
  arith, false, max, pos, refl, some, suc, zero, ℕ, ◌*◌, ◌<◌, ◌==◌, ◌≡◌, [], ◌∷◌,
}
use nightveil.Transport.Reconnect.{Config, Dialled, Round, connected, defaults, dial}
use nightveil.Transport.Reconnect.Ends.{Ended, Fails, dial-Ended, dial-connects}

abbrev config : Config
config = record { max_retries = pos 4; initial_delay = pos 10; max_delay = pos 25 }

abbrev double : ℕ → ℕ
double d = d * 2

-- The third dial works.
abbrev rounds : ℕ → Round
rounds j = record { closed = false; connects = j == 2; cancelled = false }

dial-Ended_example : Ended 0 4 (max 10 25) (dial double config rounds 4)
unfolding defaults
dial-Ended_example = dial-Ended double config rounds 3 refl

rounds-Fails : (j : ℕ) → j < 2 → Fails (rounds j)
rounds-Fails zero h = (refl, refl, refl)
rounds-Fails (suc zero) h = (refl, refl, refl)
rounds-Fails (suc (suc j)) h = absurd (omega arith)

dial-connects_example :
    (d : Dialled) × (dial double config rounds 3 ≡ some d) × (d.result ≡ connected 2)
dial-connects_example = dial-connects double config rounds 2 rounds-Fails refl refl refl

dial_test :
    dial double config rounds 4
    ≡ some (record { result = connected 2; dials = 3; waits = 10 ∷ 20 ∷ [] })
unfolding dial
dial_test = refl
