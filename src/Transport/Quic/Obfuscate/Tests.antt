-- ===== src/Transport/Quic/Obfuscate/Tests.antt =====
-- internal/transport/quictun/obfuscate.go at concrete inputs.
use nightveil.Prelude.{All, Bytes, [], arith, refl, ◌<◌, ◌∷◌, ◌≡◌}
use nightveil.Transport.Quic.Obfuscate.{read_from, write_to}
use nightveil.Transport.Quic.Obfuscate.RoundTrip.{read_from-write_to}

-- A short key stands for the hash.
abbrev sum256 : Bytes → Bytes
sum256 s = 91 ∷ 7 ∷ 200 ∷ []

sum256-bytes : (s : Bytes) → All (λ b. b < 256) (sum256 s)
sum256-bytes s = (omega arith, (omega arith, (omega arith, tt)))

abbrev salt : Bytes
salt = 1 ∷ 2 ∷ 3 ∷ 4 ∷ 5 ∷ 6 ∷ 7 ∷ 8 ∷ []

read_from-write_to_example :
    read_from sum256 (42 ∷ []) 100 (write_to sum256 (42 ∷ []) salt (10 ∷ 20 ∷ 30 ∷ 40 ∷ []))
    ≡ 10 ∷ 20 ∷ 30 ∷ 40 ∷ []
read_from-write_to_example =
    read_from-write_to sum256 sum256-bytes (42 ∷ []) salt (10 ∷ 20 ∷ 30 ∷ 40 ∷ []) 100 refl
      (omega arith, (omega arith, (omega arith, (omega arith, tt))))
