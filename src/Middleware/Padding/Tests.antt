-- ===== src/Middleware/Padding/Tests.antt =====
-- Padding at concrete inputs.
use nightveil.Prelude.{Bytes, [], arith, ◌∷◌}
use nightveil.Middleware.Padding.{write, reads}
use nightveil.Middleware.Padding.RoundTrip.{IsDelivered, reads-write}

abbrev text : Bytes
text = 104 ∷ 101 ∷ 108 ∷ 108 ∷ 111 ∷ []

reads-write_example :
    IsDelivered text
      (reads
        (record { input = write text ((7 ∷ 7 ∷ 7 ∷ []) ∷ []); leftover = [] })
        (2 ∷ 2 ∷ 2 ∷ 1 ∷ [])).1
reads-write_example =
    reads-write text ((7 ∷ 7 ∷ 7 ∷ []) ∷ []) (2 ∷ 2 ∷ 2 ∷ 1 ∷ []) (omega arith, tt)
