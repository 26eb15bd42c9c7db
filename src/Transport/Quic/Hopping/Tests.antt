-- ===== src/Transport/Quic/Hopping/Tests.antt =====
-- internal/transport/quictun/hopping.go at concrete inputs.
use nightveil.Prelude.{
  Option, [], arith, pos, pos_part, some, ℕ, ℤ, ◌∷◌, refl, ◌-◌, leb_ℤ, if◌then◌else◌, none, ◌<◌,
  ◌≡◌, ◌+ℤ◌,
}
use nightveil.Transport.Quic.Hopping.{Config, defaults, new_conn, run}
use nightveil.Transport.Quic.Hopping.Ports.{Aimed, IsDraw, IsRange, run-new_conn}

abbrev config : Config
config = record { port_min = pos 0; port_max = pos 0; interval = pos 0 }

abbrev draw : ℕ → ℕ
draw n = n - 1

draw-IsDraw : IsDraw draw
draw-IsDraw n h = omega arith

-- No address for a port that does not fit 16 bits.
abbrev resolve : ℤ → Option ℕ
resolve p = if leb_ℤ (pos 65_536) p then none else some (pos_part p)

abbrev same_port : ℕ → ℕ
same_port p = p

resolve_lem : (p : ℕ) → p < 65_536 → resolve (pos p) ≡ some (same_port p)
resolve_lem p h = ground arith

run-new_conn_example :
    (low width : ℕ) × IsRange (defaults config) low width
    × Aimed resolve same_port resolve_lem low width
        (run resolve (new_conn resolve draw config) (draw ∷ draw ∷ []))
unfolding defaults ◌+ℤ◌
run-new_conn_example =
    run-new_conn resolve same_port resolve_lem config draw (draw ∷ draw ∷ []) draw-IsDraw
      (draw-IsDraw, (draw-IsDraw, tt)) refl
