-- ===== src/Transport/Pool.antt =====
-- internal/transport/pool.go: connections that are dialled ahead. A connection is the number of
-- connections that were there before it; the channel `pool` is the list of those that wait in it.
-- No lock is held: calls of `Dial` and the goroutine of the refill go on in any order, in steps that
-- end where one of them tests the channel, has a connection of the inner transport, or puts one into
-- the channel.
pub mod Order
pub mod Places
pub mod Tests
use nightveil.Prelude.{
  Bool, List, Option, [], false, if◌then◌else◌, leb_ℤ, length, ltb, none, pos, pos_part, some, suc,
  true, ℕ, ℤ, ◌++◌, ◌-◌, ◌==◌, ◌∷◌, ltb_ℤ,
}

pub record Config : Type 0 where
  pub size : ℤ
  pub refill_delay : ℤ

unfoldable pub defaults : Config → Config
defaults c = record {
  size = if leb_ℤ c.size (pos 0) then pos 2 else c.size;
  refill_delay = if leb_ℤ c.refill_delay (pos 0) then pos 5_000_000_000 else c.refill_delay;
}

-- `PooledTransport`, with how many connections were made and which of them were closed here.
pub record Pool : Type 0 where
  pub config : Config
  pub waiting : List ℕ
  pub made : ℕ
  pub closed : List ℕ

unfoldable pub new_pool : Config → Pool
unfolding defaults
new_pool c = record { config = defaults c; waiting = []; made = 0; closed = [] }

-- The `select` of `Dial`: a connection of the channel, or none where it is empty.
abbrev pub take_from : Pool → List ℕ → Pool × Option ℕ
take_from p [] = (p, none)
take_from p (id ∷ rest) = (record p { waiting = rest }, some id)

unfoldable pub take_pooled : Pool → Pool × Option ℕ
take_pooled p = take_from p p.waiting

-- `p.inner.Dial`, where `up` is whether it works.
unfoldable pub dial_inner : Pool → Bool → Pool × Option ℕ
dial_inner p up = if up then (record p { made = suc p.made }, some p.made) else (p, none)

-- `len(p.pool) < p.config.Size`
unfoldable pub has_room : Pool → Bool
has_room p = ltb_ℤ (pos (length p.waiting)) p.config.size

-- The `select` of the refill, which closes the connection where the channel is full.
unfoldable pub offer : Pool → ℕ → Pool
offer p id =
    if ltb_ℤ (pos (length p.waiting)) p.config.size
    then record p { waiting = p.waiting ++ id ∷ [] }
    else record p { closed = p.closed ++ id ∷ [] }

-- `Close`, once the refill has stopped.
unfoldable pub close : Pool → Pool
close p = record p { waiting = []; closed = p.closed ++ p.waiting }

-- Where the goroutine of `refillLoop` stands: before the test of the inner loop; in the inner dial
-- that follows it; or with a connection that it has still to offer.
pub data Refiller : Type 0 where
  rests dialling : Refiller
  holds : ℕ → Refiller

-- The pool, its refill, how many calls of `Dial` found the channel empty and are in the inner dial,
-- and what `Dial` returned, from the channel and from such a dial.
pub record System : Type 0 where
  pub pool : Pool
  pub refiller : Refiller
  pub asking : ℕ
  pub pooled : List ℕ
  pub direct : List ℕ

unfoldable pub new_system : Config → System
unfolding new_pool
new_system c = record { pool = new_pool c; refiller = rests; asking = 0; pooled = []; direct = [] }

abbrev pub to_list : Option ℕ → List ℕ
to_list none = []
to_list (some id) = id ∷ []

-- A call of `Dial` up to its `select`: it returns, or goes on to the inner dial.
abbrev pub after_take : System → Pool × Option ℕ → System
after_take s (p, some id) = record s { pool = p; pooled = s.pooled ++ id ∷ [] }
after_take s (p, none) = record s { pool = p; asking = suc s.asking }

unfoldable pub start_dial : System → System
unfolding take_pooled
start_dial s = after_take s (take_pooled s.pool)

-- The end of such a call in the inner dial.
unfoldable pub end_dial : System → Bool → System
unfolding dial_inner
end_dial s up =
    let (p, got) = dial_inner s.pool up in
    if s.asking == 0
    then s
    else record s { pool = p; asking = s.asking - 1; direct = s.direct ++ to_list got }

abbrev pub after_dial : Option ℕ → Refiller
after_dial none = rests
after_dial (some id) = holds id

-- The next step of the refill.
unfoldable pub refill_from : System → Refiller → Bool → System
unfolding has_room dial_inner offer
refill_from s rests up = record s { refiller = if has_room s.pool then dialling else rests }
refill_from s dialling up =
    let (p, got) = dial_inner s.pool up in record s { pool = p; refiller = after_dial got }
refill_from s (holds id) up = record s { pool = offer s.pool id; refiller = rests }

unfoldable pub refill : System → Bool → System
unfolding refill_from
refill s up = refill_from s s.refiller up

pub data Event : Type 0 where
  starts : Event
  ends refills : Bool → Event

unfoldable pub run : System → List Event → System
unfolding start_dial end_dial refill
run s [] = s
run s (starts ∷ es) = run (start_dial s) es
run s (ends up ∷ es) = run (end_dial s up) es
run s (refills up ∷ es) = run (refill s up) es
