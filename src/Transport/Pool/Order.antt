-- ===== src/Transport/Pool/Order.antt =====
-- internal/transport/pool.go: where each connection goes.
use nightveil.Prelude.{
  All, Bool, Bool-cases, List, [], ap, append-nil, append_assoc, arith, false, inl, inr, length,
  length-append, ltb, pos_part, refl, suc, sym, true, ℕ, ◌++◌, ◌∙◌, ◌∷◌, ◌≡◌, ◌≤◌, ◌<◌, ◌-◌, ◌==◌,
  if◌then◌else◌,
}
use mathlib.Core.Path.{subst}
use nightveil.Transport.Pool.{
  Config, Event, Refiller, System, after_take, close, defaults, dial_inner, dialling, end_dial,
  ends, has_room, holds, new_pool, new_system, offer, refill, refill_from, refills, rests, run,
  start_dial, starts, take_from, take_pooled, to_list,
}
use nightveil.Transport.Pool.Places.{
  All-snoc, All-suc, HasRoom, HasRoom-less, Increasing, Increasing-snoc, IsValid, times-append,
  held, offer_lem, places, queue, times,
}

module _ (c : Config) where
  take-IsValid :
      (s : System) (w : List ℕ)
      → s.pool.waiting ≡ w
      → IsValid c s
      → IsValid c (after_take s (take_from s.pool w))
  take-IsValid s [] e v = record {
    placed = v.placed;
    order = v.order;
    below = v.below;
    bounded = v.bounded;
    room = v.room;
    none_closed = v.none_closed;
    config_eq = v.config_eq;
  }
  take-IsValid s (id ∷ rest) e v =
      let same : queue s ≡ (s.pooled ++ id ∷ []) ++ (rest ++ held s.refiller) =
        ap (λ w. s.pooled ++ (w ++ held s.refiller)) e
        ∙ sym (append_assoc s.pooled (id ∷ []) (rest ++ held s.refiller)) in
      let shorter : length rest ≤ length s.pool.waiting = omega (arith, ap length e) in
      record {
        placed = λ j. omega (arith, v.placed j, ap (times j) e, times-append j s.pooled (id ∷ []));
        order = subst Increasing same v.order;
        below = subst (All (λ j. j < s.pool.made)) same v.below;
        bounded = omega (arith, v.bounded);
        room =
            HasRoom-less s.refiller (length rest) (length s.pool.waiting) (pos_part c.size) shorter
              v.room;
        none_closed = v.none_closed;
        config_eq = v.config_eq;
      }

  end_dial-IsValid : (s : System) (up : Bool) → IsValid c s → IsValid c (end_dial s up)
  unfolding end_dial dial_inner
  end_dial-IsValid s up v = elim (Bool-cases (s.asking == 0)) [
    | inl nobody ↦ rw nobody v
    | inr asks ↦ rw asks (answer up)
  ]
    where
      answer :
          (up : Bool)
          → let (p, got) = dial_inner s.pool up in
            IsValid c
              (record s { pool = p; asking = s.asking - 1; direct = s.direct ++ to_list got })
      answer false = record {
        placed = λ j. omega (arith, v.placed j, times-append j s.direct []);
        order = v.order;
        below = v.below;
        bounded = v.bounded;
        room = v.room;
        none_closed = v.none_closed;
        config_eq = v.config_eq;
      }
      answer true = record {
        placed = λ j. ground (arith, v.placed j, times-append j s.direct (s.pool.made ∷ []));
        order = v.order;
        below = All-suc (queue s) s.pool.made v.below;
        bounded = v.bounded;
        room = v.room;
        none_closed = v.none_closed;
        config_eq = v.config_eq;
      }

  -- The step of the refill by where it stands.
  refill_rests :
      (s : System)
      → s.refiller ≡ rests
      → IsValid c s
      → (up : Bool) → IsValid c (refill_from s rests up)
  unfolding refill_from has_room
  refill_rests s e v up =
      let nothing : held s.refiller ≡ [] = ap held e in
      let size = ap (λ k. pos_part k.size) v.config_eq in
      elim (Bool-cases (has_room s.pool)) [
        | inr full ↦ simp (refill_from, full) (same_refiller rests nothing tt)
        | inl free ↦
            simp (refill_from, free) (same_refiller dialling nothing (ground (arith, size)))
      ]
    where
      same_refiller :
          (r : Refiller)
          → held s.refiller ≡ held r
          → HasRoom r (length s.pool.waiting) (pos_part c.size)
          → IsValid c (record s { refiller = r })
      same_refiller r h k = record {
        placed = λ j. omega (arith, v.placed j, ap (times j) h);
        order = subst (λ l. Increasing (s.pooled ++ (s.pool.waiting ++ l))) h v.order;
        below =
            subst (λ l. All (λ j. j < s.pool.made) (s.pooled ++ (s.pool.waiting ++ l))) h v.below;
        bounded = v.bounded;
        room = k;
        none_closed = v.none_closed;
        config_eq = v.config_eq;
      }

  refill_dialling :
      (s : System) (up : Bool)
      → s.refiller ≡ dialling
      → IsValid c s
      → IsValid c (refill_from s dialling up)
  unfolding refill_from dial_inner
  refill_dialling s false e v =
      let nothing : held s.refiller ≡ [] = ap held e in
      record {
        placed = λ j. omega (arith, v.placed j, ap (times j) nothing);
        order = subst (λ l. Increasing (s.pooled ++ (s.pool.waiting ++ l))) nothing v.order;
        below =
            subst (λ l. All (λ j. j < s.pool.made) (s.pooled ++ (s.pool.waiting ++ l))) nothing
              v.below;
        bounded = v.bounded;
        room = tt;
        none_closed = v.none_closed;
        config_eq = v.config_eq;
      }
  refill_dialling s true e v =
      let n = s.pool.made in
      let w = s.pool.waiting in
      let nothing : held s.refiller ≡ [] = ap held e in
      let before : queue s ≡ s.pooled ++ w =
        ap (λ l. s.pooled ++ (w ++ l)) nothing ∙ ap (λ l. s.pooled ++ l) (append-nil w) in
      let longer : queue s ++ n ∷ [] ≡ s.pooled ++ (w ++ n ∷ []) =
        ap (λ l. l ++ n ∷ []) before ∙ append_assoc s.pooled w (n ∷ []) in
      record {
        placed = λ j. ground (arith, v.placed j, ap (times j) nothing);
        order = subst Increasing longer (Increasing-snoc (queue s) n v.order v.below);
        below =
            subst (All (λ j. j < suc n)) longer
              (All-snoc (λ j. j < suc n) (queue s) n (All-suc (queue s) n v.below) (omega arith));
        bounded = v.bounded;
        room = subst (λ r. HasRoom r (length w) (pos_part c.size)) e v.room;
        none_closed = v.none_closed;
        config_eq = v.config_eq;
      }

  refill_holds :
      (s : System) (id : ℕ) (up : Bool)
      → s.refiller ≡ holds id
      → IsValid c s
      → IsValid c (refill_from s (holds id) up)
  unfolding refill_from
  refill_holds s id up e v =
      let w = s.pool.waiting in
      let one : held s.refiller ≡ id ∷ [] = ap held e in
      let room : length w < pos_part c.size =
        subst (λ r. HasRoom r (length w) (pos_part c.size)) e v.room in
      let same : queue s ≡ s.pooled ++ ((w ++ id ∷ []) ++ []) =
        ap (λ l. s.pooled ++ (w ++ l)) one
        ∙ ap (λ l. s.pooled ++ l) (sym (append-nil (w ++ id ∷ []))) in
      let done : offer s.pool id ≡ record (s.pool) { waiting = w ++ id ∷ [] } =
        offer_lem s.pool id (omega (arith, room, ap (λ k. pos_part k.size) v.config_eq)) in
      subst (λ p. IsValid c (record s { pool = p; refiller = rests })) (sym done)
        (record {
          placed = λ j. omega (arith, v.placed j, ap (times j) one, times-append j w (id ∷ []));
          order = subst Increasing same v.order;
          below = subst (All (λ j. j < s.pool.made)) same v.below;
          bounded = omega (arith, room, length-append w (id ∷ []));
          room = tt;
          none_closed = v.none_closed;
          config_eq = v.config_eq;
        })

  refill_from-IsValid :
      (s : System) (r : Refiller) (up : Bool)
      → s.refiller ≡ r
      → IsValid c s
      → IsValid c (refill_from s r up)
  refill_from-IsValid s rests up e v = refill_rests s e v up
  refill_from-IsValid s dialling up e v = refill_dialling s up e v
  refill_from-IsValid s (holds id) up e v = refill_holds s id up e v

  run-IsValid : (s : System) (es : List Event) → IsValid c s → IsValid c (run s es)
  unfolding run start_dial refill take_pooled
  run-IsValid s [] v = v
  run-IsValid s (starts ∷ es) v =
      run-IsValid (start_dial s) es (take-IsValid s s.pool.waiting refl v)
  run-IsValid s (ends up ∷ es) v = run-IsValid (end_dial s up) es (end_dial-IsValid s up v)
  run-IsValid s (refills up ∷ es) v =
      run-IsValid (refill s up) es (refill_from-IsValid s s.refiller up refl v)

-- However calls of `Dial` and the refill interleave, and whichever of their inner dials fail: each
-- connection that was made is at exactly one place, with a caller, in the channel or with the refill
-- that is about to offer it. The channel gives its connections to the callers in the order of their
-- making, and never holds more than the configured size; the refill never has to close one for want
-- of room, and a `Close` then closes exactly those in the channel.
pub run-new_pool :
    (c : Config) (es : List Event) (id : ℕ)
    → let s = run (new_system c) es in
      (places id s ≡ (if ltb id s.pool.made then 1 else 0))
      × Increasing (queue s)
      × (length s.pool.waiting ≤ pos_part (defaults c).size)
      × (s.pool.closed ≡ [])
      × ((close s.pool).closed ≡ s.pool.waiting)
unfolding new_system new_pool close
run-new_pool c es id =
    let v = run-IsValid (defaults c) (new_system c) es (record {
      placed = λ j. ground arith;
      order = tt;
      below = tt;
      bounded = omega arith;
      room = tt;
      none_closed = refl;
      config_eq = refl;
    }) in
    let s = run (new_system c) es in
    (v.placed id, v.order, v.bounded, v.none_closed, ap (λ w. w ++ s.pool.waiting) v.none_closed)
