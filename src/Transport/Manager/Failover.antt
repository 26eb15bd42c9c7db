-- ===== src/Transport/Manager/Failover.antt =====
-- Which transport a dial and a health check choose.
use nightveil.Prelude.{
  ℕ, Bool, Bool-cases, arith, false, inl, inr, length, none, some, suc, true, zero, ℕ_discrete, ◌+◌,
  ◌<◌, ◌≡◌, ◌≢◌, ◌≤◌, ◌⊎◌, Bytes, List, Option-cases, [], ap, leb, negsuc, pos, refl, set, ◌==◌,
  ◌∷◌, dec_lt, nil_of_length,
}
use nightveil.Transport.Manager.{
  Manager, first_up, dial, try_promote, step, run, new_manager, connected, Event, all_failed,
  index_panic, dials, replaces, replace, promotes,
}

-- `k` is the first index in the range whose transport answers.
pub record IsFirst (up : ℕ → Bool) (skip n i k : ℕ) : Type 0 where
  pub low : i ≤ k
  pub high : k < i + n
  pub other : k ≢ skip
  pub answers : up k ≡ true
  pub silent : (j : ℕ) → i ≤ j → j < k → j ≢ skip → up j ≡ false

first_up-some :
    (up : ℕ → Bool) (skip n i : ℕ) {k : ℕ} → first_up up skip n i ≡ some k → IsFirst up skip n i k
unfolding first_up
first_up-some up skip zero i e = cc
first_up-some up skip (suc n) i {k} e = elim (ℕ_discrete i skip) [
  | yes same ↦
      let r = first_up-some up skip n (i + 1) {k = k} (ground arith) in
      record {
        low = omega (arith, r.low);
        high = omega (arith, r.high);
        other = r.other;
        answers = r.answers;
        silent = λ j a b c. r.silent j (omega arith) b c;
      }
  | no differ ↦ elim (Bool-cases (up i)) [
    | inl up_i ↦
        let here : k ≡ i = ground arith in
        record {
          low = omega arith;
          high = omega arith;
          other = rw here differ;
          answers = rw here up_i;
          silent = λ j a b c. absurd (omega arith);
        }
    | inr down ↦
        let r = first_up-some up skip n (i + 1) {k = k} (ground arith) in
        record {
          low = omega (arith, r.low);
          high = omega (arith, r.high);
          other = r.other;
          answers = r.answers;
          silent = λ j a b c. elim (ℕ_discrete j i) [
            | yes e' ↦ rw e' down
            | no ne ↦ r.silent j (omega arith) b c
          ];
        }
  ]
]

first_up-none :
    (up : ℕ → Bool) (skip n i : ℕ)
    → first_up up skip n i ≡ none
    → (j : ℕ) → i ≤ j
    → j < i + n
    → j ≢ skip
    → up j ≡ false
unfolding first_up
first_up-none up skip zero i e j a b c = absurd (omega arith)
first_up-none up skip (suc n) i e j a b c = elim (ℕ_discrete i j) [
  | yes same ↦ ground arith
  | no differ ↦ first_up-none up skip n (i + 1) (ground arith) j (omega arith) (omega arith) c
]

-- There is an active transport.
abbrev pub IsValid : Manager → Type 0
IsValid m = m.active_idx < length m.transports

-- The transport that a dial came through, and where the manager then stands.
pub record Chosen (m m' : Manager) (up : ℕ → Bool) (k : ℕ) : Type 0 where
  pub answers : up k ≡ true
  pub in_range : k < length m.transports
  pub switched : m' ≡ record m { active_idx = k }
  pub first : (k ≡ m.active_idx) ⊎ ((up m.active_idx ≡ false) × ((j : ℕ) → j < k → up j ≡ false))

-- A dial comes through the active transport if that answers, else through the first of the list
-- that does, which becomes the active one; it fails exactly if no transport answers, and then
-- nothing changes. There is no panic while there is an active transport.
pub dial_lem :
    (m : Manager) (up : ℕ → Bool)
    → IsValid m
    → let (m', r) = dial m up in
      ((k : ℕ) × (r ≡ connected k) × Chosen m m' up k)
      ⊎ ((r ≡ all_failed) × (m' ≡ m) × ((j : ℕ) → j < length m.transports → up j ≡ false))
unfolding dial
dial_lem m up v =
    let n = length m.transports in
    let a = m.active_idx in
    let valid : leb n a ≡ false = ground arith in
    elim (Bool-cases (up a)) [
      | inl answer ↦
          rw (valid, answer)
            (inl (
              a,
              refl,
              record { answers = answer; in_range = v; switched = refl; first = inl refl },
            ))
      | inr down ↦ elim (Option-cases (first_up up a n 0)) [
        | inl e ↦
            let silent = first_up-none up a n 0 e in
            rw (valid, down, e, dial)
              (inr (
                refl,
                refl,
                λ j h. elim (ℕ_discrete j a) [
                  | yes same ↦ rw same down
                  | no ne ↦ silent j (omega arith) (omega arith) ne
                ],
              ))
        | inr (k, e) ↦
            let f = first_up-some up a n 0 e in
            rw (valid, down, e, dial)
              (inl (
                k,
                refl,
                record {
                  answers = f.answers;
                  in_range = omega (arith, f.high);
                  switched = refl;
                  first = inr (
                    down,
                    λ j h. elim (ℕ_discrete j a) [
                      | yes same ↦ rw same down
                      | no ne ↦ f.silent j (omega arith) h ne
                    ],
                  );
                },
              ))
      ]
    ]

-- A health check moves to the first transport above the active one in priority that answers, and
-- stays if none does: afterwards no transport of higher priority than the active one was found
-- answering, and the list is the same.
pub try_promote_lem :
    (m : Manager) (up : ℕ → Bool)
    → let m' = try_promote m up in
      (m'.active_idx ≤ m.active_idx)
      × ((m'.active_idx ≡ m.active_idx) ⊎ (up m'.active_idx ≡ true))
      × ((j : ℕ) → j < m'.active_idx → up j ≡ false)
      × (m'.transports ≡ m.transports)
unfolding try_promote
try_promote_lem m up =
    let a = m.active_idx in
    elim (ℕ_discrete a 0) [
      | yes top ↦
          let t : (a == 0) ≡ true = ground arith in
          rw t (omega arith, inl refl, λ j h. absurd (omega arith), refl)
      | no low ↦
          let t : (a == 0) ≡ false = ground arith in
          elim (Option-cases (first_up up a a 0)) [
            | inl e ↦
                rw (t, e, try_promote)
                  (
                    omega arith,
                    inl refl,
                    λ j h. first_up-none up a a 0 e j (omega arith) (omega arith) (omega arith),
                    refl,
                  )
            | inr (k, e) ↦
                let f = first_up-some up a a 0 e in
                rw (t, e, try_promote)
                  (
                    omega (arith, f.high),
                    inr f.answers,
                    λ j h. f.silent j (omega arith) h (omega (arith, f.high)),
                    refl,
                  )
          ]
    ]

length-set : (xs : List Bytes) (i : ℕ) (x : Bytes) → length (set xs i x) ≡ length xs
length-set [] i x = refl
length-set (y ∷ xs) zero x = refl
length-set (y ∷ xs) (suc i) x = ap suc (length-set xs i x)

dial-IsValid : (m : Manager) (up : ℕ → Bool) → IsValid m → IsValid (dial m up).0
dial-IsValid m up v = elim (dial_lem m up v) [
  | inl (k, e, c) ↦ rw c.switched c.in_range
  | inr (e, same, f) ↦ rw same v
]

step-IsValid : (m : Manager) (e : Event) → IsValid m → IsValid (step m e)
unfolding step
step-IsValid m (dials up) v = dial-IsValid m up v
step-IsValid m (replaces (pos i) name) v = unfold replace in rw length-set v
step-IsValid m (replaces (negsuc i) name) v = unfold replace in v
step-IsValid m (promotes up) v =
    let (a, b, c, d) = try_promote_lem m up in omega (arith, ap length d)

run-IsValid : (m : Manager) (es : List Event) → IsValid m → IsValid (run m es)
unfolding run
run-IsValid m [] v = v
run-IsValid m (e ∷ es) v = run-IsValid (step m e) es (step-IsValid m e v)

-- A manager that was made with at least one transport never panics in a dial, whatever dials,
-- replacements, at indices out of range too, and health checks came before.
pub run-ne_panic :
    (names : List Bytes) (es : List Event) (up : ℕ → Bool)
    → names ≢ []
    → (dial (run (new_manager names) es) up).1 ≢ index_panic
unfolding new_manager
run-ne_panic names es up h e =
    let start : 0 < length names = elim (dec_lt 0 (length names)) [
      | yes p ↦ p
      | no q ↦ absurd (h (nil_of_length names (omega arith)))
    ] in
    let m = run (new_manager names) es in
    elim (dial_lem m up (run-IsValid (new_manager names) es start)) [
      | inl (k, f, c) ↦ cc
      | inr (f, same, g) ↦ cc
    ]
