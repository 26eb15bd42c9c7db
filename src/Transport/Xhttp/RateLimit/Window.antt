-- ===== src/Transport/Xhttp/RateLimit/Window.antt =====
-- How many requests of an address pass in a window.
use nightveil.Prelude.{
  All, Bool-cases, Bytes, List, [], ap₂, arith, false, if◌then◌else◌, inl, inr, min, pos, refl,
  some, suc, true, ℕ, ◌-◌, ◌∷◌, ◌≡◌, ◌≤◌, ltb, sym, ◌+◌, ◌∙◌, ap, leb_ℤ, none,
}
use nightveil.Transport.Xhttp.RateLimit.{
  ClientRate, RateLimiter, same_bytes, strip_port, lookup, insert, admit, allow,
}

same_bytes_self : (xs : Bytes) → same_bytes xs xs ≡ true
same_bytes_self [] = refl
same_bytes_self (x ∷ xs) = let ih = same_bytes_self xs in ground (arith, ih)

eq_of_same_bytes : (xs ys : Bytes) → same_bytes xs ys ≡ true → xs ≡ ys
eq_of_same_bytes [] [] h = refl
eq_of_same_bytes [] (y ∷ ys) h = absurd cc
eq_of_same_bytes (x ∷ xs) [] h = absurd cc
eq_of_same_bytes (x ∷ xs) (y ∷ ys) h =
    let ih = eq_of_same_bytes xs ys in
    let e : x ≡ y = ground arith in
    let t : same_bytes xs ys ≡ true = ground arith in ap₂ (λ a s. a ∷ s) e (ih t)

lookup-insert :
    (ip : Bytes) (r : ClientRate) (m : List (Bytes × ClientRate))
    → lookup ip (insert ip r m) ≡ some r
unfolding lookup insert
lookup-insert ip r [] = rw (same_bytes_self ip) refl
lookup-insert ip r ((k, q) ∷ m) = elim (Bool-cases (same_bytes ip k)) [
  | inl e ↦ rw (e, same_bytes_self ip) refl
  | inr e ↦ rw (e, e) (lookup-insert ip r m)
]

lookup-insert_other :
    (ip jp : Bytes) (r : ClientRate) (m : List (Bytes × ClientRate))
    → same_bytes ip jp ≡ false
    → lookup ip (insert jp r m) ≡ lookup ip m
unfolding lookup insert
lookup-insert_other ip jp r [] h = rw h refl
lookup-insert_other ip jp r ((k, q) ∷ m) h = elim (Bool-cases (same_bytes jp k)) [
  | inl e ↦ let o : same_bytes ip k ≡ false = rw (eq_of_same_bytes jp k e) at h in rw (e, h, o) refl
  | inr e ↦ let ih = lookup-insert_other ip jp r m h in rw (e, ih) refl
]

-- Requests with their times and remote addresses, in order, and how many of those from the address
-- `ip` are allowed.
abbrev pub allowed : Bytes → RateLimiter → List (ℕ × Bytes) → ℕ
allowed ip rl [] = 0
allowed ip rl ((now, remote) ∷ rs) =
    let (rl', verdict) = allow rl now remote in
    let rest = allowed ip rl' rs in
    if same_bytes ip (strip_port remote) then if verdict then suc rest else rest else rest

-- How many of the requests are from the address.
abbrev pub made : Bytes → List (ℕ × Bytes) → ℕ
made ip [] = 0
made ip ((now, remote) ∷ rs) =
    let rest = made ip rs in if same_bytes ip (strip_port remote) then suc rest else rest

-- Every request of the address is in the window that starts at this time.
abbrev pub IsInside : Bytes → ℕ → ℕ → List (ℕ × Bytes) → Type 0
IsInside ip window start rs =
    All (λ x. same_bytes ip (strip_port x.1) ≡ true → x.0 - start ≤ window) rs

-- The settings of a limiter, and what it has for the address.
record Holds (ip : Bytes) (most window : ℕ) (r : ClientRate) (rl : RateLimiter) : Type 0 where
  rate : rl.max_rate ≡ pos (suc most)
  size : rl.window ≡ window
  entry : lookup ip rl.clients ≡ some r

module _ (ip : Bytes) (most window : ℕ) where
  allow-mine :
      (rl : RateLimiter) (now : ℕ) (remote : Bytes) (r : ClientRate)
      → Holds ip most window r rl
      → same_bytes ip (strip_port remote) ≡ true
      → now - r.window_at ≤ window
      → Holds ip most window (record r { count = r.count + 1 }) (allow rl now remote).0
        × ((allow rl now remote).1 ≡ leb_ℤ (pos (r.count + 1)) (pos (suc most)))
  unfolding allow admit
  allow-mine rl now remote r h mine inside =
      let e = eq_of_same_bytes ip (strip_port remote) mine in
      let fresh : ltb rl.window (now - r.window_at) ≡ false = rw h.size (ground arith) in
      let positive : leb_ℤ rl.max_rate (pos 0) ≡ false = rw h.rate (ground arith) in
      let r' : ClientRate = record r { count = r.count + 1 } in
      rw (positive, sym e, h.entry, fresh)
        (
          record { rate = h.rate; size = h.size; entry = lookup-insert ip r' rl.clients },
          ap (leb_ℤ (pos (r.count + 1))) h.rate,
        )

  allow-other :
      (rl : RateLimiter) (now : ℕ) (remote : Bytes) (r : ClientRate)
      → Holds ip most window r rl
      → same_bytes ip (strip_port remote) ≡ false
      → Holds ip most window r (allow rl now remote).0
  unfolding allow
  allow-other rl now remote r h other =
      let (q, _) = admit rl.max_rate rl.window now (lookup (strip_port remote) rl.clients) in
      let positive : leb_ℤ rl.max_rate (pos 0) ≡ false = rw h.rate (ground arith) in
      rw positive (record {
        rate = h.rate;
        size = h.size;
        entry = lookup-insert_other ip (strip_port remote) q rl.clients other ∙ h.entry;
      })

  allowed_from :
      (rl : RateLimiter) (rs : List (ℕ × Bytes)) (r : ClientRate)
      → Holds ip most window r rl
      → IsInside ip window r.window_at rs
      → allowed ip rl rs ≡ min (made ip rs) (suc most - r.count)
  allowed_from rl [] r h inside = omega arith
  allowed_from rl ((now, remote) ∷ rs) r h inside =
      elim (Bool-cases (same_bytes ip (strip_port remote))) [
        | inl mine ↦
            let (h', verdict) = allow-mine rl now remote r h mine (inside.0 mine) in
            let ih =
              allowed_from (allow rl now remote).0 rs (record r { count = r.count + 1 }) h'
                inside.1 in
            rw (mine, verdict, ih) (ground arith)
        | inr other ↦
            let h' = allow-other rl now remote r h other in
            let ih = allowed_from (allow rl now remote).0 rs r h' inside.1 in rw (other, ih) refl
      ]

  allow-first :
      (rl : RateLimiter) (now : ℕ) (remote : Bytes)
      → rl.max_rate ≡ pos (suc most)
      → rl.window ≡ window
      → lookup ip rl.clients ≡ none
      → same_bytes ip (strip_port remote) ≡ true
      → Holds ip most window (record { count = 1; window_at = now }) (allow rl now remote).0
        × ((allow rl now remote).1 ≡ true)
  unfolding allow admit
  allow-first rl now remote m s l mine =
      let e = eq_of_same_bytes ip (strip_port remote) mine in
      let positive : leb_ℤ rl.max_rate (pos 0) ≡ false = rw m (ground arith) in
      let r : ClientRate = record { count = 1; window_at = now } in
      rw (positive, sym e, l)
        (record { rate = m; size = s; entry = lookup-insert ip r rl.clients }, refl)

-- From the first request of an address that the limiter does not know, and with a rate above zero:
-- of the requests that the address makes inside the window that this request starts, exactly the
-- rate are allowed, or all if there are fewer, whatever other addresses do in between.
pub allow-count :
    (ip : Bytes) (most : ℕ) (rl : RateLimiter) (start : ℕ) (remote : Bytes) (rs : List (ℕ × Bytes))
    → rl.max_rate ≡ pos (suc most)
    → lookup ip rl.clients ≡ none
    → same_bytes ip (strip_port remote) ≡ true
    → IsInside ip rl.window start rs
    → allowed ip rl ((start, remote) ∷ rs) ≡ min (made ip ((start, remote) ∷ rs)) (suc most)
allow-count ip most rl start remote rs m l mine inside =
    let (h, verdict) = allow-first ip most rl.window rl start remote m refl l mine in
    let rest =
      allowed_from ip most rl.window (allow rl start remote).0 rs
        (record { count = 1; window_at = start }) h inside in
    rw (mine, verdict, rest) (ground arith)
