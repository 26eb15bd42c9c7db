-- ===== src/Transport/Quic/Hopping/Ports.antt =====
-- internal/transport/quictun/hopping.go: where packets go while the port changes.
use nightveil.Prelude.{
  Bool-cases, List, Option, [], arith, inl, inr, leb_ℤ, none, pos, some, ℕ, ℤ, ◌<◌, ◌≡◌, ◌∷◌, refl,
  ◌+ℤ◌, All, ◌≤◌, negsuc, ◌+◌, if◌then◌else◌, ap, ◌∙◌, ap₂, ◌-◌, sym, false,
}
use nightveil.Transport.Quic.Hopping.{
  Config, Conn, defaults, hop, new_conn, random_port, run, update_dest_addr, set_dest,
}

-- A number that `rand.Int` may draw.
abbrev pub IsDraw : (ℕ → ℕ) → Type 0
IsDraw draw = (n : ℕ) → 0 < n → draw n < n

-- A range of ports from `low` on, with `width` more.
pub record IsRange (c : Config) (low width : ℕ) : Type 0 where
  pub low_eq : c.port_min ≡ pos low
  pub low_positive : 0 < low
  pub high_eq : c.port_max ≡ pos (low + width)

low_cases : (z : ℤ) → (n : ℕ) × (0 < n) × ((if leb_ℤ z (pos 0) then pos 30_000 else z) ≡ pos n)
low_cases (negsuc n) = (30_000, omega arith, ground arith)
low_cases (pos n) = elim (Bool-cases (leb_ℤ (pos n) (pos 0))) [
  | inl e ↦ (30_000, omega arith, rw e refl)
  | inr e ↦ (n, ground arith, rw e refl)
]

high_cases :
    (z : ℤ) (l : ℕ) → (w : ℕ) × ((if leb_ℤ z (pos l) then pos l +ℤ pos 10_000 else z) ≡ pos (l + w))
high_cases (negsuc n) l = (10_000, unfold ◌+ℤ◌ in ground arith)
high_cases (pos n) l = elim (Bool-cases (leb_ℤ (pos n) (pos l))) [
  | inl e ↦ (10_000, rw e (unfold ◌+ℤ◌ in ground arith))
  | inr e ↦ (n - l, rw e (ground arith))
]

defaults-IsRange : (c : Config) → (low width : ℕ) × IsRange (defaults c) low width
unfolding defaults
defaults-IsRange c =
    let (low, positive, e) = low_cases c.port_min in
    let (width, f) = high_cases c.port_max low in
    (
      low,
      width,
      record {
        low_eq = e;
        low_positive = positive;
        high_eq = ap (λ l. if leb_ℤ c.port_max l then l +ℤ pos 10_000 else c.port_max) e ∙ f;
      },
    )

random_port_lem :
    (draw : ℕ → ℕ) (low width : ℕ)
    → IsDraw draw
    → (j : ℕ) × (j ≤ width) × (random_port draw (pos low) (pos (low + width)) ≡ pos (low + j))
unfolding random_port ◌+ℤ◌
random_port_lem draw low width d = elim (Bool-cases (leb_ℤ (pos (low + width)) (pos low))) [
  | inl e ↦ (0, omega arith, rw e (ground arith))
  | inr e ↦
      let n = low + width + 0 - (low + 0) + 1 in
      (draw n, omega (arith, d n (omega arith)), rw e (ground arith))
]

module _ (resolve : ℤ → Option ℕ) (addr : ℕ → ℕ)
    (resolves : (p : ℕ) → p < 65_536 → resolve (pos p) ≡ some (addr p)) where
  -- The current port lies in the range, and packets go to it.
  pub record Aimed (low width : ℕ) (h : Conn) : Type 0 where
    pub range : IsRange h.config low width
    pub offset : ℕ
    pub in_range : offset ≤ width
    pub port : h.current_port ≡ pos (low + offset)
    pub aimed : h.dest_addr ≡ some (addr (low + offset))

  update_dest_addr_lem :
      (h : Conn) (p : ℕ)
      → p < 65_536
      → update_dest_addr resolve h (pos p) ≡ record h { dest_addr = some (addr p) }
  unfolding update_dest_addr
  update_dest_addr_lem h p k = ap (set_dest h) (resolves p k)

  hop-Aimed :
      (draw : ℕ → ℕ) (low width : ℕ) (h : Conn)
      → IsDraw draw
      → IsRange h.config low width
      → low + width < 65_536
      → Aimed low width (hop resolve draw h)
  unfolding hop
  hop-Aimed draw low width h d r k =
      let (j, small, e) = random_port_lem draw low width d in
      let port = random_port draw h.config.port_min h.config.port_max in
      let f : port ≡ pos (low + j) = ap₂ (random_port draw) r.low_eq r.high_eq ∙ e in
      let moved : Conn = record h { current_port = port } in
      let sent =
        ap (update_dest_addr resolve moved) f
        ∙ update_dest_addr_lem moved (low + j) (omega arith) in
      rw sent (record { range = r; offset = j; in_range = small; port = f; aimed = refl })

  run-Aimed :
      (low width : ℕ) (h : Conn) (draws : List (ℕ → ℕ))
      → All IsDraw draws
      → low + width < 65_536
      → Aimed low width h
      → Aimed low width (run resolve h draws)
  unfolding run
  run-Aimed low width h [] d k a = a
  run-Aimed low width h (draw ∷ draws) (d, ds) k a =
      run-Aimed low width (hop resolve draw h) draws ds k (hop-Aimed draw low width h d a.range k)

  -- Where every port below 65536 of the host has an address, `rand.Int` draws below its bound, and
  -- the range of the configuration with its defaults ends below 65536: from the start and after any
  -- number of hops, packets go to the current port, which lies in that range; the range has a
  -- positive lower end, and its upper end is not below it.
  pub run-new_conn :
      (c : Config) (draw : ℕ → ℕ) (draws : List (ℕ → ℕ))
      → IsDraw draw
      → All IsDraw draws
      → leb_ℤ (pos 65_536) (defaults c).port_max ≡ false
      → (low width : ℕ) × IsRange (defaults c) low width
        × Aimed low width (run resolve (new_conn resolve draw c) draws)
  unfolding new_conn
  run-new_conn c draw draws d ds below =
      let (low, width, r) = defaults-IsRange c in
      let k : low + width < 65_536 =
        let e : leb_ℤ (pos 65_536) (pos (low + width)) ≡ false =
          ap (leb_ℤ (pos 65_536)) (sym r.high_eq) ∙ below in
        ground arith in
      let start : Conn = record { config = defaults c; current_port = pos 0; dest_addr = none } in
      (
        low,
        width,
        r,
        run-Aimed low width (hop resolve draw start) draws ds k
            (hop-Aimed draw low width start d r k),
      )
