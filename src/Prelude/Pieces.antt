-- ===== src/Prelude/Pieces.antt =====
-- A list cut into pieces of a size, as a loop over offsets cuts it.
use Prim.Native.Nat.{ℕ, zero, suc, ◌≤◌, ◌<◌}
use mathlib.Core.Path.{◌≡◌, refl, ap, ◌∙◌, sym}
use mathlib.Core.List.{List, [], ◌∷◌, ◌++◌, append_assoc}
use native.Mathlib.Omega.{arith}
use nightveil.Prelude.Lists.{
  length, take, drop, All, take-append-drop, length-take, length-drop, nil_of_length,
}

module _ {ℓ} {A : Type ℓ} where
  abbrev pub concat : List (List A) → List A
  concat [] = []
  concat (xs ∷ xss) = xs ++ concat xss

  pub concat-append : (xss yss : List (List A)) → concat (xss ++ yss) ≡ concat xss ++ concat yss
  concat-append [] yss = refl
  concat-append (xs ∷ xss) yss =
      ap (λ zs. xs ++ zs) (concat-append xss yss) ∙ sym (append_assoc xs (concat xss) (concat yss))

  -- `for i := 0; i < len(p); i += size`. The fuel bounds the rounds: the length is enough.
  unfoldable pub pieces : ℕ → ℕ → List A → List (List A)
  pieces size zero p = []
  pieces size (suc fuel) [] = []
  pieces size (suc fuel) (x ∷ p) = take size (x ∷ p) ∷ pieces size fuel (drop size (x ∷ p))

  pub concat-pieces :
      (size fuel : ℕ) (p : List A) → 0 < size → length p ≤ fuel → concat (pieces size fuel p) ≡ p
  unfolding pieces
  concat-pieces size zero p h k = sym (nil_of_length p (omega arith))
  concat-pieces size (suc fuel) [] h k = refl
  concat-pieces size (suc fuel) (x ∷ p) h k =
      let shorter = length-drop size (x ∷ p) in
      ap (λ ys. take size (x ∷ p) ++ ys)
        (concat-pieces size fuel (drop size (x ∷ p)) h (omega (arith, shorter)))
      ∙ take-append-drop size (x ∷ p)

  pub pieces-All : (size fuel : ℕ) (p : List A) → All (λ xs. length xs ≤ size) (pieces size fuel p)
  unfolding pieces
  pieces-All size zero p = tt
  pieces-All size (suc fuel) [] = tt
  pieces-All size (suc fuel) (x ∷ p) =
      (omega (arith, length-take size (x ∷ p)), pieces-All size fuel (drop size (x ∷ p)))
