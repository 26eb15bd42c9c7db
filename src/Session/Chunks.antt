-- ===== src/Session/Chunks.antt =====
-- The Go map `map[int64][]byte` of internal/session/manager.go, as an association list in which
-- no key is written twice.
use nightveil.Prelude.{
  ◌≡◌, refl, List, [], ◌∷◌, Option, none, some, Bool, false, Bytes, ℤ, if◌then◌else◌, arith, pos,
  negsuc, ◌==◌, true,
}

abbrev pub Chunks : Type 0
Chunks = List (ℤ × Bytes)

-- Equality of keys.
abbrev pub same : ℤ → ℤ → Bool
same (pos a) (pos b) = a == b
same (pos a) (negsuc b) = false
same (negsuc a) (pos b) = false
same (negsuc a) (negsuc b) = a == b

unfoldable pub lookup : ℤ → Chunks → Option Bytes
lookup k [] = none
lookup k ((j, v) ∷ m) = if same j k then some v else lookup k m

unfoldable pub insert : ℤ → Bytes → Chunks → Chunks
insert k v [] = (k, v) ∷ []
insert k v ((j, w) ∷ m) = if same j k then (k, v) ∷ m else (j, w) ∷ insert k v m

unfoldable pub delete : ℤ → Chunks → Chunks
delete k [] = []
delete k ((j, w) ∷ m) = if same j k then delete k m else (j, w) ∷ delete k m

pub lookup-insert :
    (k j : ℤ) (v : Bytes) (m : Chunks)
    → lookup j (insert k v m) ≡ (if same k j then some v else lookup j m)
unfolding lookup insert
lookup-insert k j v [] = refl
lookup-insert k j v ((i, w) ∷ m) = ground (arith, lookup-insert k j v m)

pub lookup-delete :
    (k j : ℤ) (m : Chunks) → lookup j (delete k m) ≡ (if same k j then none else lookup j m)
unfolding lookup delete
lookup-delete k j [] = ground arith
lookup-delete k j ((i, w) ∷ m) = ground (arith, lookup-delete k j m)

pub eq_of_same : (j k : ℤ) → same j k ≡ true → j ≡ k
eq_of_same (pos a) (pos b) h = ground arith
eq_of_same (pos a) (negsuc b) h = cc
eq_of_same (negsuc a) (pos b) h = cc
eq_of_same (negsuc a) (negsuc b) h = ground arith

-- Maps whose values are those of a function of the key.
module _ (c : ℤ → Bytes) where
  abbrev pub From : Chunks → Type 0
  From [] = Unit
  From ((k, v) ∷ m) = (v ≡ c k) × From m

  pub insert-From : (k : ℤ) (v : Bytes) (m : Chunks) → v ≡ c k → From m → From (insert k v m)
  unfolding insert
  insert-From k v [] e h = (e, tt)
  insert-From k v ((j, w) ∷ m) e h = ground (arith, insert-From k v m e h.1)

  pub delete-From : (k : ℤ) (m : Chunks) → From m → From (delete k m)
  unfolding delete
  delete-From k [] h = tt
  delete-From k ((j, w) ∷ m) h = ground (arith, delete-From k m h.1)

  pub lookup-From : (k : ℤ) (m : Chunks) (v : Bytes) → From m → lookup k m ≡ some v → v ≡ c k
  unfolding lookup
  lookup-From k [] v h e = cc
  lookup-From k ((j, w) ∷ m) v h e = ground (arith, eq_of_same j k, lookup-From k m v h.1)
