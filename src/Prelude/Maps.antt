-- ===== src/Prelude/Maps.antt =====
-- A Go map whose keys are numbers, as an association list; a loop over the map visits the list in
-- its order, so a statement for every list covers every order of iteration.
use Prim.Native.Nat.{ℕ, ◌+◌, ◌≤◌}
use mathlib.Core.Path.{◌≡◌, refl}
use mathlib.Core.Bool.{Bool, true, false}
use mathlib.Core.Logic.{◌⊎◌, inl, inr}
use mathlib.Core.List.{List, [], ◌∷◌}
use mathlib.Core.Option.{Option, none, some}
use native.Mathlib.Omega.{arith}
use wireguard_mesh.Prelude.Tests.{if◌then◌else◌, ◌==◌}
use wireguard_mesh.Prelude.Lists.{length, filter, all}

pub ==-cases : (a b : ℕ) → (a ≡ b) ⊎ ((a == b) ≡ false)
==-cases a b = ground arith

module _ {ℓ} {V : Type ℓ} where
  -- `m[k]`, with `none` for a missing key
  abbrev pub lookup : ℕ → List (ℕ × V) → Option V
  lookup k [] = none
  lookup k ((j, v) ∷ m) = if k == j then some v else lookup k m

  -- `m[k] = v`
  abbrev pub insert : ℕ → V → List (ℕ × V) → List (ℕ × V)
  insert k v [] = (k, v) ∷ []
  insert k v (e ∷ m) = if k == e.0 then (k, v) ∷ m else e ∷ insert k v m

  -- `delete(m, k)`
  abbrev pub erase : ℕ → List (ℕ × V) → List (ℕ × V)
  erase k [] = []
  erase k (e ∷ m) = let rest = erase k m in if k == e.0 then rest else e ∷ rest

  pub lookup-insert :
      (j k : ℕ) (v : V) (m : List (ℕ × V))
      → lookup j (insert k v m) ≡ (if j == k then some v else lookup j m)
  lookup-insert j k v [] = refl
  lookup-insert j k v (e ∷ m) = ground (arith, lookup-insert j k v m)

  pub lookup-erase :
      (j k : ℕ) (m : List (ℕ × V)) → lookup j (erase k m) ≡ (if j == k then none else lookup j m)
  lookup-erase j k [] = ground arith
  lookup-erase j k (e ∷ m) = ground (arith, lookup-erase j k m)

  pub length-insert-le : (k : ℕ) (v : V) (m : List (ℕ × V)) → length (insert k v m) ≤ length m + 1
  length-insert-le k v [] = omega arith
  length-insert-le k v (e ∷ m) = ground (arith, length-insert-le k v m)

  pub length-insert_old :
      (k : ℕ) (v w : V) (m : List (ℕ × V)) → lookup k m ≡ some w → length (insert k v m) ≡ length m
  length-insert_old k v w [] h = ground arith
  length-insert_old k v w (e ∷ m) h = ground (arith, length-insert_old k v w m)

  pub length-erase-le : (k : ℕ) (m : List (ℕ × V)) → length (erase k m) ≤ length m
  length-erase-le k [] = omega arith
  length-erase-le k (e ∷ m) = ground (arith, length-erase-le k m)

  -- No key stands twice, as in a Go map.
  abbrev pub Distinct : List (ℕ × V) → Type ℓ
  Distinct [] = Unit
  Distinct ((k, v) ∷ m) = (lookup k m ≡ none) × Distinct m

  pub lookup-filter-none :
      (keep : ℕ × V → Bool) (k : ℕ) (m : List (ℕ × V))
      → lookup k m ≡ none
      → lookup k (filter keep m) ≡ none
  lookup-filter-none keep k [] h = refl
  lookup-filter-none keep k (e ∷ m) h = ground (arith, lookup-filter-none keep k m)

  pub filter-Distinct :
      (keep : ℕ × V → Bool) (m : List (ℕ × V)) → Distinct m → Distinct (filter keep m)
  filter-Distinct keep [] d = tt
  filter-Distinct keep (e ∷ m) d =
      ground (arith, lookup-filter-none keep e.0 m, filter-Distinct keep m)

  pub insert-Distinct : (k : ℕ) (v : V) (m : List (ℕ × V)) → Distinct m → Distinct (insert k v m)
  insert-Distinct k v [] d = (refl, tt)
  insert-Distinct k v (e ∷ m) d = ground (arith, lookup-insert e.0 k v m, insert-Distinct k v m)

  pub erase-Distinct : (k : ℕ) (m : List (ℕ × V)) → Distinct m → Distinct (erase k m)
  erase-Distinct k [] d = tt
  erase-Distinct k (e ∷ m) d = ground (arith, lookup-erase e.0 k m, erase-Distinct k m)

  pub lookup-filter :
      (keep : ℕ × V → Bool) (k : ℕ) (v : V) (m : List (ℕ × V))
      → Distinct m
      → lookup k (filter keep m) ≡ some v
      → lookup k m ≡ some v
  lookup-filter keep k v [] d h = h
  lookup-filter keep k v (e ∷ m) d h =
      ground (arith, lookup-filter keep k v m, lookup-filter-none keep k m)

  -- what holds of each entry holds of the one that is found
  pub all-lookup :
      (p : ℕ × V → Bool) (k : ℕ) (v : V) (m : List (ℕ × V))
      → all p m ≡ true
      → lookup k m ≡ some v
      → p (k, v) ≡ true
  all-lookup p k v [] h e = absurd (ground arith)
  all-lookup p k v ((j, w) ∷ m) h e = elim (==-cases k j) [
    | inl s ↦ ground arith
    | inr n ↦ all-lookup p k v m (ground arith) (ground arith)
  ]
