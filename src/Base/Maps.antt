-- ===== src/Base/Maps.antt =====
-- A Go map from uint32 or uint64 keys, as an association list with each key at most once.
use Prim.Native.Nat.{ℕ, ◌+◌, ◌≤◌}
use mathlib.Core.Path.{◌≡◌, refl}
use mathlib.Core.Logic.{◌≢◌}
use mathlib.Core.List.{List, [], ◌∷◌}
use mathlib.Core.Option.{Option, none, some}
use native.Mathlib.Omega.{arith}
use kinz.Base.Tests.{◌==◌, if◌then◌else◌}
use kinz.Base.Lists.{length}

module _ {ℓ} {V : Type ℓ} where
  abbrev pub lookup : ℕ → List (ℕ × V) → Option V
  lookup k [] = none
  lookup k ((j, v) ∷ m) = if j == k then some v else lookup k m

  -- `m[k] = v`: an old entry is overwritten in place, a new one goes to the end.
  abbrev pub insert : ℕ → V → List (ℕ × V) → List (ℕ × V)
  insert k v [] = (k, v) ∷ []
  insert k v ((j, w) ∷ m) = if j == k then (k, v) ∷ m else (j, w) ∷ insert k v m

  -- `delete(m, k)`.
  abbrev pub delete : ℕ → List (ℕ × V) → List (ℕ × V)
  delete k [] = []
  delete k ((j, w) ∷ m) = if j == k then delete k m else (j, w) ∷ delete k m

module _ {ℓ} {V : Type ℓ} where
  pub lookup-insert :
      (k j : ℕ) (v : V) (m : List (ℕ × V))
      → lookup j (insert k v m) ≡ (if k == j then some v else lookup j m)
  lookup-insert k j v [] = refl
  lookup-insert k j v ((i, w) ∷ m) = ground (arith, lookup-insert k j v m)

  pub lookup-delete :
      (k j : ℕ) (m : List (ℕ × V)) → lookup j (delete k m) ≡ (if k == j then none else lookup j m)
  lookup-delete k j [] = ground arith
  lookup-delete k j ((i, w) ∷ m) = ground (arith, lookup-delete k j m)

  -- No entry of the map has the key.
  abbrev pub Lacks : ℕ → List (ℕ × V) → Type 0
  Lacks k [] = Unit {0}
  Lacks k ((j, w) ∷ m) = (j ≢ k) × Lacks k m

  abbrev pub Distinct : List (ℕ × V) → Type 0
  Distinct [] = Unit {0}
  Distinct ((j, w) ∷ m) = Lacks j m × Distinct m

module _ {ℓ} {V : Type ℓ} where
  pub Lacks-insert :
      (k j : ℕ) (v : V) (m : List (ℕ × V)) → j ≢ k → Lacks j m → Lacks j (insert k v m)
  Lacks-insert k j v [] ne h = ground arith
  Lacks-insert k j v ((i, w) ∷ m) ne h = ground (arith, Lacks-insert k j v m ne h.1)

  pub Lacks-delete : (k j : ℕ) (m : List (ℕ × V)) → Lacks j m → Lacks j (delete k m)
  Lacks-delete k j [] h = tt
  Lacks-delete k j ((i, w) ∷ m) h = ground (arith, Lacks-delete k j m h.1)

  pub insert-Distinct : (k : ℕ) (v : V) (m : List (ℕ × V)) → Distinct m → Distinct (insert k v m)
  insert-Distinct k v [] d = (tt, tt)
  insert-Distinct k v ((j, w) ∷ m) d =
      ground (arith, insert-Distinct k v m d.1, Lacks-insert k j v m)

  pub delete-Distinct : (k : ℕ) (m : List (ℕ × V)) → Distinct m → Distinct (delete k m)
  delete-Distinct k [] d = tt
  delete-Distinct k ((j, w) ∷ m) d = ground (arith, delete-Distinct k m d.1, Lacks-delete k j m d.0)

  pub delete_of_Lacks : (k : ℕ) (m : List (ℕ × V)) → Lacks k m → delete k m ≡ m
  delete_of_Lacks k [] h = refl
  delete_of_Lacks k ((j, w) ∷ m) h = ground (arith, delete_of_Lacks k m h.1)

  pub Lacks-of_lookup : (k : ℕ) (m : List (ℕ × V)) → lookup k m ≡ none → Lacks k m
  Lacks-of_lookup k [] e = tt
  Lacks-of_lookup k ((j, w) ∷ m) e = ground (arith, Lacks-of_lookup k m)

  pub lookup_of_Lacks : (k : ℕ) (m : List (ℕ × V)) → Lacks k m → lookup k m ≡ none
  lookup_of_Lacks k [] h = refl
  lookup_of_Lacks k ((j, w) ∷ m) h = ground (arith, lookup_of_Lacks k m h.1)

  pub length-insert :
      (k : ℕ) (v : V) (m : List (ℕ × V))
      → length (insert k v m) ≡ (length m + elim (lookup k m) [ none ↦ 1 | some _ ↦ 0 ])
  length-insert k v [] = omega arith
  length-insert k v ((j, w) ∷ m) = ground (arith, length-insert k v m)

  pub length-delete-le : (k : ℕ) (m : List (ℕ × V)) → length (delete k m) ≤ length m
  length-delete-le k [] = omega arith
  length-delete-le k ((j, w) ∷ m) = ground (arith, length-delete-le k m)

  pub length-delete :
      (k : ℕ) (m : List (ℕ × V))
      → Distinct m
      → length (delete k m) + (elim (lookup k m) [ none ↦ 0 | some _ ↦ 1 ]) ≡ length m
  length-delete k [] d = refl
  length-delete k ((j, w) ∷ m) d =
      ground (arith, length-delete k m d.1, delete_of_Lacks k m, lookup_of_Lacks k m)
