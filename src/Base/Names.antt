-- ===== src/Base/Names.antt =====
-- A Go map from strings, as an association list.
use Prim.Native.String.{String}
use mathlib.Core.Path.{◌≡◌, refl}
use mathlib.Core.List.{List, [], ◌∷◌}
use mathlib.Core.Option.{Option, none, some}
use native.Mathlib.Omega.{arith}
use text.Mathlib.Text.{◌==◌}
use text.Mathlib.TextEquality.{eq_iff}
use kinz.Base.Tests.{if◌then◌else◌}

module _ {ℓ} {V : Type ℓ} where
  abbrev pub lookup : String → List (String × V) → Option V
  lookup name [] = none
  lookup name ((key, value) ∷ entries) = if key == name then some value else lookup name entries

  -- `m[name] = new`: an old entry is overwritten in place, a new one goes to the end.
  abbrev pub insert : String → V → List (String × V) → List (String × V)
  insert name new [] = (name, new) ∷ []
  insert name new ((key, value) ∷ entries) =
      if key == name then (name, new) ∷ entries else (key, value) ∷ insert name new entries

  -- `delete(m, name)`.
  abbrev pub delete : String → List (String × V) → List (String × V)
  delete name [] = []
  delete name ((key, value) ∷ entries) =
      let others = delete name entries in if key == name then others else (key, value) ∷ others

  -- What is found under a name after a write to one, and after the removal of one.
  pub lookup-insert :
      (written wanted : String) (new : V) (entries : List (String × V))
      → lookup wanted (insert written new entries)
        ≡ (if written == wanted then some new else lookup wanted entries)
  lookup-insert written wanted new [] = refl
  lookup-insert written wanted new ((key, value) ∷ entries) = ground (
    arith,
    lookup-insert written wanted new entries,
    eq_iff key written,
    eq_iff key wanted,
    eq_iff written wanted,
  )

  pub lookup-delete :
      (removed wanted : String) (entries : List (String × V))
      → lookup wanted (delete removed entries)
        ≡ (if removed == wanted then none else lookup wanted entries)
  lookup-delete removed wanted [] = ground arith
  lookup-delete removed wanted ((key, value) ∷ entries) = ground (
    arith,
    lookup-delete removed wanted entries,
    eq_iff key removed,
    eq_iff key wanted,
    eq_iff removed wanted,
  )
