-- ===== src/Connection/Properties.antt =====
-- The properties of a connection (knet/connection.go). The lock makes each method one step.
use kinz.Base.{◌≡◌, refl, ap, ◌∙◌, List, [], ◌∷◌, Option, none, some, String, if◌then◌else◌}
use text.Mathlib.Text.{◌==◌}
use kinz.Base.Names.{lookup, insert, delete, lookup-insert, lookup-delete}

pub data PropertyError : Type 0 where
  no_property_found : PropertyError

module _ {V : Type 0} where
  unfoldable pub set_property : List (String × V) → String → V → List (String × V)
  set_property property key value = insert key value property

  unfoldable pub get_property : List (String × V) → String → Option V × Option PropertyError
  get_property property key = elim (lookup key property) [
    | some v ↦ (some v, none)
    | none ↦ (none, some no_property_found)
  ]

  unfoldable pub remove_property : List (String × V) → String → List (String × V)
  remove_property property key = delete key property

-- A change of the properties.
pub data PropertyChange (V : Type 0) : Type 0 where
  sets : String → V → PropertyChange V
  removes : String → PropertyChange V

module _ {V : Type 0} where
  abbrev pub change_all : List (PropertyChange V) → List (String × V) → List (String × V)
  change_all [] property = property
  change_all (sets key value ∷ cs) property = change_all cs (set_property property key value)
  change_all (removes key ∷ cs) property = change_all cs (remove_property property key)

  -- What the last change of a key left there, if one changed it: a value, or none.
  abbrev pub last_change : String → List (PropertyChange V) → Option V → Option V
  last_change key [] before = before
  last_change key (sets k value ∷ cs) before =
      last_change key cs (if k == key then some value else before)
  last_change key (removes k ∷ cs) before = last_change key cs (if k == key then none else before)

  lookup-change_all :
      (cs : List (PropertyChange V)) (property : List (String × V)) (key : String)
      → lookup key (change_all cs property) ≡ last_change key cs (lookup key property)
  unfolding set_property remove_property
  lookup-change_all [] property key = refl
  lookup-change_all (sets k value ∷ cs) property key =
      lookup-change_all cs (insert k value property) key
      ∙ ap (last_change key cs) (lookup-insert k key value property)
  lookup-change_all (removes k ∷ cs) property key =
      lookup-change_all cs (delete k property) key
      ∙ ap (last_change key cs) (lookup-delete k key property)

  -- After any SetProperty and RemoveProperty on a new connection, GetProperty gives the value of the
  -- last SetProperty of its key with no RemoveProperty of it behind, without an error, or the error
  -- if there is none.
  pub get_property-change_all :
      (cs : List (PropertyChange V)) (key : String)
      → get_property (change_all cs []) key ≡ elim (last_change key cs none) [
        | some v ↦ (some v, none)
        | none ↦ (none, some no_property_found)
      ]
  unfolding get_property
  get_property-change_all cs key =
      ap
        (λ (o : Option V). elim o as (λ _. Option V × Option PropertyError) [
          | some v ↦ (some v, none)
          | none ↦ (none, some no_property_found)
        ])
        (lookup-change_all cs [] key)
