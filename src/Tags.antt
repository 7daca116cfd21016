-- ===== src/Tags.antt =====
-- `Tags` of include/OSMReader.h, a hash map from texts to texts, as an association list with distinct
-- keys. The order of its iteration is the list's; no property rests on it.
pub mod Area
use osmpgsqlimport.Prelude.{
  ◌≡◌, refl, Bool, true, false, List, [], ◌∷◌, arith, if◌then◌else◌, Option, none, some, String,
  str_eq, eq_iff, eq_refl,
}

abbrev pub Tags : Type 0
Tags = List (String × String)

module _ {ℓ} {V : Type ℓ} where
  -- `find`
  unfoldable pub lookup : String → List (String × V) → Option V
  lookup key [] = none
  lookup key ((first, value) ∷ entries) =
      if str_eq first key then some value else lookup key entries

  -- `m[key] = value`
  unfoldable pub insert : String → V → List (String × V) → List (String × V)
  insert key value [] = (key, value) ∷ []
  insert key value ((first, old) ∷ entries) =
      if str_eq first key then (key, value) ∷ entries else (first, old) ∷ insert key value entries

  -- `erase(key)`
  unfoldable pub erase : String → List (String × V) → List (String × V)
  erase key [] = []
  erase key ((first, old) ∷ entries) =
      if str_eq first key then entries else (first, old) ∷ erase key entries

  pub lookup-insert :
      (key other : String) (value : V) (entries : List (String × V))
      → lookup other (insert key value entries)
        ≡ (if str_eq key other then some value else lookup other entries)
  unfolding lookup insert
  lookup-insert key other value [] = refl
  lookup-insert key other value ((first, old) ∷ entries) = ground (
    arith,
    eq_iff first key,
    eq_iff first other,
    eq_iff key other,
    lookup-insert key other value entries,
  )

-- A text among some texts.
unfoldable pub contains : List String → String → Bool
contains [] k = false
contains (x ∷ xs) k = if str_eq x k then true else contains xs k
