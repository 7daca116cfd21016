-- ===== src/Rings/Multipolygon/Roles.antt =====
-- The roles of the members for `buildMultipolygon` of src/main.cpp, said without the loop that separates them.
use osmpgsqlimport.Prelude.{
  ℕ, ◌≡◌, refl, inl, inr, Bool, not, List, [], ◌∷◌, if◌then◌else◌, Bool-cases, Option-cases, Option,
  none, some, str_eq, map,
}
use osmpgsqlimport.Prelude.Double.{Point}
use osmpgsqlimport.Rings.{Segment}
use osmpgsqlimport.Rings.Multipolygon.{RelationMember, split_roles}

unfoldable pub keep {ℓ} : {A : Type ℓ} → (A → Bool) → List A → List A
keep f [] = []
keep f (x ∷ xs) = if f x then x ∷ keep f xs else keep f xs

-- The segments that are known and have a point.
unfoldable pub known : List (Option Segment) → List Segment
known [] = []
known (none ∷ os) = known os
known (some [] ∷ os) = known os
known (some (p ∷ ps) ∷ os) = (p ∷ ps) ∷ known os

-- The ways of the members with the role `inner`, and those of all others.
abbrev pub is_inner : RelationMember → Bool
is_inner m = str_eq m.role "inner"

abbrev pub inner_ways : (ℕ → Option (List Point)) → List RelationMember → List Segment
inner_ways coords ms = known (map (λ (m : RelationMember). coords m.id) (keep is_inner ms))

abbrev pub outer_ways : (ℕ → Option (List Point)) → List RelationMember → List Segment
outer_ways coords ms =
    known (map (λ (m : RelationMember). coords m.id) (keep (λ m. not (is_inner m)) ms))

pub split_roles-ways :
    (coords : ℕ → Option (List Point)) (ms : List RelationMember)
    → split_roles coords ms ≡ (outer_ways coords ms, inner_ways coords ms)
unfolding split_roles keep known
split_roles-ways coords [] = refl
split_roles-ways coords (m ∷ ms) = elim (Bool-cases (is_inner m)) [
  | inl r ↦ elim (Option-cases (coords m.id)) [
    | inl e ↦ rw (r, e, split_roles) (split_roles-ways coords ms)
    | inr ([], e) ↦ rw (r, e, split_roles) (split_roles-ways coords ms)
    | inr (p ∷ ps, e) ↦ rw (r, e, split_roles, split_roles-ways coords ms, r) refl
  ]
  | inr r ↦ elim (Option-cases (coords m.id)) [
    | inl e ↦ rw (r, e, split_roles) (split_roles-ways coords ms)
    | inr ([], e) ↦ rw (r, e, split_roles) (split_roles-ways coords ms)
    | inr (p ∷ ps, e) ↦ rw (r, e, split_roles, split_roles-ways coords ms, r) refl
  ]
]
