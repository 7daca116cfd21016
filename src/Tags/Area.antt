-- ===== src/Tags/Area.antt =====
-- `isArea` of src/main.cpp: whether a closed way is stored as a polygon.
use osmpgsqlimport.Prelude.{
  ◌≡◌, ◌≢◌, ◌∙◌, ap, sym, refl, ◌⊎◌, inl, inr, ◌↔◌, Bool, true, false, List, [], ◌∷◌, arith,
  if◌then◌else◌, Bool-cases, Option, none, some, String, str_eq, eq_iff,
}
use osmpgsqlimport.Tags.{Tags, lookup, contains}

-- `linear_keys`, `linear_tag_values` and `area_keys`.
abbrev pub linear_keys : List String
linear_keys = "highway" ∷ "railway" ∷ "waterway" ∷ "power" ∷ "man_made" ∷ []

abbrev pub linear_tag_values : List (String × String)
linear_tag_values =
    ("junction", "roundabout")
    ∷ ("junction", "circular")
    ∷ ("barrier", "fence")
    ∷ ("barrier", "wall")
    ∷ ("barrier", "hedge")
    ∷ ("barrier", "retaining_wall")
    ∷ ("barrier", "city_wall")
    ∷ ("aeroway", "runway")
    ∷ ("aeroway", "taxiway")
    ∷ ("aeroway", "taxilane")
    ∷ []

abbrev pub area_keys : List String
area_keys =
    "building" ∷ "building:part" ∷ "landuse" ∷ "leisure" ∷ "natural" ∷ "amenity" ∷ "shop"
    ∷ "tourism" ∷ "historic" ∷ "military" ∷ "boundary" ∷ "place" ∷ "sport" ∷ "landcover" ∷ []

-- `for (auto& [k, v] : tags) if (keys.count(k)) return …`
unfoldable pub has_key_in : List String → Tags → Bool
has_key_in keys [] = false
has_key_in keys ((k, v) ∷ tags) = if contains keys k then true else has_key_in keys tags

-- Whether the tag `k` is there with the value `v`.
unfoldable pub has_tag : Tags → String → String → Bool
has_tag tags k v = elim (lookup k tags) [ none ↦ false | some w ↦ str_eq w v ]

-- The loop over `linear_tag_values`.
unfoldable pub has_tag_in : List (String × String) → Tags → Bool
has_tag_in [] tags = false
has_tag_in ((k, v) ∷ kvs) tags = if has_tag tags k v then true else has_tag_in kvs tags

-- What the tags say once no `area=yes` and no `area=no` has decided.
unfoldable pub area_by_keys : Tags → Bool
area_by_keys tags =
    if has_key_in linear_keys tags
    then false
    else if has_tag_in linear_tag_values tags
    then false
    else has_key_in area_keys tags

-- `isArea`
unfoldable pub is_area : Bool → Tags → Bool
is_area closed tags =
    if closed
    then elim (lookup "area" tags) [
      | none ↦ area_by_keys tags
      | some v ↦ if str_eq v "yes" then true else if str_eq v "no" then false else area_by_keys tags
    ]
    else false

-- The reading of the tags without the code's loops: there is a tag of this key.
pub data HasKey (keys : List String) : Tags → Type 0 where
  here : {k v : String} {tags : Tags} → contains keys k ≡ true → HasKey keys ((k, v) ∷ tags)
  there : {kv : String × String} {tags : Tags} → HasKey keys tags → HasKey keys (kv ∷ tags)

-- One of the pairs is a tag.
pub data HasPair (tags : Tags) : List (String × String) → Type 0 where
  here :
      {k v : String} {kvs : List (String × String)}
      → lookup k tags ≡ some v
      → HasPair tags ((k, v) ∷ kvs)
  there :
      {kv : String × String} {kvs : List (String × String)}
      → HasPair tags kvs
      → HasPair tags (kv ∷ kvs)

to_HasKey : (keys : List String) (tags : Tags) → has_key_in keys tags ≡ true → HasKey keys tags
unfolding has_key_in
to_HasKey keys [] h = cc
to_HasKey keys ((k, v) ∷ tags) h = elim (Bool-cases (contains keys k)) [
  | inl e ↦ HasKey.here e
  | inr e ↦ HasKey.there (to_HasKey keys tags (ground (arith, e)))
]

HasKey→has_key_in :
    {keys : List String} {tags : Tags} → HasKey keys tags → has_key_in keys tags ≡ true
unfolding has_key_in
HasKey→has_key_in (HasKey.here e) = rw e
HasKey→has_key_in (HasKey.there {kv} h) = ground (arith, HasKey→has_key_in h)

has_tag_iff : (tags : Tags) (k v : String) → (has_tag tags k v ≡ true) ↔ (lookup k tags ≡ some v)
unfolding has_tag
has_tag_iff tags k v = on (lookup k tags)
  where
    on :
        (o : Option String)
        → ((elim o [ none ↦ false | some w ↦ str_eq w v ]) ≡ true) ↔ (o ≡ some v)
    on none = ((λ h. cc), λ h. cc)
    on (some w) = ground (arith, eq_iff w v)

has_tag_in→HasPair :
    (kvs : List (String × String)) (tags : Tags) → has_tag_in kvs tags ≡ true → HasPair tags kvs
unfolding has_tag_in
has_tag_in→HasPair [] tags h = cc
has_tag_in→HasPair ((k, v) ∷ kvs) tags h = elim (Bool-cases (has_tag tags k v)) [
  | inl e ↦ HasPair.here ((has_tag_iff tags k v).0 e)
  | inr e ↦ HasPair.there (has_tag_in→HasPair kvs tags (ground (arith, e)))
]

HasPair→has_tag_in :
    {tags : Tags} {kvs : List (String × String)} → HasPair tags kvs → has_tag_in kvs tags ≡ true
unfolding has_tag_in
HasPair→has_tag_in {tags = tags} (HasPair.here {k} {v} e) = rw ((has_tag_iff tags k v).1 e)
HasPair→has_tag_in (HasPair.there h) = ground (arith, HasPair→has_tag_in h)

-- The rule in words: `area=yes` decides, then `area=no`, then a key or tag for lines, then a key for
-- areas.
abbrev pub IsArea : Tags → Type 0
IsArea tags =
    (lookup "area" tags ≡ some "yes")
    ⊎ ((lookup "area" tags ≢ some "no")
        × ¬ HasKey linear_keys tags
        × ¬ HasPair tags linear_tag_values
        × HasKey area_keys tags)

no_key : (keys : List String) (tags : Tags) → (has_key_in keys tags ≡ false) ↔ (¬ HasKey keys tags)
no_key keys tags = (
  (λ e h. cc (e, HasKey→has_key_in h)),
  λ n. elim (Bool-cases (has_key_in keys tags)) [
    | inl e ↦ absurd (n (to_HasKey keys tags e))
    | inr e ↦ e
  ],
)

no_pair :
    (kvs : List (String × String)) (tags : Tags)
    → (has_tag_in kvs tags ≡ false) ↔ (¬ HasPair tags kvs)
no_pair kvs tags = (
  (λ e h. cc (e, HasPair→has_tag_in h)),
  λ n. elim (Bool-cases (has_tag_in kvs tags)) [
    | inl e ↦ absurd (n (has_tag_in→HasPair kvs tags e))
    | inr e ↦ e
  ],
)

area_by_keys_iff :
    (tags : Tags)
    → (area_by_keys tags ≡ true)
      ↔ (¬ HasKey linear_keys tags × ¬ HasPair tags linear_tag_values × HasKey area_keys tags)
unfolding area_by_keys
area_by_keys_iff tags = (
  (λ e. (
    (no_key linear_keys tags).0 (ground arith),
    (no_pair linear_tag_values tags).0 (ground arith),
    to_HasKey area_keys tags (ground arith),
  )),
  λ h.
      rw ((no_key linear_keys tags).1 h.0, (no_pair linear_tag_values tags).1 h.1)
        (HasKey→has_key_in h.2),
)

is_area-none : (tags : Tags) → lookup "area" tags ≡ none → is_area true tags ≡ area_by_keys tags
unfolding is_area area_by_keys
is_area-none tags e = rw e

is_area-some :
    (tags : Tags) (v : String)
    → lookup "area" tags ≡ some v
    → is_area true tags
      ≡ (if str_eq v "yes" then true else if str_eq v "no" then false else area_by_keys tags)
unfolding is_area area_by_keys
is_area-some tags v e = rw e

-- `isArea` accepts exactly the closed ways that the rule makes areas. A key or a tag that implies a line
-- is looked at before the keys that imply an area, so a way with both is no area.
pub is_area_iff :
    (closed : Bool) (tags : Tags) → (is_area closed tags ≡ true) ↔ ((closed ≡ true) × IsArea tags)
unfolding is_area
is_area_iff false tags = ((λ h. cc), λ h. h.0)
is_area_iff true tags = on (lookup "area" tags) refl
  where
    from_keys : lookup "area" tags ≢ some "no" → area_by_keys tags ≡ true → IsArea tags
    from_keys n h = let (a, b, c) = (area_by_keys_iff tags).0 h in inr (n, a, b, c)

    to_keys : lookup "area" tags ≢ some "yes" → IsArea tags → area_by_keys tags ≡ true
    to_keys n (inl y) = absurd (n y)
    to_keys n (inr r) = (area_by_keys_iff tags).1 (r.1, r.2, r.3)

    by_keys :
        (is_area true tags ≡ area_by_keys tags)
        → lookup "area" tags ≢ some "yes"
        → lookup "area" tags ≢ some "no"
        → (is_area true tags ≡ true) ↔ ((true ≡ true) × IsArea tags)
    by_keys q y n = ((λ h. (refl, from_keys n (sym q ∙ h))), λ h. q ∙ to_keys y h.1)

    on :
        (o : Option String)
        → lookup "area" tags ≡ o
        → (is_area true tags ≡ true) ↔ ((true ≡ true) × IsArea tags)
    on none e = by_keys (is_area-none tags e) (λ k. cc (e, k)) (λ k. cc (e, k))
    on (some v) e = elim (Bool-cases (str_eq v "yes")) [
      | inl y ↦ (
        (λ h. (refl, inl (e ∙ ap some ((eq_iff v "yes").0 y)))),
        λ h. is_area-some tags v e ∙ rw y,
      )
      | inr y ↦
          let not_yes : lookup "area" tags ≢ some "yes" =
            λ k. ground (arith, k, e, eq_iff v "yes") in
          elim (Bool-cases (str_eq v "no")) [
            | inl n ↦ (
              (λ h. cc (h, is_area-some tags v e, y, n)),
              λ h. elim h.1 [
                | inl k ↦ absurd (not_yes k)
                | inr r ↦ absurd (r.0 (e ∙ ap some ((eq_iff v "no").0 n)))
              ],
            )
            | inr n ↦
                by_keys (is_area-some tags v e ∙ rw (y, n)) not_yes
                  (λ k. ground (arith, k, e, eq_iff v "no"))
          ]
    ]
