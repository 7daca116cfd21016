-- ===== src/Osc.antt =====
-- `startElement` and `endElement` of src/OSCReader.cpp, the expat callbacks that build the changes of an
-- OsmChange file. expat calls them for each tag of the file.
pub mod Written
pub mod Laws
pub mod Parse
use osmpgsqlimport.Prelude.{
  ℕ, Bool, true, false, List, [], ◌∷◌, ◌++◌, ◌==◌, if◌then◌else◌, Option, none, some, String,
  str_eq,
}
use osmpgsqlimport.Prelude.Double.{Double}
use osmpgsqlimport.Tags.{Tags, lookup, insert}
use osmpgsqlimport.Rings.Multipolygon.{RelationMember}
use osmpgsqlimport.Delta.{NodeEntry, WayEntry, RelationEntry, ChangeType, OscChange}

-- `ParseState`, with the changes that the callback has been given, in order.
pub record ParseState : Type 0 where
  pub changes : List OscChange
  pub cur_change : ChangeType
  pub in_node : Bool
  pub in_way : Bool
  pub in_relation : Bool
  pub node : NodeEntry
  pub way : WayEntry
  pub relation : RelationEntry

-- `attrs`
abbrev pub Attrs : Type 0
Attrs = List (String × String)

abbrev pub blank_node : NodeEntry
blank_node = record { id = 0; name = ""; lon = 0; lat = 0; tags = [] }

abbrev pub blank_way : WayEntry
blank_way = record { id = 0; name = ""; node_refs = []; tags = [] }

abbrev pub blank_relation : RelationEntry
blank_relation = record { id = 0; name = ""; way_members = []; tags = [] }

abbrev pub initial_state : ParseState
initial_state = record {
  changes = [];
  cur_change = ChangeType.create;
  in_node = false;
  in_way = false;
  in_relation = false;
  node = blank_node;
  way = blank_way;
  relation = blank_relation;
}

-- `std::stoll` and `std::stod` throw on a text that is no number: `none`. The numbers are patterns.
module _ (stoll : String → Option ℕ) (stod : String → Option Double) where
  -- `getInt64(key)` and `getDouble(key)`
  unfoldable pub get_number : (String → Option ℕ) → Attrs → String → Option ℕ
  get_number convert attrs key = elim (lookup key attrs) [ none ↦ some 0 | some v ↦ convert v ]

  infixl 5 ◌>>=◌
  abbrev ◌>>=◌ : {A B : Type 0} → Option A → (A → Option B) → Option B
  none >>= f = none
  some a >>= f = f a

  unfoldable pub start_node : Attrs → ParseState → Option ParseState
  start_node attrs s = do
    id ← get_number stoll attrs "id"
    lat ← get_number stod attrs "lat"
    lon ← get_number stod attrs "lon"
    some (record s { in_node = true; node = record blank_node { id = id; lat = lat; lon = lon } })

  unfoldable pub start_way : Attrs → ParseState → Option ParseState
  start_way attrs s = do
    id ← get_number stoll attrs "id"
    some (record s { in_way = true; way = record blank_way { id = id } })

  unfoldable pub start_relation : Attrs → ParseState → Option ParseState
  start_relation attrs s = do
    id ← get_number stoll attrs "id"
    some (record s { in_relation = true; relation = record blank_relation { id = id } })

  unfoldable pub add_tag : String → String → ParseState → ParseState
  add_tag k v s = record s {
    node = if s.in_node then record s.node { tags = insert k v s.node.tags } else s.node;
    way = if s.in_way then record s.way { tags = insert k v s.way.tags } else s.way;
    relation =
        if s.in_relation
        then record s.relation { tags = insert k v s.relation.tags }
        else s.relation;
  }

  unfoldable pub start_tag : Attrs → ParseState → ParseState
  start_tag attrs s = elim (lookup "k" attrs) [
    | none ↦ s
    | some k ↦ elim (lookup "v" attrs) [ none ↦ s | some v ↦ add_tag k v s ]
  ]

  -- A reference 0 is left out.
  unfoldable pub start_nd : Attrs → ParseState → Option ParseState
  start_nd attrs s = do
    ref ← get_number stoll attrs "ref"
    some (
        if ref == 0
        then s
        else record s { way = record s.way { node_refs = s.way.node_refs ++ ref ∷ [] } })

  unfoldable pub add_member : Attrs → ParseState → Option ParseState
  add_member attrs s = do
    ref ← get_number stoll attrs "ref"
    let role : String = elim (lookup "role" attrs) [ none ↦ "" | some r ↦ r ]
    some (
        if ref == 0 then s else record s {
          relation = record s.relation {
            way_members = s.relation.way_members ++ (record { id = ref; role = role }) ∷ [];
          };
        })

  -- Only way members are kept.
  unfoldable pub start_member : Attrs → ParseState → Option ParseState
  start_member attrs s = elim (lookup "type" attrs) [
    | none ↦ some s
    | some t ↦ if str_eq t "way" then add_member attrs s else some s
  ]

  -- `startElement`
  unfoldable pub start_element : String → Attrs → ParseState → Option ParseState
  start_element name attrs s =
      if str_eq name "create"
      then some (record s { cur_change = ChangeType.create })
      else if str_eq name "modify"
      then some (record s { cur_change = ChangeType.modify })
      else if str_eq name "delete"
      then some (record s { cur_change = ChangeType.delete })
      else if str_eq name "node"
      then start_node attrs s
      else if str_eq name "way"
      then start_way attrs s
      else if str_eq name "relation"
      then start_relation attrs s
      else if str_eq name "tag"
      then some (start_tag attrs s)
      else if str_eq name "nd"
      then if s.in_way then start_nd attrs s else some s
      else if str_eq name "member"
      then if s.in_relation then start_member attrs s else some s
      else some s

-- `it != tags.end() ? it->second`, over the name so far.
unfoldable pub name_or : String → Tags → String
name_or name tags = elim (lookup "name" tags) [ none ↦ name | some v ↦ v ]

unfoldable pub emit : OscChange → ParseState → ParseState
emit c s = record s { changes = s.changes ++ c ∷ [] }

unfoldable pub end_node : ParseState → ParseState
end_node s =
    emit
      (OscChange.node_change s.cur_change
        (record s.node { name = name_or s.node.name s.node.tags }))
      (record s { in_node = false })

unfoldable pub end_way : ParseState → ParseState
end_way s =
    emit (OscChange.way_change s.cur_change (record s.way { name = name_or s.way.name s.way.tags }))
      (record s { in_way = false })

unfoldable pub end_relation : ParseState → ParseState
end_relation s =
    emit
      (OscChange.relation_change s.cur_change
        (record s.relation { name = name_or s.relation.name s.relation.tags }))
      (record s { in_relation = false })

-- `endElement`
unfoldable pub end_element : String → ParseState → ParseState
end_element name s =
    if str_eq name "node"
    then if s.in_node then end_node s else s
    else if str_eq name "way"
    then if s.in_way then end_way s else s
    else if str_eq name "relation"
    then if s.in_relation then end_relation s else s
    else s
