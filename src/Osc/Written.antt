-- ===== src/Osc/Written.antt =====
-- OsmChange files as they are written, for src/OSCReader.cpp: the elements that expat reports of one, and
-- the changes that a reader is to make of it.
use osmpgsqlimport.Prelude.{
  ℕ, ◌<◌, ◌^◌, ◌/◌, ◌%◌, ◌≡◌, false, ◌&&◌, not, List, [], ◌∷◌, ◌==◌, if◌then◌else◌, Option, none,
  some, String,
}
use osmpgsqlimport.Prelude.Double.{Double, is_zero}
use osmpgsqlimport.Wkb.Decode.Laws.{All}
use osmpgsqlimport.Tags.{Tags, insert}
use osmpgsqlimport.Rings.Multipolygon.{RelationMember}
use osmpgsqlimport.Delta.{ChangeType, OscChange}
use osmpgsqlimport.Osc.{ParseState, Attrs, start_element, name_or, end_element}

-- What expat reports.
pub data XmlEvent : Type 0 where
  start : String → Attrs → XmlEvent
  end : String → XmlEvent

module _ (stoll : String → Option ℕ) (stod : String → Option Double) where
  unfoldable pub run_events : List XmlEvent → ParseState → Option ParseState
  run_events [] s = some s
  run_events (XmlEvent.start name attrs ∷ es) s = elim (start_element stoll stod name attrs s) [
    | none ↦ none
    | some t ↦ run_events es t
  ]
  run_events (XmlEvent.end name ∷ es) s = run_events es (end_element name s)

-- A file as it is written: the changes with their references, members and tags.
pub data Written : Type 0 where
  node : ChangeType → ℕ → Double → Double → List (String × String) → Written
  way : ChangeType → ℕ → List ℕ → List (String × String) → Written
  relation : ChangeType → ℕ → List RelationMember → List (String × String) → Written

abbrev pub block_name : ChangeType → String
block_name ChangeType.create = "create"
block_name ChangeType.modify = "modify"
block_name ChangeType.delete = "delete"

unfoldable pub tag_events : List (String × String) → List XmlEvent → List XmlEvent
tag_events [] rest = rest
tag_events ((k, v) ∷ tags) rest =
    XmlEvent.start "tag" (("k", k) ∷ ("v", v) ∷ []) ∷ XmlEvent.end "tag" ∷ tag_events tags rest

module _ (show : ℕ → String) where
  unfoldable pub nd_events : List ℕ → List XmlEvent → List XmlEvent
  nd_events [] rest = rest
  nd_events (ref ∷ refs) rest =
      XmlEvent.start "nd" (("ref", show ref) ∷ []) ∷ XmlEvent.end "nd" ∷ nd_events refs rest

  unfoldable pub member_events : List RelationMember → List XmlEvent → List XmlEvent
  member_events [] rest = rest
  member_events (m ∷ ms) rest =
      XmlEvent.start "member" (("type", "way") ∷ ("ref", show m.id) ∷ ("role", m.role) ∷ [])
      ∷ XmlEvent.end "member"
      ∷ member_events ms rest

-- A finite double that is zero or normal. `std::stod` throws on a text whose value is subnormal.
pub record IsPrintable (x : Double) : Type 0 where
  pub fits : x < 2 ^ 64
  pub finite : (x / 2 ^ 52 % 2 ^ 11 == 2047) ≡ false
  pub normal : (x / 2 ^ 52 % 2 ^ 11 == 0 && not (is_zero x)) ≡ false

-- The ids are patterns of `int64_t`, and the coordinates can be printed and read.
abbrev pub IsReadable : Written → Type 0
IsReadable (Written.node t i lat lon tags) = (i < 2 ^ 64) × IsPrintable lat × IsPrintable lon
IsReadable (Written.way t i refs tags) = (i < 2 ^ 64) × All (λ ref. ref < 2 ^ 64) refs
IsReadable (Written.relation t i ms tags) =
    (i < 2 ^ 64) × All (λ (m : RelationMember). m.id < 2 ^ 64) ms

module _ (show : ℕ → String) (show_double : Double → String) where
  unfoldable pub change_events : Written → List XmlEvent → List XmlEvent
  change_events (Written.node t i lat lon tags) rest =
      XmlEvent.start (block_name t) []
      ∷ XmlEvent.start "node"
          (("id", show i) ∷ ("lat", show_double lat) ∷ ("lon", show_double lon) ∷ [])
      ∷ tag_events tags (XmlEvent.end "node" ∷ XmlEvent.end (block_name t) ∷ rest)
  change_events (Written.way t i refs tags) rest =
      XmlEvent.start (block_name t) []
      ∷ XmlEvent.start "way" (("id", show i) ∷ [])
      ∷ nd_events show refs
          (tag_events tags (XmlEvent.end "way" ∷ XmlEvent.end (block_name t) ∷ rest))
  change_events (Written.relation t i ms tags) rest =
      XmlEvent.start (block_name t) []
      ∷ XmlEvent.start "relation" (("id", show i) ∷ [])
      ∷ member_events show ms
          (tag_events tags (XmlEvent.end "relation" ∷ XmlEvent.end (block_name t) ∷ rest))

  unfoldable pub file_events : List Written → List XmlEvent
  file_events [] = XmlEvent.end "osmChange" ∷ []
  file_events (w ∷ ws) = change_events w (file_events ws)

-- The tags of an element, a later value of a key first.
unfoldable pub tags_of : Tags → List (String × String) → Tags
tags_of m [] = m
tags_of m ((k, v) ∷ tags) = tags_of (insert k v m) tags

-- References 0 do not count.
unfoldable pub nonzero : List ℕ → List ℕ
nonzero [] = []
nonzero (ref ∷ refs) = if ref == 0 then nonzero refs else ref ∷ nonzero refs

unfoldable pub nonzero_members : List RelationMember → List RelationMember
nonzero_members [] = []
nonzero_members (m ∷ ms) =
    if m.id == 0
    then nonzero_members ms
    else record { id = m.id; role = m.role } ∷ nonzero_members ms

-- What a reader is to make of it.
unfoldable pub change_of : Written → OscChange
change_of (Written.node t i lat lon tags) =
    let m = tags_of [] tags in
    OscChange.node_change t (record { id = i; name = name_or "" m; lon = lon; lat = lat; tags = m })
change_of (Written.way t i refs tags) =
    let m = tags_of [] tags in
    OscChange.way_change t
      (record { id = i; name = name_or "" m; node_refs = nonzero refs; tags = m })
change_of (Written.relation t i ms tags) =
    let m = tags_of [] tags in
    OscChange.relation_change t
      (record { id = i; name = name_or "" m; way_members = nonzero_members ms; tags = m })

unfoldable pub changes_of : List Written → List OscChange
changes_of [] = []
changes_of (w ∷ ws) = change_of w ∷ changes_of ws
