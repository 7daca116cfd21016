-- ===== src/Osc/Laws.antt =====
-- The callbacks of src/OSCReader.cpp give back the changes that an OsmChange file was written from.
use osmpgsqlimport.Prelude.{
  ℕ, ◌<◌, ◌^◌, ◌≡◌, refl, sym, ap, ◌∙◌, inl, inr, true, false, List, [], ◌∷◌, ◌++◌, append-nil,
  append_assoc, ◌==◌, Bool-cases, Option, some, String,
}
use osmpgsqlimport.Prelude.Double.{Double}
use osmpgsqlimport.Wkb.Decode.Laws.{All}
use osmpgsqlimport.Tags.{lookup, insert}
use osmpgsqlimport.Rings.Multipolygon.{RelationMember}
use osmpgsqlimport.Delta.{NodeEntry, WayEntry, RelationEntry, ChangeType, OscChange}
use osmpgsqlimport.Osc.{
  ParseState, blank_node, blank_way, blank_relation, initial_state, get_number, start_node,
  start_way, start_relation, add_tag, start_tag, start_nd, add_member, start_member, start_element,
  emit, end_node, end_way, end_relation, end_element,
}
use osmpgsqlimport.Osc.Written.{
  XmlEvent, run_events, Written, IsPrintable, IsReadable, block_name, tag_events, nd_events,
  member_events, change_events, file_events, tags_of, nonzero, nonzero_members, change_of,
  changes_of,
}

-- The states between elements and inside each kind of them.
abbrev idle : List OscChange → ChangeType → NodeEntry → WayEntry → RelationEntry → ParseState
idle cs t n w r = record {
  changes = cs;
  cur_change = t;
  in_node = false;
  in_way = false;
  in_relation = false;
  node = n;
  way = w;
  relation = r;
}

module _ (stoll : String → Option ℕ) (stod : String → Option Double) where
  node_tags :
      (tags : List (String × String)) (rest : List XmlEvent) (cs : List OscChange) (t : ChangeType)
      (n : NodeEntry) (w : WayEntry) (r : RelationEntry)
      → run_events stoll stod (tag_events tags rest) (record (idle cs t n w r) { in_node = true })
        ≡ run_events stoll stod rest
            (record (idle cs t (record n { tags = tags_of n.tags tags }) w r) { in_node = true })
  unfolding run_events start_element end_element start_tag add_tag lookup tag_events tags_of
  node_tags [] rest cs t n w r = refl
  node_tags ((k, v) ∷ tags) rest cs t n w r =
      node_tags tags rest cs t (record n { tags = insert k v n.tags }) w r

  way_tags :
      (tags : List (String × String)) (rest : List XmlEvent) (cs : List OscChange) (t : ChangeType)
      (n : NodeEntry) (w : WayEntry) (r : RelationEntry)
      → run_events stoll stod (tag_events tags rest) (record (idle cs t n w r) { in_way = true })
        ≡ run_events stoll stod rest
            (record (idle cs t n (record w { tags = tags_of w.tags tags }) r) { in_way = true })
  unfolding run_events start_element end_element start_tag add_tag lookup tag_events tags_of
  way_tags [] rest cs t n w r = refl
  way_tags ((k, v) ∷ tags) rest cs t n w r =
      way_tags tags rest cs t n (record w { tags = insert k v w.tags }) r

  relation_tags :
      (tags : List (String × String)) (rest : List XmlEvent) (cs : List OscChange) (t : ChangeType)
      (n : NodeEntry) (w : WayEntry) (r : RelationEntry)
      → run_events stoll stod
          (tag_events tags rest)
          (record (idle cs t n w r) { in_relation = true })
        ≡ run_events stoll stod rest
            (record (idle cs t n w (record r { tags = tags_of r.tags tags })) {
              in_relation = true;
            })
  unfolding run_events start_element end_element start_tag add_tag lookup tag_events tags_of
  relation_tags [] rest cs t n w r = refl
  relation_tags ((k, v) ∷ tags) rest cs t n w r =
      relation_tags tags rest cs t n w (record r { tags = insert k v r.tags })

  -- `std::stoll` reads what a writer prints for a number.
  module _ (show : ℕ → String) (reads : (i : ℕ) → i < 2 ^ 64 → stoll (show i) ≡ some i) where
    way_refs :
        (refs : List ℕ) (rest : List XmlEvent) (cs : List OscChange) (t : ChangeType)
        (n : NodeEntry) (w : WayEntry) (r : RelationEntry)
        → All (λ ref. ref < 2 ^ 64) refs
        → run_events stoll stod
            (nd_events show refs rest)
            (record (idle cs t n w r) { in_way = true })
          ≡ run_events stoll stod rest
              (record (idle cs t n (record w { node_refs = w.node_refs ++ nonzero refs }) r) {
                in_way = true;
              })
    unfolding run_events start_element end_element start_nd get_number lookup nd_events nonzero
    way_refs [] rest cs t n w r h =
        ap
          (λ ns.
            run_events stoll stod rest
              (record (idle cs t n (record w { node_refs = ns }) r) { in_way = true }))
          (sym (append-nil w.node_refs))
    way_refs (ref ∷ refs) rest cs t n w r h = elim (Bool-cases (ref == 0)) [
      | inl e ↦ rw (reads ref h.0, e) (way_refs refs rest cs t n w r h.1)
      | inr e ↦
          rw (reads ref h.0, e)
            (way_refs refs rest cs t n (record w { node_refs = w.node_refs ++ ref ∷ [] }) r h.1
              ∙ ap
                  (λ ns.
                    run_events stoll stod rest
                      (record (idle cs t n (record w { node_refs = ns }) r) { in_way = true }))
                  (append_assoc w.node_refs (ref ∷ []) (nonzero refs)))
    ]

    relation_members :
        (ms : List RelationMember) (rest : List XmlEvent) (cs : List OscChange) (t : ChangeType)
        (n : NodeEntry) (w : WayEntry) (r : RelationEntry)
        → All (λ (m : RelationMember). m.id < 2 ^ 64) ms
        → run_events stoll stod
            (member_events show ms rest)
            (record (idle cs t n w r) { in_relation = true })
          ≡ run_events stoll stod rest
              (record (idle cs t n w
                (record r { way_members = r.way_members ++ nonzero_members ms })) {
                  in_relation = true;
                })
    unfolding run_events start_element end_element start_member add_member get_number lookup
        member_events nonzero_members
    relation_members [] rest cs t n w r h =
        ap
          (λ ms.
            run_events stoll stod rest
              (record (idle cs t n w (record r { way_members = ms })) { in_relation = true }))
          (sym (append-nil r.way_members))
    relation_members (m ∷ ms) rest cs t n w r h = elim (Bool-cases (m.id == 0)) [
      | inl e ↦ rw (reads m.id h.0, e) (relation_members ms rest cs t n w r h.1)
      | inr e ↦
          let kept : RelationMember = record { id = m.id; role = m.role } in
          rw (reads m.id h.0, e)
            (relation_members ms rest cs t n w
                (record r { way_members = r.way_members ++ kept ∷ [] }) h.1
              ∙ ap
                  (λ ks.
                    run_events stoll stod rest
                      (record (idle cs t n w (record r { way_members = ks })) {
                        in_relation = true;
                      }))
                  (append_assoc r.way_members (kept ∷ []) (nonzero_members ms)))
    ]

    -- One change: the state between elements again, with the change at the end of the list.
    module _ (show_double : Double → String)
        (reads_double : (x : Double) → IsPrintable x → stod (show_double x) ≡ some x) where
      block_start :
          (t : ChangeType) (es : List XmlEvent) (cs : List OscChange) (u : ChangeType)
          (n : NodeEntry) (w : WayEntry) (r : RelationEntry)
          → run_events stoll stod (XmlEvent.start (block_name t) [] ∷ es) (idle cs u n w r)
            ≡ run_events stoll stod es (idle cs t n w r)
      unfolding run_events start_element
      block_start ChangeType.create es cs u n w r = refl
      block_start ChangeType.modify es cs u n w r = refl
      block_start ChangeType.delete es cs u n w r = refl

      block_end :
          (t : ChangeType) (es : List XmlEvent) (s : ParseState)
          → run_events stoll stod (XmlEvent.end (block_name t) ∷ es) s ≡ run_events stoll stod es s
      unfolding run_events end_element
      block_end ChangeType.create es s = refl
      block_end ChangeType.modify es s = refl
      block_end ChangeType.delete es s = refl

      -- The state after a change.
      abbrev Read : Written → List XmlEvent → List OscChange → Option ParseState → Type 0
      Read x rest cs o =
          (t : ChangeType) × (n : NodeEntry) × (w : WayEntry) × (r : RelationEntry) × (o
            ≡ run_events stoll stod rest (idle (cs ++ change_of x ∷ []) t n w r))

      change_events-Read :
          (x : Written) (rest : List XmlEvent) (cs : List OscChange) (u : ChangeType)
          (n : NodeEntry) (w : WayEntry) (r : RelationEntry)
          → IsReadable x
          → Read x rest cs
              (run_events stoll stod (change_events show show_double x rest) (idle cs u n w r))
      unfolding run_events start_element end_element start_node start_way start_relation get_number
          lookup change_events change_of end_node end_way end_relation emit
      change_events-Read (Written.node t i lat lon tags) rest cs u n w r h =
          let begun : NodeEntry = record { id = i; name = ""; lon = lon; lat = lat; tags = [] } in
          let es : List XmlEvent = XmlEvent.end "node" ∷ XmlEvent.end (block_name t) ∷ rest in
          (
            t,
            record begun { tags = tags_of [] tags },
            w,
            r,
            block_start t
                  (XmlEvent.start "node"
                      (("id", show i) ∷ ("lat", show_double lat) ∷ ("lon", show_double lon) ∷ [])
                    ∷ tag_events tags es)
                  cs u n w r
                ∙ rw (reads i h.0, reads_double lat h.1, reads_double lon h.2)
                    (node_tags tags es cs t begun w r ∙ block_end t rest _),
          )
      change_events-Read (Written.way t i refs tags) rest cs u n w r h =
          let begun : WayEntry = record { id = i; name = ""; node_refs = []; tags = [] } in
          let es : List XmlEvent = XmlEvent.end "way" ∷ XmlEvent.end (block_name t) ∷ rest in
          let filled : WayEntry = record begun { node_refs = nonzero refs } in
          (
            t,
            n,
            record filled { tags = tags_of [] tags },
            r,
            block_start t
                  (XmlEvent.start "way" (("id", show i) ∷ [])
                    ∷ nd_events show refs (tag_events tags es))
                  cs u n w r
                ∙ rw (reads i h.0) (
                    way_refs refs (tag_events tags es) cs t n begun r h.1
                    ∙ way_tags tags es cs t n filled r
                    ∙ block_end t rest _),
          )
      change_events-Read (Written.relation t i ms tags) rest cs u n w r h =
          let begun : RelationEntry = record { id = i; name = ""; way_members = []; tags = [] } in
          let es : List XmlEvent = XmlEvent.end "relation" ∷ XmlEvent.end (block_name t) ∷ rest in
          let filled : RelationEntry = record begun { way_members = nonzero_members ms } in
          (
            t,
            n,
            w,
            record filled { tags = tags_of [] tags },
            block_start t
                  (XmlEvent.start "relation" (("id", show i) ∷ [])
                    ∷ member_events show ms (tag_events tags es))
                  cs u n w r
                ∙ rw (reads i h.0) (
                    relation_members ms (tag_events tags es) cs t n w begun h.1
                    ∙ relation_tags tags es cs t n w filled
                    ∙ block_end t rest _),
          )

      read_file :
          (xs : List Written) (cs : List OscChange) (u : ChangeType) (n : NodeEntry) (w : WayEntry)
          (r : RelationEntry)
          → All IsReadable xs
          → (s : ParseState) × (run_events stoll stod
                (file_events show show_double xs)
                (idle cs u n w r)
              ≡ some s)
            × (s.changes ≡ cs ++ changes_of xs)
      unfolding run_events end_element file_events changes_of
      read_file [] cs u n w r h = (idle cs u n w r, refl, sym (append-nil cs))
      read_file (x ∷ xs) cs u n w r h =
          let (t, n', w', r', e) =
            change_events-Read x (file_events show show_double xs) cs u n w r h.0 in
          let (s, ran, same) = read_file xs (cs ++ change_of x ∷ []) t n' w' r' h.1 in
          (s, e ∙ ran, same ∙ append_assoc cs (change_of x ∷ []) (changes_of xs))

      -- Reading the elements of an OsmChange file gives the changes that it was written from, each once and
      -- in their order: with the type of the block, the tags with their last values, the name from the
      -- tags, and the references and way members that are not 0. The ids are 64-bit patterns and the
      -- coordinates zero or normal doubles, all printed so that `std::stoll` and `std::stod` read them back.
      pub run_events-file_events :
          (xs : List Written)
          → All IsReadable xs
          → (s : ParseState) × (run_events stoll stod
                (XmlEvent.start "osmChange" [] ∷ file_events show show_double xs)
                initial_state
              ≡ some s)
            × (s.changes ≡ changes_of xs)
      unfolding run_events start_element
      run_events-file_events xs h =
          read_file xs [] ChangeType.create blank_node blank_way blank_relation h
