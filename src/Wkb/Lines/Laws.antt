-- ===== src/Wkb/Lines/Laws.antt =====
-- Merging the texts of ways keeps the open ways and drops the closed ones.
use osmpgsqlimport.Prelude.{
  ℕ, ◌^◌, ◌<◌, ◌≡◌, refl, sym, ap, ◌∙◌, inl, inr, true, false, List, [], ◌∷◌, ◌++◌, map, arith, ltb,
  if◌then◌else◌, length, length-map, append_assoc, append-nil, Bytes, some, Bool-cases, is_empty,
}
use osmpgsqlimport.Prelude.Double.{Point}
use osmpgsqlimport.Store.Bitmap.{AllBytes}
use osmpgsqlimport.Wkb.{u32_bytes, size32, write_uint32}
use osmpgsqlimport.Wkb.Hex.{to_hex, from_hex, from_hex-to_hex}
use osmpgsqlimport.Wkb.Decode.{multi_line, decode, read_line, read_body, ◌>>=◌, whole}
use osmpgsqlimport.Wkb.Decode.Laws.{
  all_bytes, All, IsRing, ring_bytes, read_counted-all_bytes, read_ring-ring_bytes,
}
use osmpgsqlimport.Wkb.Way.{way_bytes, build_way_geom, is_closed_way}
use osmpgsqlimport.Wkb.Way.Laws.{
  head_bytes, head_bytes-AllBytes, read_head-head_bytes, decode-head_bytes, AllBytes-append,
  u32_bytes-AllBytes, all_bytes-AllBytes, ring_bytes-AllBytes, way_bytes-line, way_bytes-polygon,
}
use osmpgsqlimport.Wkb.Lines.{
  geometry_type, is_linear, linear_parts, write_all_parts, merge_way_geoms,
}

is_linear-line : (srid : ℕ) (body : Bytes) → is_linear (head_bytes 0x20000002 srid body) ≡ true
unfolding is_linear geometry_type u32_bytes
is_linear-line srid body = ground arith

is_linear-polygon : (srid : ℕ) (body : Bytes) → is_linear (head_bytes 0x20000003 srid body) ≡ false
unfolding is_linear geometry_type u32_bytes
is_linear-polygon srid body = ground arith

-- The text that the way phase stores for a way.
abbrev pub way_text : ℕ → List Point → Bytes
way_text srid cs = (build_way_geom srid cs false).0

-- The ways that are stored as line strings.
unfoldable pub open_ways : List (List Point) → List (List Point)
open_ways [] = []
open_ways (cs ∷ ways) =
    let rest = open_ways ways in
    if ltb (length cs) 2 then rest else if is_closed_way cs then rest else cs ∷ rest

abbrev line_bytes : ℕ → List Point → Bytes
line_bytes srid cs = head_bytes 0x20000002 srid (ring_bytes cs)

line_bytes-AllBytes : (srid : ℕ) (cs : List Point) → AllBytes (line_bytes srid cs)
line_bytes-AllBytes srid cs =
    head_bytes-AllBytes 0x20000002 srid (ring_bytes cs) (ring_bytes-AllBytes cs)

-- What one text contributes.
parts_of_bytes :
    (b : Bytes) (hs : List Bytes)
    → AllBytes b
    → is_empty b ≡ false
    → linear_parts (to_hex b ∷ hs) ≡ (if is_linear b then b ∷ linear_parts hs else linear_parts hs)
unfolding linear_parts
parts_of_bytes b hs h full = rw (from_hex-to_hex b h) (ground (arith, full, is_empty-to_hex b))
  where
    is_empty-to_hex : (b : Bytes) → is_empty (to_hex b) ≡ is_empty b
    is_empty-to_hex [] = unfold to_hex in refl
    is_empty-to_hex (x ∷ xs) = unfold to_hex in refl

way_text_few : (srid : ℕ) (cs : List Point) → ltb (length cs) 2 ≡ true → way_text srid cs ≡ []
unfolding build_way_geom
way_text_few srid cs few = rw (few, way_text)

way_text_enough :
    (srid : ℕ) (cs : List Point)
    → ltb (length cs) 2 ≡ false
    → way_text srid cs ≡ to_hex (way_bytes srid cs (is_closed_way cs))
unfolding build_way_geom
way_text_enough srid cs enough = rw (enough, way_text)

linear_parts_skip : (hs : List Bytes) → linear_parts ([] ∷ hs) ≡ linear_parts hs
unfolding linear_parts
linear_parts_skip hs = refl

way_parts :
    (srid : ℕ) (cs : List Point) (hs : List Bytes)
    → linear_parts (way_text srid cs ∷ hs) ≡ (
        if ltb (length cs) 2
        then linear_parts hs
        else if is_closed_way cs
        then linear_parts hs
        else line_bytes srid cs ∷ linear_parts hs)
way_parts srid cs hs = elim (Bool-cases (ltb (length cs) 2)) [
  | inl few ↦
      ap (λ t. linear_parts (t ∷ hs)) (way_text_few srid cs few) ∙ linear_parts_skip hs ∙ rw few
  | inr enough ↦
      ap (λ t. linear_parts (t ∷ hs)) (way_text_enough srid cs enough)
      ∙ elim (Bool-cases (is_closed_way cs)) [
        | inl closed ↦
            rw (enough, closed)
              (rw (way_bytes-polygon srid cs) (
                parts_of_bytes (head_bytes 0x20000003 srid (u32_bytes 1 ++ ring_bytes cs)) hs
                  (head_bytes-AllBytes 0x20000003 srid (u32_bytes 1 ++ ring_bytes cs) (
                    AllBytes-append (u32_bytes 1) (ring_bytes cs) (u32_bytes-AllBytes 1)
                      (ring_bytes-AllBytes cs)))
                  refl
                ∙ rw (is_linear-polygon srid (u32_bytes 1 ++ ring_bytes cs))))
        | inr more ↦
            rw (enough, more)
              (rw (way_bytes-line srid cs) (
                parts_of_bytes (line_bytes srid cs) hs (line_bytes-AllBytes srid cs) refl
                ∙ rw (is_linear-line srid (ring_bytes cs))))
      ]
]

linear_parts-way_text :
    (srid : ℕ) (ways : List (List Point))
    → linear_parts (map (way_text srid) ways) ≡ map (line_bytes srid) (open_ways ways)
unfolding open_ways
linear_parts-way_text srid [] = unfold linear_parts in refl
linear_parts-way_text srid (cs ∷ ways) =
    way_parts srid cs (map (way_text srid) ways) ∙ ground (arith, linear_parts-way_text srid ways)

write_all_parts-all_bytes :
    (srid : ℕ) (ws : List (List Point)) (buf : Bytes)
    → write_all_parts buf (map (line_bytes srid) ws) ≡ buf ++ all_bytes (line_bytes srid) ws
unfolding write_all_parts all_bytes
write_all_parts-all_bytes srid [] buf = sym (append-nil buf)
write_all_parts-all_bytes srid (w ∷ ws) buf =
    write_all_parts-all_bytes srid ws (buf ++ line_bytes srid w)
    ∙ append_assoc buf (line_bytes srid w) (all_bytes (line_bytes srid) ws)

read_line-line_bytes :
    (srid : ℕ)
    → srid < 2 ^ 32
    → (cs : List Point) (rest : Bytes) → IsRing cs
    → read_line (line_bytes srid cs ++ rest) ≡ some (cs, rest)
unfolding read_line
read_line-line_bytes srid h cs rest r =
    let same : line_bytes srid cs ++ rest ≡ head_bytes 0x20000002 srid (ring_bytes cs ++ rest) =
      simp append_assoc in
    rw (same, read_head-head_bytes 0x20000002 srid (ring_bytes cs ++ rest) (omega arith) h)
      (read_ring-ring_bytes cs rest r)

merged_bytes : ℕ → List (List Point) → Bytes
merged_bytes srid ws =
    head_bytes 0x20000005 srid (u32_bytes (size32 ws) ++ all_bytes (line_bytes srid) ws)

merged_decode :
    (srid : ℕ) (ws : List (List Point))
    → srid < 2 ^ 32
    → length ws < 2 ^ 32
    → All IsRing ws
    → decode (from_hex (to_hex (merged_bytes srid ws))) ≡ some (multi_line srid ws)
unfolding merged_bytes
merged_decode srid ws h n f =
    ap decode (
      from_hex-to_hex (merged_bytes srid ws) (
        head_bytes-AllBytes 0x20000005 srid
          (u32_bytes (size32 ws) ++ all_bytes (line_bytes srid) ws)
          (AllBytes-append (u32_bytes (size32 ws)) (all_bytes (line_bytes srid) ws)
            (u32_bytes-AllBytes (size32 ws))
            (all_bytes-AllBytes (line_bytes srid) (line_bytes-AllBytes srid) ws))))
    ∙ decode-head_bytes 0x20000005 srid (u32_bytes (size32 ws) ++ all_bytes (line_bytes srid) ws)
        (omega arith) h
    ∙ ap (λ b. read_body 0x20000005 srid (u32_bytes (size32 ws) ++ b) >>= whole)
        (sym (append-nil (all_bytes (line_bytes srid) ws)))
    ∙ body
  where
    body :
        (read_body 0x20000005 srid (u32_bytes (size32 ws) ++ (all_bytes (line_bytes srid) ws ++ []))
          >>= whole)
        ≡ some (multi_line srid ws)
    body =
        unfold read_body in
        rw (
          read_counted-all_bytes read_line (line_bytes srid) IsRing (read_line-line_bytes srid h) ws
            [] n f)

merged_text :
    (srid : ℕ) (ws : List (List Point))
    → write_all_parts
        (write_uint32
          (write_uint32 (write_uint32 (1 ∷ []) 0x20000005) srid)
          (size32 (map (line_bytes srid) ws)))
        (map (line_bytes srid) ws)
      ≡ merged_bytes srid ws
unfolding merged_bytes write_uint32
merged_text srid ws =
    write_all_parts-all_bytes srid ws _ ∙ rw (length-map ws (line_bytes srid)) (simp append_assoc)

-- Merging the texts that the way phase stores for some ways gives the multi line string of those that
-- are stored as line strings, in order, and drops the ways that are stored as polygons and those with
-- fewer than two points. Without any line string the text is empty.
pub merge_way_geoms-decode :
    (srid : ℕ) (ways : List (List Point))
    → srid < 2 ^ 32
    → length (open_ways ways) < 2 ^ 32
    → All IsRing (open_ways ways)
    → let text = merge_way_geoms srid (map (way_text srid) ways) in
      if is_empty (open_ways ways)
      then text ≡ []
      else decode (from_hex text) ≡ some (multi_line srid (open_ways ways))
unfolding merge_way_geoms
merge_way_geoms-decode srid ways h n f =
    rw (linear_parts-way_text srid ways) (on (open_ways ways) n f)
  where
    text : List (List Point) → Bytes
    text ws =
        if is_empty (map (line_bytes srid) ws)
        then []
        else to_hex (
            write_all_parts
              (write_uint32 (write_uint32 (write_uint32 (1 ∷ []) 0x20000005) srid)
                (size32 (map (line_bytes srid) ws)))
              (map (line_bytes srid) ws))

    on :
        (ws : List (List Point))
        → length ws < 2 ^ 32
        → All IsRing ws
        → if is_empty ws
          then text ws ≡ []
          else decode (from_hex (text ws)) ≡ some (multi_line srid ws)
    on [] n f = refl
    on (w ∷ ws) n f =
        ap (λ b. decode (from_hex (to_hex b))) (merged_text srid (w ∷ ws))
        ∙ merged_decode srid (w ∷ ws) h n f
