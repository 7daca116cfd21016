-- ===== src/Delta/Geometry.antt =====
-- The geometry helpers of src/DeltaApplier.cpp. They stand in its file a second time, and give what those
-- of src/main.cpp give.
use osmpgsqlimport.Prelude.{
  ℕ, zero, suc, ◌+◌, ◌*◌, ◌≤◌, ◌^◌, ◌≡◌, refl, sym, ap, ◌∙◌, inl, inr, bit_and, bit_or, Bool, true,
  false, ◌||◌, ◌&&◌, List, [], ◌∷◌, ltb, leb, ◌==◌, if◌then◌else◌, Bool-cases, length, get_or,
  Bytes, codes, ltb→lt, ltb-false→le, all_below, all_below_sound, ==_iff, le→ltb-false, ◌/◌, ◌%◌,
  is_empty, arith,
}
use osmpgsqlimport.Prelude.Double.{Point, same_point}
use osmpgsqlimport.Wkb.{write_uint32, write_points, size32}
use osmpgsqlimport.Wkb.Hex.{hex_digits, nibble, to_hex, from_hex, hex_byte}
use osmpgsqlimport.Wkb.Way.{back_of, is_closed_way, way_bytes, build_way_geom}
use osmpgsqlimport.Wkb.Lines.{
  geometry_type, is_linear, linear_parts, write_all_parts, merge_way_geoms,
}

-- `toHex` of this file writes the letters in lower case.
abbrev pub lower_digits : Bytes
lower_digits = codes "0123456789abcdef"

unfoldable pub to_hex_lower : Bytes → Bytes
to_hex_lower [] = []
to_hex_lower (b ∷ bs) =
    get_or lower_digits (b / 16) 0 ∷ get_or lower_digits (b % 16) 0 ∷ to_hex_lower bs

-- `buildLineWKB`
unfoldable pub build_line_wkb : ℕ → List Point → Bool → Bytes
build_line_wkb srid pts closed =
    let polygon =
      write_uint32 (write_uint32 (write_uint32 (write_uint32 (1 ∷ []) 0x20000003) srid) 1)
        (size32 pts) in
    let line = write_uint32 (write_uint32 (write_uint32 (1 ∷ []) 0x20000002) srid) (size32 pts) in
    if ltb (length pts) 2
    then []
    else to_hex_lower (write_points (if closed && leb 4 (length pts) then polygon else line) pts)

-- `coords.front() == coords.back() && coords.size() >= 4`
unfoldable pub ends_meet : List Point → Bool
ends_meet [] = false
ends_meet (p ∷ ps) = same_point p (back_of p ps) && leb 4 (length (p ∷ ps))

-- `DeltaApplier::buildWayGeom`, after the loop over the node references: the text and `is_closed`.
unfoldable pub delta_way_geom : ℕ → List Point → Bytes × Bool
delta_way_geom srid coords =
    if ltb (length coords) 2
    then ([], false)
    else (build_line_wkb srid coords (ends_meet coords), ends_meet coords)

-- The lambda `byte`.
abbrev pub byte_at : Bytes → ℕ → ℕ
byte_at h i = hex_byte (get_or h (i * 2) 0) (get_or h (i * 2 + 1) 0)

unfoldable pub type_at : Bytes → ℕ
type_at h =
    bit_and
      (bit_or (bit_or (bit_or (byte_at h 1) (byte_at h 2 * 2 ^ 8)) (byte_at h 3 * 2 ^ 16))
        (byte_at h 4 * 2 ^ 24))
      0xFFFF

-- The loop of `mergeLinestrings`: `gtype != 2 && gtype != 5` goes on with the next text.
unfoldable pub line_parts : List Bytes → List Bytes
line_parts [] = []
line_parts (h ∷ hs) =
    let rest = line_parts hs in
    if ltb (length h) 10
    then rest
    else if type_at h == 2 || type_at h == 5
    then from_hex h ∷ rest
    else rest

-- `mergeLinestrings`
unfoldable pub merge_linestrings : ℕ → List Bytes → Bytes
merge_linestrings srid hexes =
    let parts = line_parts hexes in
    let b = write_uint32 (write_uint32 (1 ∷ []) 0x20000005) srid in
    if is_empty hexes
    then []
    else if is_empty parts
    then []
    else to_hex_lower (write_all_parts (write_uint32 b (size32 parts)) parts)

length-from_hex : (h : Bytes) → ltb (length (from_hex h)) 5 ≡ ltb (length h) 10
unfolding from_hex
length-from_hex (a ∷ b ∷ c ∷ d ∷ e ∷ f ∷ g ∷ i ∷ j ∷ k ∷ h) =
    le→ltb-false _ 5 (omega arith) ∙ sym (le→ltb-false _ 10 (omega arith))
length-from_hex [] = refl
length-from_hex (a ∷ []) = refl
length-from_hex (a ∷ b ∷ []) = refl
length-from_hex (a ∷ b ∷ c ∷ []) = refl
length-from_hex (a ∷ b ∷ c ∷ d ∷ []) = refl
length-from_hex (a ∷ b ∷ c ∷ d ∷ e ∷ []) = refl
length-from_hex (a ∷ b ∷ c ∷ d ∷ e ∷ f ∷ []) = refl
length-from_hex (a ∷ b ∷ c ∷ d ∷ e ∷ f ∷ g ∷ []) = refl
length-from_hex (a ∷ b ∷ c ∷ d ∷ e ∷ f ∷ g ∷ i ∷ []) = refl
length-from_hex (a ∷ b ∷ c ∷ d ∷ e ∷ f ∷ g ∷ i ∷ j ∷ []) = refl

type_at_lem : (h : Bytes) → ltb (length h) 10 ≡ false → type_at h ≡ geometry_type (from_hex h)
unfolding type_at geometry_type from_hex
type_at_lem (a ∷ b ∷ c ∷ d ∷ e ∷ f ∷ g ∷ i ∷ j ∷ k ∷ h) n = refl
type_at_lem [] n = cc n
type_at_lem (a ∷ []) n = cc n
type_at_lem (a ∷ b ∷ []) n = cc n
type_at_lem (a ∷ b ∷ c ∷ []) n = cc n
type_at_lem (a ∷ b ∷ c ∷ d ∷ []) n = cc n
type_at_lem (a ∷ b ∷ c ∷ d ∷ e ∷ []) n = cc n
type_at_lem (a ∷ b ∷ c ∷ d ∷ e ∷ f ∷ []) n = cc n
type_at_lem (a ∷ b ∷ c ∷ d ∷ e ∷ f ∷ g ∷ []) n = cc n
type_at_lem (a ∷ b ∷ c ∷ d ∷ e ∷ f ∷ g ∷ i ∷ []) n = cc n
type_at_lem (a ∷ b ∷ c ∷ d ∷ e ∷ f ∷ g ∷ i ∷ j ∷ []) n = cc n

line_parts_lem : (hs : List Bytes) → line_parts hs ≡ linear_parts hs
unfolding line_parts linear_parts is_linear
line_parts_lem [] = refl
line_parts_lem ([] ∷ hs) = line_parts_lem hs
line_parts_lem ((c ∷ cs) ∷ hs) = elim (Bool-cases (ltb (length (c ∷ cs)) 10)) [
  | inl e ↦ rw (e, length-from_hex (c ∷ cs) ∙ e) (line_parts_lem hs)
  | inr e ↦ rw (e, length-from_hex (c ∷ cs) ∙ e, type_at_lem (c ∷ cs) e, line_parts_lem hs) refl
]

-- Both cases of a hexadecimal digit are read as one number.
digits_table :
    all_below 16 (λ d. nibble (get_or lower_digits d 0) == nibble (get_or hex_digits d 0)) ≡ true
unfolding all_below nibble
digits_table = refl

get_or_outside : (xs : Bytes) (i : ℕ) → length xs ≤ i → get_or xs i 0 ≡ 0
get_or_outside [] i h = refl
get_or_outside (x ∷ xs) zero h = elim h [ ]
get_or_outside (x ∷ xs) (suc i) h = get_or_outside xs i (omega arith)

nibble-lower : (d : ℕ) → nibble (get_or lower_digits d 0) ≡ nibble (get_or hex_digits d 0)
nibble-lower d = elim (Bool-cases (ltb d 16)) [
  | inl e ↦ (==_iff _ _).0 (
      all_below_sound 16 (λ n. nibble (get_or lower_digits n 0) == nibble (get_or hex_digits n 0)) d
        digits_table (ltb→lt d 16 e))
  | inr e ↦ ap nibble (
      get_or_outside lower_digits d (ltb-false→le d 16 e)
      ∙ sym (get_or_outside hex_digits d (ltb-false→le d 16 e)))
]

from_hex-lower : (bs : Bytes) → from_hex (to_hex_lower bs) ≡ from_hex (to_hex bs)
unfolding from_hex to_hex to_hex_lower hex_byte
from_hex-lower [] = refl
from_hex-lower (b ∷ bs) = rw (nibble-lower (b / 16), nibble-lower (b % 16), from_hex-lower bs) refl

ends_meet_lem : (coords : List Point) → ends_meet coords ≡ is_closed_way coords
unfolding ends_meet is_closed_way
ends_meet_lem [] = refl
ends_meet_lem (p ∷ ps) = ground arith

closed_long :
    (coords : List Point) → (is_closed_way coords && leb 4 (length coords)) ≡ is_closed_way coords
unfolding is_closed_way
closed_long [] = refl
closed_long (p ∷ ps) = ground arith

build_line_wkb_lem :
    (srid : ℕ) (coords : List Point)
    → ltb (length coords) 2 ≡ false
    → build_line_wkb srid coords (ends_meet coords)
      ≡ to_hex_lower (way_bytes srid coords (is_closed_way coords))
unfolding build_line_wkb way_bytes
build_line_wkb_lem srid coords e =
    rw (e, ends_meet_lem coords, closed_long coords)
      (elim (Bool-cases (is_closed_way coords)) [ inl q ↦ rw q refl | inr q ↦ rw q refl ])

-- The two files write one way in the same bytes, and agree on whether it is closed: only the case of the
-- hexadecimal digits differs.
pub delta_way_geom_lem :
    (srid : ℕ) (coords : List Point)
    → (from_hex (delta_way_geom srid coords).0 ≡ from_hex (build_way_geom srid coords false).0)
      × ((delta_way_geom srid coords).1 ≡ (build_way_geom srid coords false).1)
unfolding delta_way_geom build_way_geom
delta_way_geom_lem srid coords = elim (Bool-cases (ltb (length coords) 2)) [
  | inl e ↦ rw e (refl, refl)
  | inr e ↦ rw e (
    ap from_hex (build_line_wkb_lem srid coords e)
        ∙ from_hex-lower (way_bytes srid coords (is_closed_way coords)),
    ends_meet_lem coords,
  )
]

-- The two files join the geometries of a relation's ways to the same bytes.
pub merge_linestrings_lem :
    (srid : ℕ) (hexes : List Bytes)
    → from_hex (merge_linestrings srid hexes) ≡ from_hex (merge_way_geoms srid hexes)
unfolding merge_linestrings merge_way_geoms
merge_linestrings_lem srid [] = unfold linear_parts in refl
merge_linestrings_lem srid (h ∷ hs) =
    rw (line_parts_lem (h ∷ hs)) (elim (Bool-cases (is_empty (linear_parts (h ∷ hs)))) [
      | inl q ↦ rw q refl
      | inr q ↦ rw q (from_hex-lower _)
    ])
