-- ===== src/Wkb/Decode.antt =====
-- A reader of EWKB geometries, written from the format and not from the program: what the bytes that
-- the program writes stand for.
pub mod Laws
use osmpgsqlimport.Prelude.{
  ℕ, zero, suc, ◌+◌, ◌*◌, ◌/◌, ◌%◌, ◌^◌, ◌≤◌, ◌<◌, ◌≡◌, refl, sym, ap, ap₂, ◌∙◌, Bool, true, false,
  ◌&&◌, List, [], ◌∷◌, ◌++◌, arith, leb, ◌==◌, if◌then◌else◌, length, length-append, take, drop,
  take-length, drop-length, append_assoc, Bytes, Option, none, some, le→leb,
}
use osmpgsqlimport.Prelude.Word.{le_bytes, from_le, length-le_bytes, from_le-le_bytes}
use osmpgsqlimport.Prelude.Double.{Double, Point}
use osmpgsqlimport.Wkb.{u32_bytes}

infixl 5 ◌>>=◌
abbrev pub ◌>>=◌ {ℓ κ} : {A : Type ℓ} {B : Type κ} → Option A → (A → Option B) → Option B
none >>= f = none
some a >>= f = f a

-- A word of `k` bytes, and the bytes behind it.
unfoldable pub read_word : ℕ → Bytes → Option (ℕ × Bytes)
read_word k b = if leb k (length b) then some (from_le (take k b), drop k b) else none

abbrev pub read_point : Bytes → Option (Point × Bytes)
read_point b = do (x, b1) ← read_word 8 b; (y, b2) ← read_word 8 b1; some ((x, y), b2)

module _ {ℓ} {A : Type ℓ} (item : Bytes → Option (A × Bytes)) where
  -- `n` items, one behind the other.
  unfoldable pub read_many : ℕ → Bytes → Option (List A × Bytes)
  read_many zero b = some ([], b)
  read_many (suc n) b = do (a, b1) ← item b; (as', b2) ← read_many n b1; some (a ∷ as', b2)

  -- A count, and as many items.
  unfoldable pub read_counted : Bytes → Option (List A × Bytes)
  unfolding read_many
  read_counted b = do (n, b1) ← read_word 4 b; read_many n b1

-- What a geometry stands for, with its SRID.
pub data Geometry : Type 0 where
  point : ℕ → Point → Geometry
  line_string : ℕ → List Point → Geometry
  polygon : ℕ → List (List Point) → Geometry
  multi_line : ℕ → List (List Point) → Geometry
  multi_polygon : ℕ → List (List (List Point)) → Geometry

abbrev pub read_ring : Bytes → Option (List Point × Bytes)
read_ring = read_counted read_point

-- The byte order mark 1, and a type with its SRID.
unfoldable pub read_head : Bytes → Option (ℕ × ℕ × Bytes)
read_head [] = none
read_head (order ∷ b) =
    if order == 1
    then (do (kind, b1) ← read_word 4 b; (srid, b2) ← read_word 4 b1; some (kind, srid, b2))
    else none

-- A polygon inside a MULTIPOLYGON.
unfoldable pub read_part : Bytes → Option (List (List Point) × Bytes)
read_part b = do
  (kind, srid, b1) ← read_head b
  if kind == 0x20000003 then read_counted read_ring b1 else none

-- A line string inside a MULTILINESTRING.
unfoldable pub read_line : Bytes → Option (List Point × Bytes)
read_line b = do
  (kind, srid, b1) ← read_head b
  if kind == 0x20000002 then read_counted read_point b1 else none

unfoldable pub read_body : ℕ → ℕ → Bytes → Option (Geometry × Bytes)
read_body kind srid b =
    if kind == 0x20000001
    then (do (p, r) ← read_point b; some (point srid p, r))
    else if kind == 0x20000002
    then (do (ps, r) ← read_counted read_point b; some (line_string srid ps, r))
    else if kind == 0x20000003
    then (do (rs, r) ← read_counted read_ring b; some (polygon srid rs, r))
    else if kind == 0x20000005
    then (do (ls, r) ← read_counted read_line b; some (multi_line srid ls, r))
    else if kind == 0x20000006
    then (do (ps, r) ← read_counted read_part b; some (multi_polygon srid ps, r))
    else none

abbrev pub whole : Geometry × Bytes → Option Geometry
whole (g, []) = some g
whole (g, b ∷ bs) = none

-- A geometry that takes up all the bytes.
unfoldable pub decode : Bytes → Option Geometry
unfolding read_head read_body
decode b = do (kind, srid, b1) ← read_head b; g ← read_body kind srid b1; whole g
