-- ===== src/Wkb/Way/Laws.antt =====
-- What the texts of `buildWayGeom` and `pointWKB` stand for.
use osmpgsqlimport.Prelude.{
  ℕ, zero, suc, ◌/◌, ◌^◌, ◌<◌, ◌≡◌, refl, sym, ap, ◌∙◌, Bool, true, false, List, [], ◌∷◌, ◌++◌,
  arith, ltb, if◌then◌else◌, length, append_assoc, append-nil, Bytes, some, Bool-cases, inl, inr,
}
use osmpgsqlimport.Prelude.Word.{le_bytes}
use osmpgsqlimport.Prelude.Double.{Double, Point}
use osmpgsqlimport.Store.Bitmap.{AllBytes}
use osmpgsqlimport.Wkb.{u32_bytes, size32, write_uint32, write_double, write_points}
use osmpgsqlimport.Wkb.Hex.{to_hex, from_hex, from_hex-to_hex}
use osmpgsqlimport.Wkb.Decode.{
  whole, point, line_string, polygon, decode, read_head, read_body, read_ring, ◌>>=◌,
}
use osmpgsqlimport.Wkb.Decode.Laws.{
  all_bytes, All, IsPoint, point_bytes, IsRing, ring_bytes, read_word-u32_bytes,
  read_counted-all_bytes, read_point-point_bytes, read_ring-ring_bytes,
}
use osmpgsqlimport.Wkb.Way.{point_wkb, way_bytes, build_way_geom, is_closed_way}

pub AllBytes-append : (xs ys : Bytes) → AllBytes xs → AllBytes ys → AllBytes (xs ++ ys)
AllBytes-append [] ys h k = k
AllBytes-append (x ∷ xs) ys h k = (h.0, AllBytes-append xs ys h.1 k)

pub le_bytes-AllBytes : (n v : ℕ) → AllBytes (le_bytes n v)
unfolding le_bytes
le_bytes-AllBytes zero v = tt
le_bytes-AllBytes (suc n) v = (omega arith, le_bytes-AllBytes n (v / 256))

pub u32_bytes-AllBytes : (v : ℕ) → AllBytes (u32_bytes v)
unfolding u32_bytes
u32_bytes-AllBytes v = omega arith

pub all_bytes-AllBytes {ℓ} :
    {A : Type ℓ} (f : A → Bytes)
    → ((a : A) → AllBytes (f a))
    → (xs : List A) → AllBytes (all_bytes f xs)
unfolding all_bytes
all_bytes-AllBytes f h [] = tt
all_bytes-AllBytes f h (x ∷ xs) =
    AllBytes-append (f x) (all_bytes f xs) (h x) (all_bytes-AllBytes f h xs)

pub point_bytes-AllBytes : (p : Point) → AllBytes (point_bytes p)
point_bytes-AllBytes p =
    AllBytes-append (le_bytes 8 p.0) (le_bytes 8 p.1) (le_bytes-AllBytes 8 p.0)
      (le_bytes-AllBytes 8 p.1)

pub ring_bytes-AllBytes : (r : List Point) → AllBytes (ring_bytes r)
ring_bytes-AllBytes r =
    AllBytes-append (u32_bytes (size32 r)) (all_bytes point_bytes r) (u32_bytes-AllBytes (size32 r))
      (all_bytes-AllBytes point_bytes point_bytes-AllBytes r)

pub write_points-all_bytes :
    (ps : List Point) (buf : Bytes) → write_points buf ps ≡ buf ++ all_bytes point_bytes ps
unfolding write_points write_double all_bytes
write_points-all_bytes [] buf = sym (append-nil buf)
write_points-all_bytes ((x, y) ∷ ps) buf = simp (write_points-all_bytes ps, append_assoc)

-- The bytes of a geometry: its head, then its body.
abbrev pub head_bytes : ℕ → ℕ → Bytes → Bytes
head_bytes kind srid body = 1 ∷ (u32_bytes kind ++ (u32_bytes srid ++ body))

pub read_head-head_bytes :
    (kind srid : ℕ) (body : Bytes)
    → kind < 2 ^ 32
    → srid < 2 ^ 32
    → read_head (head_bytes kind srid body) ≡ some (kind, srid, body)
unfolding read_head
read_head-head_bytes kind srid body h k =
    rw (read_word-u32_bytes kind (u32_bytes srid ++ body) h, read_word-u32_bytes srid body k)

pub head_bytes-AllBytes :
    (kind srid : ℕ) (body : Bytes) → AllBytes body → AllBytes (head_bytes kind srid body)
head_bytes-AllBytes kind srid body h = (
  omega arith,
  AllBytes-append (u32_bytes kind) (u32_bytes srid ++ body) (u32_bytes-AllBytes kind)
      (AllBytes-append (u32_bytes srid) body (u32_bytes-AllBytes srid) h),
)

pub way_bytes-line :
    (srid : ℕ) (cs : List Point)
    → way_bytes srid cs false ≡ head_bytes 0x20000002 srid (ring_bytes cs)
unfolding way_bytes write_uint32
way_bytes-line srid cs = simp (write_points-all_bytes, append_assoc)

pub way_bytes-polygon :
    (srid : ℕ) (cs : List Point)
    → way_bytes srid cs true ≡ head_bytes 0x20000003 srid (u32_bytes 1 ++ ring_bytes cs)
unfolding way_bytes write_uint32
way_bytes-polygon srid cs = simp (write_points-all_bytes, append_assoc)

pub decode-head_bytes :
    (kind srid : ℕ) (body : Bytes)
    → kind < 2 ^ 32
    → srid < 2 ^ 32
    → decode (head_bytes kind srid body) ≡ (read_body kind srid body >>= whole)
unfolding decode
decode-head_bytes kind srid body h k = rw (read_head-head_bytes kind srid body h k)

decode-line :
    (srid : ℕ) (cs : List Point)
    → srid < 2 ^ 32
    → IsRing cs
    → decode (head_bytes 0x20000002 srid (ring_bytes cs)) ≡ some (line_string srid cs)
decode-line srid cs h r =
    decode-head_bytes 0x20000002 srid (ring_bytes cs) (omega arith) h
    ∙ ap (λ b. read_body 0x20000002 srid b >>= whole) (sym (append-nil (ring_bytes cs)))
    ∙ body
  where
    body : (read_body 0x20000002 srid (ring_bytes cs ++ []) >>= whole) ≡ some (line_string srid cs)
    body = unfold read_body in rw (read_ring-ring_bytes cs [] r)

pub one_ring :
    (cs : List Point)
    → u32_bytes 1 ++ ring_bytes cs
      ≡ u32_bytes (size32 (cs ∷ [])) ++ (all_bytes ring_bytes (cs ∷ []) ++ [])
unfolding all_bytes
one_ring cs = rw (append-nil (ring_bytes cs), append-nil (ring_bytes cs))

-- The rings of a polygon, behind its head.
pub decode-polygon :
    (srid : ℕ) (rs : List (List Point))
    → srid < 2 ^ 32
    → length rs < 2 ^ 32
    → All IsRing rs
    → decode (head_bytes 0x20000003 srid (u32_bytes (size32 rs) ++ (all_bytes ring_bytes rs ++ [])))
      ≡ some (polygon srid rs)
decode-polygon srid rs h n r =
    decode-head_bytes 0x20000003 srid (u32_bytes (size32 rs) ++ (all_bytes ring_bytes rs ++ []))
      (omega arith) h
    ∙ body
  where
    body :
        (read_body 0x20000003 srid (u32_bytes (size32 rs) ++ (all_bytes ring_bytes rs ++ []))
          >>= whole)
        ≡ some (polygon srid rs)
    body =
        unfold read_body in
        rw (read_counted-all_bytes read_ring ring_bytes IsRing read_ring-ring_bytes rs [] n r)

way_bytes-decode :
    (srid : ℕ) (cs : List Point) (closed : Bool)
    → srid < 2 ^ 32
    → IsRing cs
    → AllBytes (way_bytes srid cs closed)
      × (decode (way_bytes srid cs closed)
          ≡ some (if closed then polygon srid (cs ∷ []) else line_string srid cs))
way_bytes-decode srid cs true h r = rw (way_bytes-polygon srid cs) (
  head_bytes-AllBytes 0x20000003 srid (u32_bytes 1 ++ ring_bytes cs) (
      AllBytes-append (u32_bytes 1) (ring_bytes cs) (u32_bytes-AllBytes 1)
        (ring_bytes-AllBytes cs)),
  rw (one_ring cs) (decode-polygon srid (cs ∷ []) h (omega arith) (r, tt)),
)
way_bytes-decode srid cs false h r = rw (way_bytes-line srid cs) (
  head_bytes-AllBytes 0x20000002 srid (ring_bytes cs) (ring_bytes-AllBytes cs),
  decode-line srid cs h r,
)

-- For at least two points the text of `buildWayGeom` stands for the polygon of the one ring if the way
-- is closed, and else for the line string, of exactly these points in this order, and the flag says
-- which. For fewer points the text is empty and the flag keeps its value.
pub build_way_geom-decode :
    (srid : ℕ) (cs : List Point) (was : Bool)
    → srid < 2 ^ 32
    → IsRing cs
    → let (text, closed) = build_way_geom srid cs was in
      if ltb (length cs) 2
      then (text ≡ []) × (closed ≡ was)
      else (closed ≡ is_closed_way cs)
        × (decode (from_hex text)
            ≡ some (if closed then polygon srid (cs ∷ []) else line_string srid cs))
unfolding build_way_geom
build_way_geom-decode srid cs was h r = elim (Bool-cases (ltb (length cs) 2)) [
  | inl few ↦ rw few (refl, refl)
  | inr enough ↦
      let (bytes, decoded) = way_bytes-decode srid cs (is_closed_way cs) h r in
      rw enough
        (refl, ap decode (from_hex-to_hex (way_bytes srid cs (is_closed_way cs)) bytes) ∙ decoded)
]

-- The text of `pointWKB` stands for the point.
pub point_wkb-decode :
    (srid : ℕ) (x y : Double)
    → srid < 2 ^ 32
    → IsPoint (x, y)
    → decode (from_hex (point_wkb srid x y)) ≡ some (point srid (x, y))
point_wkb-decode srid x y h p =
    ap (λ b. decode (from_hex b)) (text srid x y)
    ∙ ap decode (
        from_hex-to_hex bytes
          (head_bytes-AllBytes 0x20000001 srid (point_bytes (x, y)) (point_bytes-AllBytes (x, y))))
    ∙ decode-head_bytes 0x20000001 srid (point_bytes (x, y)) (omega arith) h
    ∙ ap (λ b. read_body 0x20000001 srid b >>= whole) (sym (append-nil (point_bytes (x, y))))
    ∙ body
  where
    bytes : Bytes
    bytes = head_bytes 0x20000001 srid (point_bytes (x, y))

    text :
        (srid : ℕ) (x y : Double)
        → point_wkb srid x y ≡ to_hex (head_bytes 0x20000001 srid (point_bytes (x, y)))
    text srid x y = unfold point_wkb write_uint32 write_double in simp append_assoc

    body :
        (read_body 0x20000001 srid (point_bytes (x, y) ++ []) >>= whole) ≡ some (point srid (x, y))
    body = unfold read_body in rw (read_point-point_bytes (x, y) [] p)
