-- ===== src/Wkb/Decode/Laws.antt =====
-- The reader takes back what the writers' bytes stand for, with any bytes behind them.
use osmpgsqlimport.Prelude.{
  ℕ, ◌^◌, ◌<◌, ◌≡◌, refl, true, List, [], ◌∷◌, ◌++◌, arith, leb, length, length-append, take, drop,
  take-length, drop-length, append_assoc, Bytes, Option, some, le→leb,
}
use osmpgsqlimport.Prelude.Word.{le_bytes, length-le_bytes, from_le-le_bytes}
use osmpgsqlimport.Prelude.Double.{Point}
use osmpgsqlimport.Wkb.{u32_bytes, size32}
use osmpgsqlimport.Wkb.Decode.{read_word, read_point, read_many, read_counted, read_ring}

pub read_word-le_bytes :
    (k v : ℕ) (rest : Bytes) → v < 256 ^ k → read_word k (le_bytes k v ++ rest) ≡ some (v, rest)
unfolding read_word
read_word-le_bytes k v rest h =
    let size = length-le_bytes k v in
    let long : leb k (length (le_bytes k v ++ rest)) ≡ true =
      le→leb k (length (le_bytes k v ++ rest))
        (omega (arith, length-append (le_bytes k v) rest, size)) in
    let front : take k (le_bytes k v ++ rest) ≡ le_bytes k v =
      rw size at (take-length (le_bytes k v) rest) in
    let back : drop k (le_bytes k v ++ rest) ≡ rest =
      rw size at (drop-length (le_bytes k v) rest) in
    rw long (rw (front, back, from_le-le_bytes k v h))

u32_bytes-le_bytes : (v : ℕ) → u32_bytes v ≡ le_bytes 4 v
unfolding u32_bytes le_bytes
u32_bytes-le_bytes v = ground arith

pub read_word-u32_bytes :
    (v : ℕ) (rest : Bytes) → v < 2 ^ 32 → read_word 4 (u32_bytes v ++ rest) ≡ some (v, rest)
read_word-u32_bytes v rest h = rw (u32_bytes-le_bytes v) (read_word-le_bytes 4 v rest h)

-- The bytes of a list of items.
unfoldable pub all_bytes {ℓ} : {A : Type ℓ} → (A → Bytes) → List A → Bytes
all_bytes f [] = []
all_bytes f (x ∷ xs) = f x ++ all_bytes f xs

abbrev pub All {ℓ κ} : {A : Type ℓ} → (A → Type κ) → List A → Type κ
All P [] = Unit
All P (x ∷ xs) = P x × All P xs

module _ {ℓ κ} {A : Type ℓ} (item : Bytes → Option (A × Bytes)) (bytes : A → Bytes)
    (Fits : A → Type κ)
    (back : (a : A) (rest : Bytes) → Fits a → item (bytes a ++ rest) ≡ some (a, rest)) where
  read_many-all_bytes :
      (xs : List A) (rest : Bytes)
      → All Fits xs
      → read_many item (length xs) (all_bytes bytes xs ++ rest) ≡ some (xs, rest)
  unfolding read_many all_bytes
  read_many-all_bytes [] rest h = refl
  read_many-all_bytes (x ∷ xs) rest h = rw (
    append_assoc (bytes x) (all_bytes bytes xs) rest,
    back x (all_bytes bytes xs ++ rest) h.0,
    read_many-all_bytes xs rest h.1,
  )

  pub read_counted-all_bytes :
      (xs : List A) (rest : Bytes)
      → length xs < 2 ^ 32
      → All Fits xs
      → read_counted item (u32_bytes (size32 xs) ++ (all_bytes bytes xs ++ rest)) ≡ some (xs, rest)
  unfolding read_counted
  read_counted-all_bytes xs rest n h =
      let same : size32 xs ≡ length xs = omega arith in
      rw (same, read_word-u32_bytes (length xs) (all_bytes bytes xs ++ rest) n)
        (read_many-all_bytes xs rest h)

-- A point of two 64-bit patterns.
abbrev pub IsPoint : Point → Type 0
IsPoint p = (p.0 < 2 ^ 64) × (p.1 < 2 ^ 64)

abbrev pub point_bytes : Point → Bytes
point_bytes p = le_bytes 8 p.0 ++ le_bytes 8 p.1

pub read_point-point_bytes :
    (p : Point) (rest : Bytes) → IsPoint p → read_point (point_bytes p ++ rest) ≡ some (p, rest)
read_point-point_bytes p rest h = rw (
  append_assoc (le_bytes 8 p.0) (le_bytes 8 p.1) rest,
  read_word-le_bytes 8 p.0 (le_bytes 8 p.1 ++ rest) h.0,
  read_word-le_bytes 8 p.1 rest h.1,
)

-- A list of points that a 32-bit count can count.
abbrev pub IsRing : List Point → Type 0
IsRing r = (length r < 2 ^ 32) × All IsPoint r

abbrev pub ring_bytes : List Point → Bytes
ring_bytes r = u32_bytes (size32 r) ++ all_bytes point_bytes r

pub read_ring-ring_bytes :
    (r : List Point) (rest : Bytes) → IsRing r → read_ring (ring_bytes r ++ rest) ≡ some (r, rest)
read_ring-ring_bytes r rest h =
    rw (append_assoc (u32_bytes (size32 r)) (all_bytes point_bytes r) rest)
      (read_counted-all_bytes read_point point_bytes IsPoint read_point-point_bytes r rest h.0 h.1)
