-- ===== src/Store/Merge/Slots.antt =====
-- `OSMMMap::select` and `OSMMMap::remove` of src/OSMMMap.cpp, and the mapping as a finite map from ids
-- to coordinates.
use osmpgsqlimport.Prelude.{
  ℕ, zero, suc, ◌+◌, ◌/◌, ◌^◌, ◌≤◌, ◌<◌, ◌≡◌, refl, List, [], ◌∷◌, arith, leb, ◌==◌, if◌then◌else◌,
  length, length-set, get_or, set, Option, none, some,
}
use osmpgsqlimport.Prelude.Word.{is_neg}
use osmpgsqlimport.Prelude.Double.{Point}
use osmpgsqlimport.Store.Bitmap.{
  bitmap_get, bitmap_set, bitmap_clear, AllBytes, bitmap_get-set, bitmap_get-clear,
  bitmap_set-AllBytes, bitmap_clear-AllBytes, length-bitmap_set, length-bitmap_clear,
  bitmap_get_outside,
}
use osmpgsqlimport.Store.Shard.{Rec}
use osmpgsqlimport.Store.Merge.{Merged, offset, is_beyond, write_to_merged}

-- `OSMMMap::select`
unfoldable pub select : Merged → ℕ → Option Point
select m id =
    if bitmap_get m.bm id
    then if is_beyond m id then none else some (get_or m.slots (offset id / 16) (0, 0))
    else none

-- `OSMMMap::remove`
unfoldable pub remove : Merged → ℕ → Merged
remove m id =
    if is_neg id
    then m
    else if is_beyond m id
    then m
    else record { slots = set m.slots (offset id / 16) (0, 0); bm = bitmap_clear m.bm id }

-- Ids whose offsets do not wrap around.
abbrev pub max_ids : ℕ
max_ids = 2 ^ 59

-- The sizes that `createFile` gives the two files, and a bitmap of bytes.
pub record IsValid (m : Merged) : Type 0 where
  pub bytes : AllBytes m.bm
  pub covers : length m.bm ≡ (length m.slots + 7) / 8
  pub few : length m.slots ≤ max_ids

get_or-set_point :
    (xs : List Point) (i j : ℕ) (v : Point)
    → i < length xs
    → get_or (set xs i v) j (0, 0) ≡ (if i == j then v else get_or xs j (0, 0))
get_or-set_point [] i j v h = elim h [ ]
get_or-set_point (x ∷ xs) zero zero v h = refl
get_or-set_point (x ∷ xs) zero (suc j) v h = ground arith
get_or-set_point (x ∷ xs) (suc i) zero v h = ground arith
get_or-set_point (x ∷ xs) (suc i) (suc j) v h = ground (arith, get_or-set_point xs i j v)

-- The mapping's guards, for an id that does not wrap: it lies in the file or it does not.
is_beyond_lem : (m : Merged) (id : ℕ) → id < max_ids → is_beyond m id ≡ leb (length m.slots) id
is_beyond_lem m id h = ground arith

offset_lem : (id : ℕ) → id < max_ids → offset id / 16 ≡ id
offset_lem id h = omega arith

pub write_to_merged-IsValid : (m : Merged) (r : Rec) → IsValid m → IsValid (write_to_merged m r)
unfolding write_to_merged
write_to_merged-IsValid m r v = ground (
  arith,
  length-set m.slots (offset r.id / 16) (r.lon_m, r.lat_m),
  length-bitmap_set m.bm r.id,
  bitmap_set-AllBytes m.bm r.id v.bytes,
)

pub remove-IsValid : (m : Merged) (id : ℕ) → IsValid m → IsValid (remove m id)
unfolding remove
remove-IsValid m id v = ground (
  arith,
  length-set m.slots (offset id / 16) (0, 0),
  length-bitmap_clear m.bm id,
  bitmap_clear-AllBytes m.bm id v.bytes,
)

-- A record outside the file is dropped, and any other is written.
write_in :
    (m : Merged) (r : Rec)
    → r.id < max_ids
    → write_to_merged m r ≡ (
        if leb (length m.slots) r.id
        then m
        else record { slots = set m.slots r.id (r.lon_m, r.lat_m); bm = bitmap_set m.bm r.id })
unfolding write_to_merged
write_in m r h = ground (arith, is_beyond_lem m r.id h, offset_lem r.id h)

select_in :
    (m : Merged) (id : ℕ)
    → id < max_ids
    → select m id ≡ (
        if bitmap_get m.bm id
        then if leb (length m.slots) id then none else some (get_or m.slots id (0, 0))
        else none)
unfolding select
select_in m id h = ground (arith, is_beyond_lem m id h, offset_lem id h)

-- After a write the id written has the new coordinates, and every other id has what it had.
pub select-write :
    (m : Merged) (r : Rec) (id : ℕ)
    → IsValid m
    → r.id < length m.slots
    → id < max_ids
    → select (write_to_merged m r) id
      ≡ (if r.id == id then some (r.lon_m, r.lat_m) else select m id)
select-write m r id v h k =
    let below : r.id < max_ids = omega (arith, v.few) in
    let after : Merged = record {
      slots = set m.slots r.id (r.lon_m, r.lat_m);
      bm = bitmap_set m.bm r.id;
    } in
    ground (
      arith,
      write_in m r below,
      select_in m id k,
      select_in after id k,
      bitmap_get-set m.bm r.id id v.bytes,
      get_or-set_point m.slots r.id id (r.lon_m, r.lat_m) h,
      length-set m.slots r.id (r.lon_m, r.lat_m),
    )

remove_in :
    (m : Merged) (id : ℕ)
    → id < max_ids
    → remove m id ≡ (
        if leb (length m.slots) id
        then m
        else record { slots = set m.slots id (0, 0); bm = bitmap_clear m.bm id })
unfolding remove
remove_in m id h = ground (arith, is_beyond_lem m id h, offset_lem id h)

-- After `remove` the id has no coordinates, and every other id has what it had.
pub select-remove :
    (m : Merged) (gone id : ℕ)
    → IsValid m
    → gone < max_ids
    → id < max_ids
    → select (remove m gone) id ≡ (if gone == id then none else select m id)
select-remove m gone id v h k =
    let after : Merged = record { slots = set m.slots gone (0, 0); bm = bitmap_clear m.bm gone } in
    ground (
      arith,
      remove_in m gone h,
      select_in m id k,
      select_in after id k,
      bitmap_get-clear m.bm gone id v.bytes,
      get_or-set_point m.slots gone id (0, 0),
      length-set m.slots gone (0, 0),
    )

-- A negative id, and one past the end of the file, has no coordinates.
pub select_outside :
    (m : Merged) (id : ℕ) → IsValid m → length m.slots ≤ id → id < 2 ^ 64 → select m id ≡ none
unfolding select
select_outside m id v h k = ground (arith, bitmap_get_outside m.bm id, v.few, v.covers)

pub write_outside :
    (m : Merged) (r : Rec) → r.id < max_ids → length m.slots ≤ r.id → write_to_merged m r ≡ m
write_outside m r h k = ground (arith, write_in m r h)
