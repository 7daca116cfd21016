-- ===== src/Store/NodeStore/Blank.antt =====
-- The constructor of OSMMMap on the files that `createFile` makes, and `select` on the blank mapping.
use osmpgsqlimport.Prelude.{
  ℕ, zero, suc, ◌+◌, ◌≤◌, ◌<◌, ◌≡◌, refl, sym, ap, ◌∙◌, true, List, [], arith, length,
  length-replicate, take, take-length, replicate, append-nil, none, some,
}
use osmpgsqlimport.Prelude.Double.{Point}
use osmpgsqlimport.Store.Bitmap.{bitmap_get_blank, AllBytes}
use osmpgsqlimport.Store.Shard.{ok, ShardWriter}
use osmpgsqlimport.Store.Merge.Slots.{select, IsValid, max_ids}
use osmpgsqlimport.Store.NodeStore.{
  open_and_map, open_merged, create_file, ShardFiles, bm_bytes, files_at, init_bm_size, open_shard,
  open_shards, open_store, NodeStore,
}

-- The object that the constructor makes from the blank files of `createFile`.
abbrev pub fresh_shard : ShardWriter
fresh_shard = record {
  is_open = true;
  file = some [];
  bmp_exists = true;
  inbuf = [];
  bm = replicate init_bm_size 0;
  chunks_since_sync = 0;
}

abbrev pub fresh : ℕ → ℕ → NodeStore
fresh max_id n = record {
  shards = replicate n fresh_shard;
  merged = record { slots = replicate (max_id + 1) (0, 0); bm = replicate (bm_bytes max_id) 0 };
  max_id = max_id;
  merge_progress = 0;
  merge_total = 0;
}

take_all {ℓ} : {A : Type ℓ} (xs : List A) (n : ℕ) → n ≡ length xs → take n xs ≡ xs
take_all xs n e = rw e (ap (take (length xs)) (sym (append-nil xs)) ∙ take-length xs [])

abbrev blank_shard : ShardFiles
blank_shard = record { frame = some []; bmp = some (replicate init_bm_size 0) }

open_blank : open_shard blank_shard ≡ ok fresh_shard
unfolding open_shard
open_blank =
    let size = length-replicate {A = ℕ} init_bm_size 0 in
    ground (arith, size, take_all (replicate init_bm_size 0) init_bm_size (sym size))

files_at-blank : (n i : ℕ) → i < n → files_at (replicate n blank_shard) i ≡ blank_shard
unfolding files_at
files_at-blank zero i h = elim h [ ]
files_at-blank (suc n) zero h = refl
files_at-blank (suc n) (suc i) h = files_at-blank n i (omega arith)

open_shards-blank :
    (k n i : ℕ)
    → i + k ≤ n
    → open_shards (replicate n blank_shard) i k ≡ ok (replicate k fresh_shard)
unfolding open_shards
open_shards-blank zero n i h = refl
open_shards-blank (suc k) n i h =
    rw (files_at-blank n i (omega arith), open_blank, open_shards-blank k n (i + 1) (omega arith))

map_blank {ℓ} :
    {A : Type ℓ} (n : ℕ) (a : A) → open_and_map n (some (replicate n a)) ≡ ok (replicate n a)
unfolding open_and_map
map_blank n a =
    ground (arith, length-replicate n a, take_all (replicate n a) n (sym (length-replicate n a)))

-- Creating the files and opening them for writing succeeds, with blank shards and a blank mapping.
pub open_store-create_file :
    (max_id n : ℕ) → open_store (create_file max_id n) max_id n true ≡ ok (fresh max_id n)
unfolding open_store create_file open_merged
open_store-create_file max_id n = rw (
  open_shards-blank n n 0 (omega arith),
  map_blank {A = Point} (max_id + 1) (0, 0),
  map_blank {A = ℕ} (bm_bytes max_id) 0,
)

replicate-AllBytes : (n : ℕ) → AllBytes (replicate n 0)
replicate-AllBytes zero = tt
replicate-AllBytes (suc n) = (omega arith, replicate-AllBytes n)

pub fresh-IsValid : (max_id n : ℕ) → max_id < max_ids → IsValid (fresh max_id n).merged
fresh-IsValid max_id n h = record {
  bytes = replicate-AllBytes (bm_bytes max_id);
  covers = omega (
    arith,
    length-replicate {A = ℕ} (bm_bytes max_id) 0,
    length-replicate {A = Point} (max_id + 1) (0, 0),
  );
  few = omega (arith, length-replicate {A = Point} (max_id + 1) (0, 0));
}

-- Nothing is in a blank mapping.
pub select-fresh : (max_id n id : ℕ) → select (fresh max_id n).merged id ≡ none
unfolding select
select-fresh max_id n id = rw (bitmap_get_blank (bm_bytes max_id) id)
