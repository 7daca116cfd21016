-- ===== src/Store/NodeStore.antt =====
-- The object of class OSMMMap, and the files that it opens: `createFile`, the constructor, `insert`
-- and `merge` of src/OSMMMap.cpp. Files appear as their contents; a failed read or write of a file
-- that is there is not modelled.
pub mod Codec
pub mod NodePhase
pub mod Blank
pub mod EndToEnd
use osmpgsqlimport.Prelude.{
  ℕ, zero, suc, ◌+◌, ◌-◌, ◌*◌, ◌/◌, ◌^◌, Bool, true, false, List, [], ◌∷◌, ◌++◌, map, ltb, leb,
  if◌then◌else◌, length, get_elem?, set, take, replicate, Bytes, Option, none, some,
}
use osmpgsqlimport.Prelude.Double.{Point}
use osmpgsqlimport.Store.Shard.{
  Fault, cannot_open, short_file, no_shard, Result, ok, err, ◌>>=◌, ShardWriter, Rec, close_writer,
  insert_shard,
}
use osmpgsqlimport.Store.Merge.{Merged, Decompress, merge_shards, consumed, progress_of}

-- A shard on disk: the LZ4 frame and the bitmap sidecar.
pub record ShardFiles : Type 0 where
  pub frame : Option (List Bytes)
  pub bmp : Option Bytes

-- The merged file, its bitmap, and the shards.
pub record Disk : Type 0 where
  pub base : Option (List Point)
  pub base_bmp : Option Bytes
  pub shard_files : List ShardFiles

pub record NodeStore : Type 0 where
  pub shards : List ShardWriter
  pub merged : Merged
  pub max_id : ℕ
  pub merge_progress : ℕ
  pub merge_total : ℕ

-- `1 << 20`, the first size of a sidecar.
unfoldable pub init_bm_size : ℕ
init_bm_size = 2 ^ 20

-- The sizes of the merged file, in slots, and of its bitmap, in bytes.
abbrev pub data_slots : ℕ → ℕ
data_slots max_id = max_id + 1

abbrev pub bm_bytes : ℕ → ℕ
bm_bytes max_id = (max_id + 1 + 7) / 8

-- `OSMMMap::createFile`
unfoldable pub create_file : ℕ → ℕ → Disk
create_file max_id num_shards = record {
  base = some (replicate (data_slots max_id) (0, 0));
  base_bmp = some (replicate (bm_bytes max_id) 0);
  shard_files =
      replicate num_shards (record { frame = some []; bmp = some (replicate init_bm_size 0) });
}

abbrev no_files : ShardFiles
no_files = record { frame = none; bmp = none }

-- The files of shard `i`.
unfoldable pub files_at : List ShardFiles → ℕ → ShardFiles
files_at fs i = elim (get_elem? fs i) [ none ↦ no_files | some f ↦ f ]

-- One turn of the constructor's loop: `fopen` truncates the frame, and the sidecar must exist.
unfoldable pub open_shard : ShardFiles → Result ShardWriter
open_shard f = elim f.bmp [
  | none ↦ err cannot_open
  | some bm ↦
      if ltb (length bm) init_bm_size
      then err short_file
      else ok (record {
        is_open = true;
        file = some [];
        bmp_exists = true;
        inbuf = [];
        bm = take init_bm_size bm;
        chunks_since_sync = 0;
      })
]

-- A shard in resume mode: nothing is opened, and the files stay as they are.
unfoldable pub closed_shard : ShardFiles → ShardWriter
closed_shard f = record {
  is_open = false;
  file = f.frame;
  bmp_exists = elim f.bmp [ none ↦ false | some bm ↦ true ];
  inbuf = [];
  bm = [];
  chunks_since_sync = 0;
}

-- The constructor's loop, for the shards `i`, `i + 1`, … of `n` that are left.
unfoldable pub open_shards : List ShardFiles → ℕ → ℕ → Result (List ShardWriter)
unfolding open_shard files_at
open_shards fs i zero = ok []
open_shards fs i (suc n) = do
  s ← open_shard (files_at fs i)
  ss ← open_shards fs (i + 1) n
  ok (s ∷ ss)

unfoldable pub closed_shards : List ShardFiles → ℕ → ℕ → List ShardWriter
unfolding closed_shard files_at
closed_shards fs i zero = []
closed_shards fs i (suc n) = closed_shard (files_at fs i) ∷ closed_shards fs (i + 1) n

module _ {ℓ} {A : Type ℓ} where
  -- `growFileIfNeeded`: the extension is a hole, which reads as zeros.
  unfoldable pub grow_file : A → ℕ → Option (List A) → Result (List A)
  grow_file hole n none = err cannot_open
  grow_file hole n (some xs) =
      if ltb (length xs) n then ok (xs ++ replicate (n - length xs) hole) else ok xs

  -- `openAndMap`. A mapping past the end of its file faults when it is read, so it is refused here.
  unfoldable pub open_and_map : ℕ → Option (List A) → Result (List A)
  open_and_map n none = err cannot_open
  open_and_map n (some xs) = if ltb (length xs) n then err short_file else ok (take n xs)

-- The end of the constructor: the merged file and its bitmap, grown first in resume mode.
unfoldable pub open_merged : Disk → ℕ → Bool → Result Merged
unfolding grow_file open_and_map
open_merged d max_id true = do
  slots ← open_and_map (data_slots max_id) d.base
  bm ← open_and_map (bm_bytes max_id) d.base_bmp
  ok (record { slots = slots; bm = bm })
open_merged d max_id false = do
  base ← grow_file (0, 0) (data_slots max_id) d.base
  bmp ← grow_file 0 (bm_bytes max_id) d.base_bmp
  slots ← open_and_map (data_slots max_id) (some base)
  bm ← open_and_map (bm_bytes max_id) (some bmp)
  ok (record { slots = slots; bm = bm })

abbrev with_shards : Disk → ℕ → Bool → List ShardWriter → Result NodeStore
with_shards d max_id write ss = do
  m ← open_merged d max_id write
  ok (record { shards = ss; merged = m; max_id = max_id; merge_progress = 0; merge_total = 0 })

-- The constructor; the last argument is `open_shards_for_write`.
unfoldable pub open_store : Disk → ℕ → ℕ → Bool → Result NodeStore
unfolding open_shards closed_shards open_merged
open_store d max_id num_shards true = do
  ss ← open_shards d.shard_files 0 num_shards
  with_shards d max_id true ss
open_store d max_id num_shards false =
    with_shards d max_id false (closed_shards d.shard_files 0 num_shards)

-- `OSMMMap::insert`
unfoldable pub insert : NodeStore → ℕ → Rec → Result NodeStore
insert st shard r = elim (get_elem? st.shards shard) [
  | none ↦ err no_shard
  | some s ↦ do t ← insert_shard s r; ok (record st { shards = set st.shards shard t })
]

unfoldable pub bitmap_total : List ShardWriter → ℕ
bitmap_total [] = 0
bitmap_total (s ∷ ss) = length s.bm * 8 + bitmap_total ss

unfoldable pub progress_total : List ShardWriter → ℕ
progress_total [] = 0
progress_total (s ∷ ss) = progress_of s + progress_total ss

-- `OSMMMap::merge`
unfoldable pub merge : Decompress → NodeStore → NodeStore
unfolding bitmap_total progress_total
merge lz4 st =
    let total = bitmap_total st.shards in
    record st {
      shards = map (λ s. consumed (close_writer s)) st.shards;
      merged = merge_shards lz4 st.merged st.shards;
      merge_progress = progress_total (map close_writer st.shards);
      merge_total = if ltb 0 total then total else st.max_id + 1;
    }

-- The files that a store leaves behind.
unfoldable pub files_of : ShardWriter → ShardFiles
files_of s = record { frame = s.file; bmp = if s.bmp_exists then some s.bm else none }

unfoldable pub disk_of : NodeStore → Disk
unfolding files_of
disk_of st = record {
  base = some st.merged.slots;
  base_bmp = some st.merged.bm;
  shard_files = map files_of st.shards;
}
