-- ===== src/Store/Merge.antt =====
-- `OSMMMap::merge` of src/OSMMMap.cpp: the records of the shard files, taken out of the pieces that
-- LZ4F_decompress returns and written to the flat mapping. The mapping is the list of its 16-byte
-- slots. A slot index past its end, where the code would write outside the mapping, changes nothing.
pub mod Chunks
pub mod Slots
use osmpgsqlimport.Prelude.{
  ℕ, zero, suc, ◌+◌, ◌-◌, ◌*◌, ◌/◌, ◌%◌, ◌^◌, Bool, true, false, List, [], ◌∷◌, ◌++◌, ltb, leb,
  if◌then◌else◌, length, set, take, drop, Bytes, Option, none, some, is_empty,
}
use osmpgsqlimport.Prelude.Word.{is_neg, from_le}
use osmpgsqlimport.Prelude.Double.{Point}
use osmpgsqlimport.Store.Bitmap.{bitmap_set}
use osmpgsqlimport.Store.Shard.{Rec, ShardWriter, close_writer, chunks}

-- The merged mapping and its bitmap: `merged_map_`, `merged_bm_map_` and their sizes.
pub record Merged : Type 0 where
  pub slots : List Point
  pub bm : Bytes

-- `merged_size_`, in bytes.
abbrev pub merged_size : Merged → ℕ
merged_size m = 16 * length m.slots

-- The offset of an id, in size_t arithmetic.
abbrev pub offset : ℕ → ℕ
offset id = id * 16 % 2 ^ 64

-- The test `offset + REC_SIZE > merged_size_`.
abbrev pub is_beyond : Merged → ℕ → Bool
is_beyond m id = ltb (merged_size m) ((offset id + 16) % 2 ^ 64)

-- The lambda `writeToMerged`.
unfoldable pub write_to_merged : Merged → Rec → Merged
write_to_merged m r = if is_neg r.id then m else if is_beyond m r.id then m else record {
  slots = set m.slots (offset r.id / 16) (r.lon_m, r.lat_m);
  bm = bitmap_set m.bm r.id;
}

-- The three `memcpy` calls that read a record.
unfoldable pub read_rec : Bytes → Rec
read_rec p = record {
  id = from_le (take 8 p);
  lon_m = from_le (take 8 (drop 8 p));
  lat_m = from_le (take 8 (drop 16 p));
}

module _ {ℓ} {S : Type ℓ} (write : S → Rec → S) where
  -- `while (rem >= 24)`: the state and the bytes that remain. The first argument bounds the rounds.
  unfoldable pub full_records : ℕ → S → Bytes → S × Bytes
  full_records zero m p = (m, p)
  full_records (suc f) m p =
      let rest = full_records f (write m (read_rec p)) (drop 24 p) in
      if leb 24 (length p) then rest else (m, p)

  -- One piece of decompressed bytes: `partial` holds the first `carry` bytes of a record.
  unfoldable pub feed : S × Bytes → Bytes → S × Bytes
  feed (m, partial) out =
      let need = 24 - length partial in
      if is_empty partial
      then full_records (length out) m out
      else if ltb (length out) need
      then (m, partial ++ out)
      else full_records (length out) (write m (read_rec (partial ++ take need out))) (drop need out)

  -- The pieces of one file.
  unfoldable pub feed_all : S × Bytes → List Bytes → S × Bytes
  feed_all st [] = st
  feed_all st (c ∷ cs) = feed_all (feed st c) cs

-- What `LZ4F_decompress` and the reads of the file return for a frame: pieces of any sizes.
abbrev pub Decompress : Type 0
Decompress = List Bytes → List Bytes

-- One turn of the loop over the shards, with its effect on the mapping.
unfoldable pub merge_file : Decompress → Merged → Option (List Bytes) → Merged
merge_file lz4 m none = m
merge_file lz4 m (some frame) = (feed_all write_to_merged (m, []) (lz4 frame)).0

-- What is left of a shard after its turn: a file that was there is deleted, with its sidecar.
unfoldable pub consumed : ShardWriter → ShardWriter
consumed s = elim s.file [ none ↦ s | some frame ↦ record s { file = none; bmp_exists = false } ]

-- The progress that a turn adds: `bm_size * 8`, if the file could be opened.
unfoldable pub progress_of : ShardWriter → ℕ
progress_of s = elim s.file [ none ↦ 0 | some frame ↦ length s.bm * 8 ]

-- The loop over the shards.
unfoldable pub merge_shards : Decompress → Merged → List ShardWriter → Merged
unfolding merge_file
merge_shards lz4 m [] = m
merge_shards lz4 m (s ∷ ss) = merge_shards lz4 (merge_file lz4 m (close_writer s).file) ss
