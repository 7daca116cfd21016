-- ===== src/Store/Shard.antt =====
-- The per-thread shard files of src/OSMMMap.cpp: growing the bitmap sidecar, appending records, and
-- flushing them to the LZ4 frame. The frame is the list of the chunks handed to
-- LZ4F_compressUpdate; LZ4 itself is a parameter of the merge.
pub mod Append
use osmpgsqlimport.Prelude.{
  ℕ, ◌≡◌, refl, ◌⊎◌, inl, inr, ◌+◌, ◌-◌, ◌/◌, ◌^◌, max, Bool, false, List, [], ◌∷◌, ◌++◌, leb,
  if◌then◌else◌, is_empty, length, replicate, Bytes, flatten, Option, none, some,
}
use osmpgsqlimport.Prelude.Word.{le_bytes}
use osmpgsqlimport.Prelude.Double.{Double}
use osmpgsqlimport.Store.Bitmap.{bitmap_set}

-- What the store's methods throw. A vector index out of range is a fault of the model's own.
pub data Fault : Type 0 where
  cannot_open truncate_failed short_file no_shard : Fault

pub data Result {ℓ} (A : Type ℓ) : Type ℓ where
  ok : A → Result A
  err : Fault → Result A

infixl 5 ◌>>=◌
abbrev pub ◌>>=◌ {ℓ κ} : {A : Type ℓ} {B : Type κ} → Result A → (A → Result B) → Result B
ok a >>= f = f a
err e >>= f = err e

pub Result-cases {ℓ} :
    {A : Type ℓ} (m : Result A) → ((a : A) × (m ≡ ok a)) ⊎ ((e : Fault) × (m ≡ err e))
Result-cases (ok a) = inl (a, refl)
Result-cases (err e) = inr (e, refl)

-- `file` is the shard file on disk, `none` where there is none. `is_open` says that `f` and `bm_fd`
-- are open: it is false in resume mode and after `closeWriter`. `bm` is the mapped sidecar.
pub record ShardWriter : Type 0 where
  pub is_open : Bool
  pub file : Option (List Bytes)
  pub bmp_exists : Bool
  pub inbuf : Bytes
  pub bm : Bytes
  pub chunks_since_sync : ℕ

-- `CHUNK_SIZE` and `SYNC_EVERY_N_CHUNKS`.
abbrev pub chunk_size : ℕ
chunk_size = 2 ^ 22

abbrev pub sync_every_n_chunks : ℕ
sync_every_n_chunks = 64

-- A record of a shard file.
pub record Rec : Type 0 where
  pub id : ℕ
  pub lon_m : Double
  pub lat_m : Double

unfoldable pub rec_bytes : Rec → Bytes
rec_bytes r = le_bytes 8 r.id ++ (le_bytes 8 r.lon_m ++ le_bytes 8 r.lat_m)

-- The chunks of a file, as `fwrite` extends them.
abbrev pub chunks : Option (List Bytes) → List Bytes
chunks none = []
chunks (some cs) = cs

-- `flushInbuf`. The file sync has no effect that the model shows but the counter's.
unfoldable pub flush_inbuf : ShardWriter → ShardWriter
flush_inbuf s =
    let n = s.chunks_since_sync + 1 in
    if is_empty s.inbuf then s else record s {
      file = some (chunks s.file ++ s.inbuf ∷ []);
      inbuf = [];
      chunks_since_sync = if leb sync_every_n_chunks n then 0 else n;
    }

-- `closeWriter`. The mapping goes, and `bm_size` stays.
unfoldable pub close_writer : ShardWriter → ShardWriter
unfolding flush_inbuf
close_writer s = if s.is_open then record (flush_inbuf s) { is_open = false } else s

-- `growBitmap`. Truncating the descriptor -1 of a shard that is not open fails.
unfoldable pub grow_bitmap : ShardWriter → ℕ → Result ShardWriter
grow_bitmap s id =
    let needed = id / 8 + 1 in
    let size = length s.bm in
    if leb needed size
    then ok s
    else if s.is_open
    then ok (record s { bm = s.bm ++ replicate (max needed (size + size / 4) - size) 0 })
    else err truncate_failed

-- The rest of `OSMMMap::insert`, once the bitmap has room.
unfoldable pub append_rec : ShardWriter → Rec → ShardWriter
append_rec s r =
    let s2 = record s { inbuf = s.inbuf ++ rec_bytes r } in
    let s3 = if leb chunk_size (length s2.inbuf) then flush_inbuf s2 else s2 in
    record s3 { bm = bitmap_set s3.bm r.id }

-- `OSMMMap::insert`, on the shard that the caller names.
unfoldable pub insert_shard : ShardWriter → Rec → Result ShardWriter
insert_shard s r = do grown ← grow_bitmap s r.id; ok (append_rec grown r)

-- All that the thread has appended: what is in the file, then what waits in `inbuf`.
abbrev pub content : ShardWriter → Bytes
content s = flatten (chunks s.file) ++ s.inbuf
