-- ===== src/Pbf/Blobs.antt =====
-- `OSMReader::readBlob` and `OSMReader::next` of src/OSMReader.cpp: the blobs of a PBF file, from its bytes.
pub mod Frames
pub mod Reading
use osmpgsqlimport.Prelude.{
  ℕ, zero, suc, ◌+◌, ◌-◌, ◌*◌, ◌^◌, Bool, true, false, List, [], ◌∷◌, ltb, leb, take, drop, length,
  is_empty, if◌then◌else◌, Option, none, some, String, str_eq, Bytes,
}
use osmpgsqlimport.Prelude.Double.{Double}
use osmpgsqlimport.Pbf.{OsmEntry}
use osmpgsqlimport.Pbf.Block.{PrimitiveBlock, parse_primitive_block}
use osmpgsqlimport.Producer.{Block}

-- The fields of `BlobHeader` and `Blob` that the code reads. An int32 is its 32-bit pattern.
pub record BlobHeader : Type 0 where
  pub blob_type : String
  pub datasize : ℕ

pub record Blob : Type 0 where
  pub zlib_data : Option Bytes
  pub raw_size : Option ℕ
  pub raw : Option Bytes

-- `file_.read(buf, n)`: exactly `n` bytes, or `none`.
unfoldable pub read_exactly : ℕ → Bytes → Option (Bytes × Bytes)
read_exactly n s = if ltb (length s) n then none else some (take n s, drop n s)

-- `ntohl` of four bytes.
unfoldable pub from_be : Bytes → ℕ
from_be [] = 0
from_be (b ∷ bs) = b * 256 ^ length bs + from_be bs

-- `readBlob` returns false, throws, or gives the bytes and leaves the rest of the file.
pub data ReadBlob : Type 0 where
  ended throws : ReadBlob
  blob : Bytes → Bytes → ReadBlob

-- `next` returns false, throws, or gives the entries of a block and leaves the rest of the file.
pub data Next : Type 0 where
  ended throws : Next
  batch : List OsmEntry → Bytes → Next

abbrev pub is_neg32 : ℕ → Bool
is_neg32 n = leb (2 ^ 31) n

-- The protocol buffer library and zlib: `none` where they report an error. `uncompress` is given the size of
-- the buffer.
module _ (parse_header : Bytes → Option BlobHeader) (parse_blob : Bytes → Option Blob)
    (uncompress : ℕ → Bytes → Option Bytes) where
  -- The size of the buffer for the uncompressed bytes. A negative one makes `resize` throw.
  unfoldable pub dest_len : Option ℕ → Bytes → Option ℕ
  dest_len none zdata = some (length zdata * 4)
  dest_len (some n) zdata = if is_neg32 n then none else some n

  unfoldable pub inflate : Option ℕ → Bytes → Option Bytes
  inflate raw_size zdata = elim (dest_len raw_size zdata) [
    | none ↦ none
    | some n ↦ uncompress n zdata
  ]

  -- The bytes of a blob that is no header; `none` where the code throws.
  unfoldable pub blob_bytes : Blob → Option Bytes
  blob_bytes b = elim b.zlib_data [
    | some zdata ↦ inflate b.raw_size zdata
    | none ↦ elim b.raw [ some raw ↦ some raw | none ↦ some [] ]
  ]

  -- The blob, after its bytes have been read.
  unfoldable pub finish_blob : BlobHeader → Bytes → Bytes → ReadBlob
  finish_blob h blob_buf rest = elim (parse_blob blob_buf) [
    | none ↦ ReadBlob.throws
    | some b ↦
        if str_eq h.blob_type "OSMHeader"
        then ReadBlob.blob [] rest
        else elim (blob_bytes b) [ none ↦ ReadBlob.throws | some bytes ↦ ReadBlob.blob bytes rest ]
  ]

  unfoldable pub read_body : BlobHeader → Bytes → ReadBlob
  read_body h s =
      if is_neg32 h.datasize then ReadBlob.throws else elim (read_exactly h.datasize s) [
        | none ↦ ReadBlob.ended
        | some (blob_buf, rest) ↦ finish_blob h blob_buf rest
      ]

  unfoldable pub read_header : ℕ → Bytes → ReadBlob
  read_header hdr_size s = elim (read_exactly hdr_size s) [
    | none ↦ ReadBlob.ended
    | some (hdr_buf, rest) ↦ elim (parse_header hdr_buf) [
      | none ↦ ReadBlob.throws
      | some h ↦ read_body h rest
    ]
  ]

  -- `readBlob`
  unfoldable pub read_blob : Bytes → ReadBlob
  read_blob s = elim (read_exactly 4 s) [
    | none ↦ ReadBlob.ended
    | some (hdr_size_be, rest) ↦ read_header (from_be hdr_size_be) rest
  ]

  module _ (parse_pb : Bytes → Option PrimitiveBlock) (degrees : ℕ → Double) where
    unfoldable pub entries_of_block : Bytes → Option (List OsmEntry)
    entries_of_block bytes = elim (parse_pb bytes) [
      | none ↦ none
      | some pb ↦ parse_primitive_block degrees pb
    ]

    -- What `next` does with a blob. One without bytes is skipped.
    unfoldable pub take_blob : (Bytes → Option Next) → ReadBlob → Option Next
    take_blob again ReadBlob.ended = some Next.ended
    take_blob again ReadBlob.throws = some Next.throws
    take_blob again (ReadBlob.blob [] rest) = again rest
    take_blob again (ReadBlob.blob (b ∷ bytes) rest) = elim (entries_of_block (b ∷ bytes)) [
      | none ↦ some Next.throws
      | some es ↦ some (Next.batch es rest)
    ]

    -- The loop of `next`. `none` means that the fuel ran out: each round takes at least 4 bytes, so one more
    -- than the bytes of the file is enough.
    unfoldable pub next : ℕ → Bytes → Option Next
    next zero s = none
    next (suc fuel) s = take_blob (next fuel) (read_blob s)

    -- `while (reader.next(batch))` on a file of `size` bytes: the blocks, and whether the loop ends by an
    -- exception.
    unfoldable pub read_all : ℕ → ℕ → Bytes → Option (List Block × Bool)
    read_all zero size s = none
    read_all (suc fuel) size s = elim (next (length s + 1) s) [
      | none ↦ none
      | some o ↦ elim o [
        | ended ↦ some ([], false)
        | throws ↦ some ([], true)
        | batch es rest ↦ elim (read_all fuel size rest) [
          | none ↦ none
          | some (bs, thrown) ↦
              some (record { entries = es; end_position = size - length rest } ∷ bs, thrown)
        ]
      ]
    ]
