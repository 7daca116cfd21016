-- ===== src/Pbf/Blobs/Frames.antt =====
-- `readBlob` and `next` of src/OSMReader.cpp read back the blobs that a PBF file was framed from, and always
-- come to an end.
use osmpgsqlimport.Prelude.{
  Option-cases, ℕ, ◌+◌, ◌/◌, ◌%◌, ◌^◌, ◌<◌, ◌≤◌, ◌≡◌, refl, ap, ◌∙◌, inl, inr, false, List, [], ◌∷◌,
  ◌++◌, append_assoc, length, length-append, length-drop, take-length, drop-length, le→ltb-false,
  Bool-cases, Option, some, Bytes, arith,
}
use osmpgsqlimport.Pbf.Blobs.{
  BlobHeader, Blob, read_exactly, from_be, ReadBlob, is_neg32, finish_blob, read_body, read_header,
  read_blob,
}

-- `htonl`
unfoldable pub be_bytes : ℕ → Bytes
be_bytes n = (n / 2 ^ 24 % 256) ∷ (n / 2 ^ 16 % 256) ∷ (n / 2 ^ 8 % 256) ∷ (n % 256) ∷ []

from_be-be_bytes : (n : ℕ) → n < 2 ^ 32 → from_be (be_bytes n) ≡ n
unfolding from_be be_bytes
from_be-be_bytes n h = omega arith

read_exactly-append : (xs rest : Bytes) → read_exactly (length xs) (xs ++ rest) ≡ some (xs, rest)
unfolding read_exactly
read_exactly-append xs rest =
    rw
      (
        le→ltb-false (length (xs ++ rest)) (length xs) (omega (arith, length-append xs rest)),
        take-length xs rest,
        drop-length xs rest,
      )
      refl

size-append : (n : ℕ) (rest : Bytes) → read_exactly 4 (be_bytes n ++ rest) ≡ some (be_bytes n, rest)
unfolding be_bytes
size-append n rest = read_exactly-append (be_bytes n) rest

-- What is left of a file after a read.
read_exactly-length :
    (n : ℕ) (s a rest : Bytes) → read_exactly n s ≡ some (a, rest) → length s ≡ n + length rest
unfolding read_exactly
read_exactly-length n s a rest h = ground (arith, length-drop n s)

-- A blob of a file: the bytes of its header and of itself.
pub record Frame : Type 0 where
  pub header : Bytes
  pub body : Bytes

unfoldable pub frame_bytes : Frame → Bytes
frame_bytes f = be_bytes (length f.header) ++ (f.header ++ f.body)

unfoldable pub file_bytes : List Frame → Bytes
file_bytes [] = []
file_bytes (f ∷ fs) = frame_bytes f ++ file_bytes fs

module _ (parse_header : Bytes → Option BlobHeader) (parse_blob : Bytes → Option Blob)
    (uncompress : ℕ → Bytes → Option Bytes) where
  -- The frame's header gives the size of its body, and both can be parsed.
  pub record IsFrame (f : Frame) (h : BlobHeader) (b : Blob) : Type 0 where
    pub short : length f.header < 2 ^ 32
    pub has_header : parse_header f.header ≡ some h
    pub sized : h.datasize ≡ length f.body
    pub no_neg : length f.body < 2 ^ 31
    pub has_blob : parse_blob f.body ≡ some b

  -- The three reads of `readBlob`, each with what it has read.
  read_blob-header :
      (s x rest : Bytes)
      → read_exactly 4 s ≡ some (x, rest)
      → read_blob parse_header parse_blob uncompress s
        ≡ read_header parse_header parse_blob uncompress (from_be x) rest
  unfolding read_blob
  read_blob-header s x rest e = rw (read_blob, e) refl

  read_header-body :
      (n : ℕ) (s x rest : Bytes) (h : BlobHeader)
      → read_exactly n s ≡ some (x, rest)
      → parse_header x ≡ some h
      → read_header parse_header parse_blob uncompress n s
        ≡ read_body parse_header parse_blob uncompress h rest
  unfolding read_header
  read_header-body n s x rest h e p = rw (read_header, e, p) refl

  read_body-finish :
      (h : BlobHeader) (s x rest : Bytes)
      → is_neg32 h.datasize ≡ false
      → read_exactly h.datasize s ≡ some (x, rest)
      → read_body parse_header parse_blob uncompress h s
        ≡ finish_blob parse_header parse_blob uncompress h x rest
  unfolding read_body
  read_body-finish h s x rest n e = rw (read_body, n, e) refl

  pub read_blob-frame :
      (f : Frame) {h : BlobHeader} {b : Blob} (rest : Bytes)
      → IsFrame f h b
      → read_blob parse_header parse_blob uncompress (frame_bytes f ++ rest)
        ≡ finish_blob parse_header parse_blob uncompress h f.body rest
  unfolding frame_bytes
  read_blob-frame f {h} {b} rest v =
      let n = length f.header in
      read_blob-header _ (be_bytes n) (f.header ++ (f.body ++ rest)) (
        rw (append_assoc (be_bytes n) (f.header ++ f.body) rest, append_assoc f.header f.body rest)
          (size-append n (f.header ++ (f.body ++ rest))))
      ∙ ap (λ m. read_header parse_header parse_blob uncompress m (f.header ++ (f.body ++ rest)))
          (from_be-be_bytes n v.short)
      ∙ read_header-body n _ f.header (f.body ++ rest) h
          (read_exactly-append f.header (f.body ++ rest)) v.has_header
      ∙ read_body-finish h _ f.body rest (ground (arith, v.sized, v.no_neg))
          (ap (λ m. read_exactly m (f.body ++ rest)) v.sized ∙ read_exactly-append f.body rest)

  -- A read leaves less of the file than there was.
  finish_blob-rest :
      (h : BlobHeader) (x r bytes rest : Bytes)
      → finish_blob parse_header parse_blob uncompress h x r ≡ ReadBlob.blob bytes rest
      → r ≡ rest
  unfolding finish_blob
  finish_blob-rest h x r bytes rest e = ground arith

  read_body-shrinks :
      (h : BlobHeader) (s bytes rest : Bytes)
      → read_body parse_header parse_blob uncompress h s ≡ ReadBlob.blob bytes rest
      → length rest ≤ length s
  unfolding read_body
  read_body-shrinks h s bytes rest e = elim (Bool-cases (is_neg32 h.datasize)) [
    | inl n ↦ cc (n, e)
    | inr n ↦ elim (Option-cases (read_exactly h.datasize s)) [
      | inl o ↦ ground (arith, n, o, e)
      | inr ((x, r), o) ↦
          let same : r ≡ rest = finish_blob-rest h x r bytes rest (ground (arith, n, o, e)) in
          omega (arith, read_exactly-length h.datasize s x r o, ap length same)
    ]
  ]

  pub read_blob-shrinks :
      (s bytes rest : Bytes)
      → read_blob parse_header parse_blob uncompress s ≡ ReadBlob.blob bytes rest
      → length rest < length s
  unfolding read_blob read_header
  read_blob-shrinks s bytes rest e = elim (Option-cases (read_exactly 4 s)) [
    | inl o ↦ ground (arith, o, e)
    | inr ((x, r), o) ↦ elim (Option-cases (read_exactly (from_be x) r)) [
      | inl q ↦ ground (arith, o, q, e)
      | inr ((y, u), q) ↦ elim (Option-cases (parse_header y)) [
        | inl p ↦ ground (arith, o, q, p, e)
        | inr (h, p) ↦ omega (
          arith,
          read_exactly-length 4 s x r o,
          read_exactly-length (from_be x) r y u q,
          read_body-shrinks h u bytes rest (ground (arith, o, q, p, e)),
        )
      ]
    ]
  ]
