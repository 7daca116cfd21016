-- ===== src/Pbf/Blobs/Reading.antt =====
-- The loops of `next` and `main` over a PBF file, of src/OSMReader.cpp and src/main.cpp, come to an end and
-- give the blocks that the file was framed from.
use osmpgsqlimport.Prelude.{
  ℕ, zero, suc, ◌+◌, ◌-◌, ◌<◌, ◌≤◌, ◌≡◌, refl, ap, ◌∙◌, inl, inr, Bool, true, false, List, [], ◌∷◌,
  ◌++◌, length, length-append, if◌then◌else◌, Option-cases, Option, some, str_eq, Bytes, arith,
}
use osmpgsqlimport.Prelude.Double.{Double}
use osmpgsqlimport.Pbf.{OsmEntry}
use osmpgsqlimport.Pbf.Block.{PrimitiveBlock}
use osmpgsqlimport.Producer.{Block}
use osmpgsqlimport.Pbf.Blobs.{
  read_exactly, BlobHeader, Blob, ReadBlob, Next, finish_blob, read_blob, blob_bytes,
  entries_of_block, take_blob, next, read_all,
}
use osmpgsqlimport.Pbf.Blobs.Frames.{
  be_bytes, Frame, frame_bytes, file_bytes, IsFrame, read_blob-frame, read_blob-shrinks,
}

module _ (parse_header : Bytes → Option BlobHeader) (parse_blob : Bytes → Option Blob)
    (uncompress : ℕ → Bytes → Option Bytes) (parse_pb : Bytes → Option PrimitiveBlock)
    (degrees : ℕ → Double) where
  abbrev step : (Bytes → Option Next) → ReadBlob → Option Next
  step = take_blob parse_header parse_blob uncompress parse_pb degrees

  abbrev run : ℕ → Bytes → Option Next
  run = next parse_header parse_blob uncompress parse_pb degrees

  take_blob_total :
      (again : Bytes → Option Next) (r : ReadBlob)
      → ((bytes rest : Bytes) → r ≡ ReadBlob.blob bytes rest → (o : Next) × (again rest ≡ some o))
      → (o : Next) × (step again r ≡ some o)
  unfolding take_blob
  take_blob_total again ReadBlob.ended h = (Next.ended, refl)
  take_blob_total again ReadBlob.throws h = (Next.throws, refl)
  take_blob_total again (ReadBlob.blob [] rest) h = h [] rest refl
  take_blob_total again (ReadBlob.blob (b ∷ bytes) rest) h =
      elim (Option-cases
        (entries_of_block parse_header parse_blob uncompress parse_pb degrees (b ∷ bytes))) [
          | inl q ↦ (Next.throws, rw (q, take_blob) refl)
          | inr (es, q) ↦ (Next.batch es rest, rw (q, take_blob) refl)
        ]

  take_blob_mono :
      (again later : Bytes → Option Next) (r : ReadBlob) (o : Next)
      → ((rest : Bytes) → again rest ≡ some o → later rest ≡ some o)
      → step again r ≡ some o
      → step later r ≡ some o
  unfolding take_blob
  take_blob_mono again later ReadBlob.ended o h e = e
  take_blob_mono again later ReadBlob.throws o h e = e
  take_blob_mono again later (ReadBlob.blob [] rest) o h e = h rest e
  take_blob_mono again later (ReadBlob.blob (b ∷ bytes) rest) o h e = e

  -- `next` comes to an end on any bytes.
  next_total : (fuel : ℕ) (s : Bytes) → length s < fuel → (o : Next) × (run fuel s ≡ some o)
  unfolding next
  next_total zero s h = elim h [ ]
  next_total (suc fuel) s h =
      take_blob_total (run fuel) (read_blob parse_header parse_blob uncompress s) (λ bytes rest e.
        next_total fuel rest
          (omega (arith, read_blob-shrinks parse_header parse_blob uncompress s bytes rest e)))

  -- More fuel changes no result.
  next_mono : (f g : ℕ) (s : Bytes) (o : Next) → f ≤ g → run f s ≡ some o → run g s ≡ some o
  unfolding next
  next_mono zero g s o h e = cc e
  next_mono (suc f) zero s o h e = absurd (omega arith)
  next_mono (suc f) (suc g) s o h e =
      take_blob_mono (run f) (run g) (read_blob parse_header parse_blob uncompress s) o
        (λ rest. next_mono f g rest o (omega arith)) e

  -- The bytes that `readBlob` gives for a blob: none for the header of the file.
  abbrev content : BlobHeader → Blob → Option Bytes
  content h b =
      if str_eq h.blob_type "OSMHeader"
      then some []
      else blob_bytes parse_header parse_blob uncompress b

  read_blob-content :
      (f : Frame) {h : BlobHeader} {b : Blob} (bytes rest : Bytes)
      → IsFrame parse_header parse_blob uncompress f h b
      → content h b ≡ some bytes
      → read_blob parse_header parse_blob uncompress (frame_bytes f ++ rest)
        ≡ ReadBlob.blob bytes rest
  unfolding finish_blob
  read_blob-content f {h} {b} bytes rest v c =
      read_blob-frame parse_header parse_blob uncompress f rest v
      ∙ rw (v.has_blob, finish_blob) (ground (arith, c))

  -- A file as it is framed: the blobs, and the blocks of those that are neither the header of the file nor
  -- empty, with their ends.
  pub data Framed : ℕ → List Frame → List Block → Type 0 where
    nothing : {at : ℕ} → Framed at [] []
    skipped :
        {at : ℕ} {f : Frame} {h : BlobHeader} {b : Blob} {fs : List Frame} {bs : List Block}
        → IsFrame parse_header parse_blob uncompress f h b
        → content h b ≡ some []
        → Framed (at + length (frame_bytes f)) fs bs
        → Framed at (f ∷ fs) bs
    block :
        {at c : ℕ} {cs : Bytes} {es : List OsmEntry} {f : Frame} {h : BlobHeader} {b : Blob}
        {fs : List Frame} {bs : List Block}
        → IsFrame parse_header parse_blob uncompress f h b
        → content h b ≡ some (c ∷ cs)
        → entries_of_block parse_header parse_blob uncompress parse_pb degrees (c ∷ cs) ≡ some es
        → Framed (at + length (frame_bytes f)) fs bs
        → Framed at
            (f ∷ fs)
            (record { entries = es; end_position = at + length (frame_bytes f) } ∷ bs)

  read_blob_end : read_blob parse_header parse_blob uncompress [] ≡ ReadBlob.ended
  unfolding read_blob read_exactly
  read_blob_end = refl

  take_blob-block :
      (again : Bytes → Option Next) (c : ℕ) (cs rest : Bytes) {es : List OsmEntry}
      → entries_of_block parse_header parse_blob uncompress parse_pb degrees (c ∷ cs) ≡ some es
      → step again (ReadBlob.blob (c ∷ cs) rest) ≡ some (Next.batch es rest)
  unfolding take_blob
  take_blob-block again c cs rest e = rw (e, take_blob) refl

  -- What `next` does at some place of such a file: it ends, or gives the first block.
  First : ℕ → List Frame → List Block → ℕ → Type 0
  First at fs [] fuel = run fuel (file_bytes fs) ≡ some Next.ended
  First at fs (b ∷ bs) fuel =
      (rest : List Frame) × (run fuel (file_bytes fs)
        ≡ some (Next.batch b.entries (file_bytes rest)))
      × Framed b.end_position rest bs
      × (b.end_position + length (file_bytes rest) ≡ at + length (file_bytes fs))

  First-skip :
      (at : ℕ) (f : Frame) (fs : List Frame) (bs : List Block) (fuel : ℕ)
      → read_blob parse_header parse_blob uncompress (file_bytes (f ∷ fs))
        ≡ ReadBlob.blob [] (file_bytes fs)
      → First (at + length (frame_bytes f)) fs bs fuel
      → First at (f ∷ fs) bs (suc fuel)
  unfolding First next take_blob file_bytes
  First-skip at f fs [] fuel e first = rw e first
  First-skip at f fs (b ∷ bs) fuel e (rest, ran, framed, size) =
      (rest, rw e ran, framed, omega (arith, size, length-append (frame_bytes f) (file_bytes fs)))

  next-First :
      (fuel : ℕ) {at : ℕ} (fs : List Frame) (bs : List Block)
      → length fs < fuel
      → Framed at fs bs
      → First at fs bs fuel
  unfolding First next take_blob file_bytes
  next-First zero fs bs h framed = elim h [ ]
  next-First (suc fuel) _ _ h nothing = rw read_blob_end refl
  next-First (suc fuel) (f ∷ fs) bs h (skipped v c framed) =
      First-skip _ f fs bs fuel (read_blob-content f [] (file_bytes fs) v c)
        (next-First fuel fs bs (omega arith) framed)
  next-First (suc fuel) (f ∷ fs) (b ∷ bs) h
        (block {at = at} {c = c} {cs = cs} {es = es} v has e framed) =
      (
        fs,
        rw (read_blob-content f (c ∷ cs) (file_bytes fs) v has)
            (take_blob-block (run fuel) c cs (file_bytes fs) e),
        framed,
        omega (arith, length-append (frame_bytes f) (file_bytes fs)),
      )

  length-file_bytes : (fs : List Frame) → length fs ≤ length (file_bytes fs)
  unfolding file_bytes frame_bytes be_bytes
  length-file_bytes [] = omega arith
  length-file_bytes (f ∷ fs) =
      omega (arith, length-file_bytes fs, length-append (frame_bytes f) (file_bytes fs))

  -- One round of the loop of `main`.
  read_all-batch :
      (fuel size : ℕ) (s rest : Bytes) (es : List OsmEntry) {bs : List Block} {thrown : Bool}
      → run (length s + 1) s ≡ some (Next.batch es rest)
      → read_all parse_header parse_blob uncompress parse_pb degrees fuel size rest
        ≡ some (bs, thrown)
      → read_all parse_header parse_blob uncompress parse_pb degrees (suc fuel) size s
        ≡ some (record { entries = es; end_position = size - length rest } ∷ bs, thrown)
  unfolding read_all
  read_all-batch fuel size s rest es e later = rw (e, later, read_all) refl

  -- Reading a file to its end gives the blocks that it was framed from, in their order and with the positions
  -- where they end, and skips the header of the file and the blobs without bytes.
  pub read_all-Framed :
      (fuel size at : ℕ) (fs : List Frame) (bs : List Block)
      → length bs < fuel
      → size ≡ at + length (file_bytes fs)
      → Framed at fs bs
      → read_all parse_header parse_blob uncompress parse_pb degrees fuel size (file_bytes fs)
        ≡ some (bs, false)
  unfolding First read_all
  read_all-Framed zero size at fs bs h s framed = elim h [ ]
  read_all-Framed (suc fuel) size at fs [] h s framed =
      rw
        (
          next-First (length (file_bytes fs) + 1) fs [] (omega (arith, length-file_bytes fs))
              framed,
          read_all,
        )
        refl
  read_all-Framed (suc fuel) size at fs (b ∷ bs) h s framed =
      let (rest, ran, later, place) =
        next-First (length (file_bytes fs) + 1) fs (b ∷ bs) (omega (arith, length-file_bytes fs))
          framed in
      let ends : size - length (file_bytes rest) ≡ b.end_position = omega arith in
      read_all-batch fuel size (file_bytes fs) (file_bytes rest) b.entries ran (
        read_all-Framed fuel size b.end_position rest bs (omega arith) (omega (arith, s, place))
          later)
      ∙ ap (λ n. some (record { entries = b.entries; end_position = n } ∷ bs, false)) ends

  take_blob-shrinks :
      (again : Bytes → Option Next) (r : ReadBlob) (s rest : Bytes) (es : List OsmEntry)
      → ((u : Bytes) → again u ≡ some (Next.batch es rest) → length rest < length u)
      → ((bytes u : Bytes) → r ≡ ReadBlob.blob bytes u → length u < length s)
      → step again r ≡ some (Next.batch es rest)
      → length rest < length s
  unfolding take_blob
  take_blob-shrinks again ReadBlob.ended s rest es h k e = absurd (ground (arith, e))
  take_blob-shrinks again ReadBlob.throws s rest es h k e = absurd (ground (arith, e))
  take_blob-shrinks again (ReadBlob.blob [] u) s rest es h k e = omega (arith, h u e, k [] u refl)
  take_blob-shrinks again (ReadBlob.blob (b ∷ bytes) u) s rest es h k e =
      let same : u ≡ rest = ground arith in omega (arith, k (b ∷ bytes) u refl, ap length same)

  next-shrinks :
      (fuel : ℕ) (s rest : Bytes) (es : List OsmEntry)
      → run fuel s ≡ some (Next.batch es rest)
      → length rest < length s
  unfolding next
  next-shrinks zero s rest es e = cc e
  next-shrinks (suc fuel) s rest es e =
      take_blob-shrinks (run fuel) (read_blob parse_header parse_blob uncompress s) s rest es
        (λ u. next-shrinks fuel u rest es) (read_blob-shrinks parse_header parse_blob uncompress s)
        e

  -- Reading any bytes comes to an end, by the end of the file or by an exception.
  pub read_all_total :
      (fuel size : ℕ) (s : Bytes)
      → length s < fuel
      → (bs : List Block) × (thrown : Bool) × (read_all parse_header parse_blob uncompress parse_pb
            degrees fuel size s
          ≡ some (bs, thrown))
  unfolding read_all
  read_all_total zero size s h = elim h [ ]
  read_all_total (suc fuel) size s h =
      let (o, ran) = next_total (length s + 1) s (omega arith) in
      on o ran (λ rest lt. read_all_total fuel size rest (omega arith))
    where
      on :
          (o : Next)
          → run (length s + 1) s ≡ some o
          → ((rest : Bytes)
              → length rest < length s
              → (bs : List Block) × (thrown : Bool) × (read_all parse_header parse_blob uncompress
                    parse_pb degrees fuel size rest
                  ≡ some (bs, thrown)))
          → (bs : List Block) × (thrown : Bool) × (read_all parse_header parse_blob uncompress
                parse_pb degrees
                (suc fuel)
                size
                s
              ≡ some (bs, thrown))
      on Next.ended e ih = ([], false, rw (e, read_all) refl)
      on Next.throws e ih = ([], true, rw (e, read_all) refl)
      on (Next.batch es rest) e ih =
          let (bs, thrown, later) = ih rest (next-shrinks (length s + 1) s rest es e) in
          (
            record { entries = es; end_position = size - length rest } ∷ bs,
            thrown,
            read_all-batch fuel size s rest es e later,
          )
