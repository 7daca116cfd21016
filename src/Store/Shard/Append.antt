-- ===== src/Store/Shard/Append.antt =====
-- What `insert` appends to a shard, and when it throws.
use osmpgsqlimport.Prelude.{
  is_some, ℕ, ◌+◌, ◌-◌, ◌/◌, ◌<◌, max, ◌≡◌, inl, inr, true, List, [], ◌∷◌, ◌++◌, arith, length,
  length-append, length-replicate, replicate, append-nil, append_assoc, flatten,
}
use osmpgsqlimport.Store.Bitmap.{length-bitmap_set}
use osmpgsqlimport.Store.Shard.{
  append_rec, ShardWriter, Rec, rec_bytes, Result-cases, ok, chunks, flush_inbuf, grow_bitmap,
  insert_shard, content,
}

pub flatten-concat {ℓ} :
    {A : Type ℓ} (xs : List (List A)) (x : List A) → flatten (xs ++ x ∷ []) ≡ flatten xs ++ x
unfolding flatten
flatten-concat [] x = append-nil x
flatten-concat (y ∷ ys) x = simp (flatten-concat ys x, append_assoc)

pub content-flush_inbuf : (s : ShardWriter) → content (flush_inbuf s) ≡ content s
unfolding flush_inbuf
content-flush_inbuf s = ground (
  arith,
  append-nil (flatten (chunks s.file ++ s.inbuf ∷ [])),
  flatten-concat (chunks s.file) s.inbuf,
)

-- What a successful `growBitmap` leaves: room for the id, and all else as it was.
grow_bitmap-ok :
    (s t : ShardWriter) (id : ℕ)
    → grow_bitmap s id ≡ ok t
    → (t ≡ record s { bm = t.bm }) × (id / 8 < length t.bm)
unfolding grow_bitmap
grow_bitmap-ok s t id h =
    let size = length s.bm in
    let more = max (id / 8 + 1) (size + size / 4) - size in
    ground (arith, length-append s.bm (replicate more 0), length-replicate {A = ℕ} more 0)

flush_inbuf-rest :
    (s : ShardWriter)
    → (length (flush_inbuf s).bm ≡ length s.bm) × ((flush_inbuf s).is_open ≡ s.is_open)
unfolding flush_inbuf
flush_inbuf-rest s = ground arith

append_rec-content :
    (s : ShardWriter) (r : Rec)
    → (content (append_rec s r) ≡ content s ++ rec_bytes r)
      × (length (append_rec s r).bm ≡ length s.bm)
      × ((append_rec s r).is_open ≡ s.is_open)
unfolding append_rec
append_rec-content s r =
    let s2 = record s { inbuf = s.inbuf ++ rec_bytes r } in
    ground (
      arith,
      content-flush_inbuf s2,
      flush_inbuf-rest s2,
      length-bitmap_set s.bm r.id,
      length-bitmap_set (flush_inbuf s2).bm r.id,
      append_assoc (flatten (chunks s.file)) s.inbuf (rec_bytes r),
    )

-- An append to a shard adds the record's 24 bytes to the end of what the shard holds, whether or not
-- the buffer was flushed, and leaves the bitmap at least as long as the record's byte needs.
pub insert_shard-content :
    (s t : ShardWriter) (r : Rec)
    → insert_shard s r ≡ ok t
    → (content t ≡ content s ++ rec_bytes r) × (r.id / 8 < length t.bm) × (t.is_open ≡ s.is_open)
unfolding insert_shard
insert_shard-content s t r h = elim (Result-cases (grow_bitmap s r.id)) [
  | inl (g, e) ↦ ground (arith, e, grow_bitmap-ok s g r.id e, append_rec-content g r)
  | inr (f, e) ↦ ground (arith, e)
]

-- With its descriptors open a shard takes every record. When they are not, as in resume mode, `insert`
-- throws unless the bitmap happens to have room.
pub insert_shard_total :
    (s : ShardWriter) (r : Rec) → s.is_open ≡ true → (t : ShardWriter) × (insert_shard s r ≡ ok t)
unfolding insert_shard grow_bitmap
insert_shard_total s r h = elim (Result-cases (grow_bitmap s r.id)) [
  | inl (g, e) ↦ (append_rec g r, rw (e, insert_shard))
  | inr (f, e) ↦ absurd (ground arith)
]

-- An append leaves a shard's file in place.
pub insert_shard-file :
    (s t : ShardWriter) (r : Rec)
    → insert_shard s r ≡ ok t
    → is_some s.file ≡ true
    → is_some t.file ≡ true
unfolding insert_shard append_rec flush_inbuf
insert_shard-file s t r h k = elim (Result-cases (grow_bitmap s r.id)) [
  | inl (g, e) ↦ ground (arith, e, grow_bitmap-ok s g r.id e)
  | inr (f, e) ↦ ground (arith, e)
]
