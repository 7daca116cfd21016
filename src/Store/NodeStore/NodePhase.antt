-- ===== src/Store/NodeStore/NodePhase.antt =====
-- The node phase as a whole: the constructor on blank files, any inserts, `merge`, and `select`.
use osmpgsqlimport.Prelude.{
  is_some, ℕ, zero, suc, ◌*◌, ◌/◌, ◌%◌, ◌^◌, ◌<◌, ◌≡◌, refl, sym, ap, ◌∙◌, inl, inr, true, List, [],
  ◌∷◌, ◌++◌, arith, leb, ◌==◌, if◌then◌else◌, Bool-cases, length, length-set, get_elem?, set,
  flatten, append-nil, Bytes, Option, none, some,
}
use osmpgsqlimport.Prelude.Double.{Point}
use osmpgsqlimport.Store.Shard.{
  Result, ok, ◌>>=◌, ShardWriter, Rec, rec_bytes, chunks, content, close_writer, insert_shard,
  flush_inbuf,
}
use osmpgsqlimport.Store.Shard.Append.{
  insert_shard-file, insert_shard-content, insert_shard_total, content-flush_inbuf,
}
use osmpgsqlimport.Store.Merge.{Merged, Decompress, merge_shards, merge_file, write_to_merged}
use osmpgsqlimport.Store.Merge.Chunks.{records, feed_all-records}
use osmpgsqlimport.Store.Merge.Slots.{
  select, IsValid, select-write, write_outside, write_to_merged-IsValid,
}
use osmpgsqlimport.Store.NodeStore.{NodeStore, insert}
use osmpgsqlimport.Store.NodeStore.Codec.{
  IsRec, AllRec, encode, encode-concat, AllRec-append, write_all, records-encode,
}

-- The last coordinates that a list of records gives to an id.
unfoldable pub last_for : ℕ → List Rec → Option Point
last_for id [] = none
last_for id (r ∷ rs) = elim (last_for id rs) [
  | some p ↦ some p
  | none ↦ if r.id == id then some (r.lon_m, r.lat_m) else none
]

abbrev pub or_else : Option Point → Option Point → Option Point
or_else (some p) q = some p
or_else none q = q

length-slots : (m : Merged) (r : Rec) → length (write_to_merged m r).slots ≡ length m.slots
unfolding write_to_merged
length-slots m r = ground (arith, length-set m.slots (r.id * 16 % 2 ^ 64 / 16) (r.lon_m, r.lat_m))

-- Writing records to the mapping gives every id in the file its last coordinates.
pub select-write_all :
    (rs : List Rec) (m : Merged) (id : ℕ)
    → IsValid m
    → AllRec rs
    → id < length m.slots
    → select (write_all write_to_merged m rs) id ≡ or_else (last_for id rs) (select m id)
unfolding last_for
select-write_all [] m id v h k = refl
select-write_all (r ∷ rs) m id v h k =
    let ih =
      select-write_all rs (write_to_merged m r) id (write_to_merged-IsValid m r v) h.1
        (omega (arith, length-slots m r)) in
    elim (Bool-cases (leb (length m.slots) r.id)) [
      | inl past ↦ ground (arith, ih, write_outside m r h.0.0)
      | inr inside ↦ ground (arith, ih, select-write m r id v, v.few)
    ]

-- The log of every shard, as `insert` calls extend them.
unfoldable pub append_at : List (List Rec) → ℕ → Rec → List (List Rec)
append_at [] i r = []
append_at (l ∷ ls) zero r = (l ++ r ∷ []) ∷ ls
append_at (l ∷ ls) (suc i) r = l ∷ append_at ls i r

unfoldable pub logs_of : List (List Rec) → List (ℕ × Rec) → List (List Rec)
unfolding append_at
logs_of ls [] = ls
logs_of ls ((i, r) ∷ log) = logs_of (append_at ls i r) log

-- A shard that is open, has its file, and holds the records of its log in order.
pub record Keeps (s : ShardWriter) (l : List Rec) : Type 0 where
  pub holds : content s ≡ encode l
  pub recs : AllRec l
  pub is_open : s.is_open ≡ true
  pub has_file : is_some s.file ≡ true

abbrev pub Holds : List ShardWriter → List (List Rec) → Type 0
Holds [] [] = Unit {0}
Holds [] (l ∷ ls) = ⊥
Holds (s ∷ ss) [] = ⊥
Holds (s ∷ ss) (l ∷ ls) = Keeps s l × Holds ss ls

Keeps-insert :
    (s t : ShardWriter) (l : List Rec) (r : Rec)
    → insert_shard s r ≡ ok t
    → Keeps s l
    → IsRec r
    → Keeps t (l ++ r ∷ [])
Keeps-insert s t l r e k h =
    let now = insert_shard-content s t r e in
    record {
      holds = now.0 ∙ ap (λ b. b ++ rec_bytes r) k.holds ∙ sym (encode-concat l r);
      recs = AllRec-append l (r ∷ []) k.recs (h, tt);
      is_open = now.2 ∙ k.is_open;
      has_file = insert_shard-file s t r e k.has_file;
    }

insert_at-Holds :
    (ss : List ShardWriter) (ls : List (List Rec)) (i : ℕ) (r : Rec)
    → Holds ss ls
    → IsRec r
    → i < length ss
    → (s : ShardWriter) × (t : ShardWriter) × (get_elem? ss i ≡ some s)
      × (insert_shard s r ≡ ok t)
      × Holds (set ss i t) (append_at ls i r)
unfolding append_at
insert_at-Holds [] ls i r h k lt = elim lt [ ]
insert_at-Holds (s ∷ ss) [] i r h k lt = absurd h
insert_at-Holds (s ∷ ss) (l ∷ ls) zero r h k lt =
    let (t, e) = insert_shard_total s r h.0.is_open in
    (s, t, refl, e, (Keeps-insert s t l r e h.0 k, h.1))
insert_at-Holds (s ∷ ss) (l ∷ ls) (suc i) r h k lt =
    let (s', t, found, e, after) = insert_at-Holds ss ls i r h.1 k (omega arith) in
    (s', t, found, e, (h.0, after))

-- The inserts of a node phase, in the order in which they happen.
unfoldable pub run_inserts : NodeStore → List (ℕ × Rec) → Result NodeStore
run_inserts st [] = ok st
run_inserts st ((i, r) ∷ log) = do st' ← insert st i r; run_inserts st' log

abbrev pub AllIn : ℕ → List (ℕ × Rec) → Type 0
AllIn n [] = Unit {0}
AllIn n ((i, r) ∷ log) = (i < n) × IsRec r × AllIn n log

pub run_inserts-Holds :
    (log : List (ℕ × Rec)) (st : NodeStore) (ls : List (List Rec))
    → Holds st.shards ls
    → AllIn (length st.shards) log
    → (ss : List ShardWriter) × (run_inserts st log ≡ ok (record st { shards = ss }))
      × Holds ss (logs_of ls log)
unfolding run_inserts logs_of insert
run_inserts-Holds [] st ls h k = (st.shards, refl, h)
run_inserts-Holds ((i, r) ∷ log) st ls h k =
    let (s, t, found, e, after) = insert_at-Holds st.shards ls i r h k.1 k.0 in
    let next : NodeStore = record st { shards = set st.shards i t } in
    let (ss, ran, held) =
      run_inserts-Holds log next (append_at ls i r) after (rw (length-set st.shards i t) k.2) in
    let step : insert st i r ≡ ok next = rw (found, insert) (rw (e, insert)) in
    (ss, rw step ran, held)

-- What the store needs of LZ4: decompressing a frame gives back the bytes that were compressed into it,
-- in pieces of whatever sizes.
abbrev pub IsLossless : Decompress → Type 0
IsLossless lz4 = (frame : List Bytes) → flatten (lz4 frame) ≡ flatten frame

close_writer-Keeps :
    (s : ShardWriter) (l : List Rec)
    → Keeps s l
    → (frame : List Bytes) × ((close_writer s).file ≡ some frame) × (flatten frame ≡ encode l)
unfolding close_writer flush_inbuf
close_writer-Keeps s l k = (
  chunks (flush_inbuf s).file,
  ground (arith, k.is_open, k.has_file),
  ground
      (arith, content-flush_inbuf s, k.holds, append-nil (flatten (chunks (flush_inbuf s).file))),
)

write_all_append :
    (rs ss : List Rec) (m : Merged)
    → write_all write_to_merged m (rs ++ ss)
      ≡ write_all write_to_merged (write_all write_to_merged m rs) ss
write_all_append [] ss m = refl
write_all_append (r ∷ rs) ss m = write_all_append rs ss (write_to_merged m r)

module _ (lz4 : Decompress) (lossless : IsLossless lz4) where
  merge_file-encode :
      (m : Merged) (frame : List Bytes) (l : List Rec)
      → flatten frame ≡ encode l
      → AllRec l
      → merge_file lz4 m (some frame) ≡ write_all write_to_merged m l
  unfolding merge_file
  merge_file-encode m frame l e h =
      ap (λ r. r.0)
        (feed_all-records write_to_merged (lz4 frame) m [] (omega arith)
          ∙ ap (records write_to_merged m) (lossless frame ∙ e)
          ∙ records-encode write_to_merged l m h)

  pub merge_shards-Holds :
      (ss : List ShardWriter) (ls : List (List Rec)) (m : Merged)
      → Holds ss ls
      → merge_shards lz4 m ss ≡ write_all write_to_merged m (flatten ls)
  unfolding merge_shards flatten
  merge_shards-Holds [] [] m h = refl
  merge_shards-Holds [] (l ∷ ls) m h = absurd h
  merge_shards-Holds (s ∷ ss) [] m h = absurd h
  merge_shards-Holds (s ∷ ss) (l ∷ ls) m h =
      let (frame, e, bytes) = close_writer-Keeps s l h.0 in
      ap (λ f. merge_shards lz4 (merge_file lz4 m f) ss) e
      ∙ ap (λ n. merge_shards lz4 n ss) (merge_file-encode m frame l bytes h.0.recs)
      ∙ merge_shards-Holds ss ls (write_all write_to_merged m l) h.1
      ∙ sym (write_all_append l (flatten ls) m)
