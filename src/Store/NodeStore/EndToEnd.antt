-- ===== src/Store/NodeStore/EndToEnd.antt =====
-- Every path of a node from `insert` to `select`, through the shard files and `merge`.
use osmpgsqlimport.Prelude.{
  subst, ℕ, ◌+◌, ◌<◌, ◌≡◌, refl, sym, ap, ◌∙◌, true, List, [], ◌∷◌, arith, length-replicate,
  replicate, flatten, Option, none, some, zero, suc,
}
use osmpgsqlimport.Prelude.Double.{Point}
use osmpgsqlimport.Store.Shard.{Rec, ok, ShardWriter, ◌>>=◌}
use osmpgsqlimport.Store.Merge.{Decompress}
use osmpgsqlimport.Store.Merge.Slots.{select, max_ids}
use osmpgsqlimport.Store.NodeStore.{NodeStore, create_file, open_store, merge}
use osmpgsqlimport.Store.NodeStore.Codec.{encode, AllRec, AllRec-append}
use osmpgsqlimport.Store.NodeStore.NodePhase.{
  Holds, run_inserts, run_inserts-Holds, merge_shards-Holds, IsLossless, AllIn, logs_of, last_for,
  or_else, select-write_all,
}
use osmpgsqlimport.Store.NodeStore.Blank.{
  fresh, fresh_shard, open_store-create_file, fresh-IsValid, select-fresh,
}

blank-Holds : (n : ℕ) → Holds (replicate n fresh_shard) (replicate n [])
blank-Holds zero = tt
blank-Holds (suc n) = (
  record { holds = unfold flatten encode in refl; recs = tt; is_open = refl; has_file = refl },
  blank-Holds n,
)

-- Every record of the logs is one that was inserted.
Holds-AllRec : (ss : List ShardWriter) (ls : List (List Rec)) → Holds ss ls → AllRec (flatten ls)
unfolding flatten
Holds-AllRec [] [] h = tt
Holds-AllRec [] (l ∷ ls) h = absurd h
Holds-AllRec (s ∷ ss) [] h = absurd h
Holds-AllRec (s ∷ ss) (l ∷ ls) h = AllRec-append l (flatten ls) h.0.recs (Holds-AllRec ss ls h.1)

or_else-none : (p : Option Point) → or_else p none ≡ p
or_else-none none = refl
or_else-none (some p) = refl

-- The node phase of a fresh import. The files are created and opened, any records are inserted by any
-- threads, each into its own shard, and the shards are merged. None of this throws, and afterwards
-- `select` gives every id up to `max_id` the last coordinates that the logs of the shards, read one
-- shard after the other, hold for it, and nothing to an id that no thread inserted. LZ4 is any
-- lossless compressor, and the sizes of the pieces in which it decompresses do not matter.
pub select-merge-inserts :
    (lz4 : Decompress) (max_id n : ℕ) (log : List (ℕ × Rec)) (id : ℕ)
    → IsLossless lz4
    → max_id < max_ids
    → AllIn n log
    → id < max_id + 1
    → (st : NodeStore) × ((do
      opened ← open_store (create_file max_id n) max_id n true
      run_inserts opened log)
        ≡ ok st)
      × (select (merge lz4 st).merged id ≡ last_for id (flatten (logs_of (replicate n []) log)))
unfolding merge
select-merge-inserts lz4 max_id n log id lossless small inside below =
    let st0 : NodeStore = fresh max_id n in
    let many = length-replicate n fresh_shard in
    let (ss, ran, held) =
      run_inserts-Holds log st0 (replicate n []) (blank-Holds n)
        (subst (λ k. AllIn k log) (sym many) inside) in
    let recs = flatten (logs_of (replicate n []) log) in
    (
      record st0 { shards = ss },
      rw (open_store-create_file max_id n) ran,
      ap (λ m. select m id)
            (merge_shards-Holds lz4 lossless ss (logs_of (replicate n []) log) st0.merged held)
          ∙ select-write_all recs st0.merged id (fresh-IsValid max_id n small)
              (Holds-AllRec ss (logs_of (replicate n []) log) held)
              (omega (arith, length-replicate {A = Point} (max_id + 1) (0, 0)))
          ∙ ap (or_else (last_for id recs)) (select-fresh max_id n id)
          ∙ or_else-none (last_for id recs),
    )
