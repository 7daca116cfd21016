-- ===== src/Store/NodeStore/Codec.antt =====
-- The records of a shard file as bytes, and the merge loop over them (src/OSMMMap.cpp, `insert` and `merge`).
use osmpgsqlimport.Prelude.{
  ℕ, zero, suc, ◌+◌, ◌^◌, ◌<◌, ◌≡◌, refl, sym, ap, ap₂, ◌∙◌, List, [], ◌∷◌, ◌++◌, arith, length,
  length-append, take, drop, take-length, drop-length, append-nil, append_assoc, Bytes,
}
use osmpgsqlimport.Prelude.Word.{le_bytes, length-le_bytes, from_le, from_le-le_bytes}
use osmpgsqlimport.Store.Shard.{Rec, rec_bytes}
use osmpgsqlimport.Store.Merge.{read_rec}
use osmpgsqlimport.Store.Merge.Chunks.{records, records_short, records_step, read_rec_append}
use osmpgsqlimport.Store.Merge.Slots.{max_ids}

-- A record whose words are 64-bit words and whose id does not wrap around.
abbrev pub IsRec : Rec → Type 0
IsRec r = (r.id < max_ids) × (r.lon_m < 2 ^ 64) × (r.lat_m < 2 ^ 64)

abbrev pub AllRec : List Rec → Type 0
AllRec [] = Unit {0}
AllRec (r ∷ rs) = IsRec r × AllRec rs

-- The bytes of a list of records.
unfoldable pub encode : List Rec → Bytes
encode [] = []
encode (r ∷ rs) = rec_bytes r ++ encode rs

pub encode-concat : (rs : List Rec) (r : Rec) → encode (rs ++ r ∷ []) ≡ encode rs ++ rec_bytes r
unfolding encode
encode-concat [] r = append-nil (rec_bytes r)
encode-concat (x ∷ rs) r = simp (encode-concat rs r, append_assoc)

pub AllRec-append : (rs ss : List Rec) → AllRec rs → AllRec ss → AllRec (rs ++ ss)
AllRec-append [] ss h k = k
AllRec-append (x ∷ rs) ss h k = (h.0, AllRec-append rs ss h.1 k)

length-rec_bytes : (r : Rec) → length (rec_bytes r) ≡ 24
unfolding rec_bytes
length-rec_bytes r = omega (
  arith,
  length-append (le_bytes 8 r.id) (le_bytes 8 r.lon_m ++ le_bytes 8 r.lat_m),
  length-append (le_bytes 8 r.lon_m) (le_bytes 8 r.lat_m),
  length-le_bytes,
)

take_le : (v : ℕ) (rest : Bytes) → take 8 (le_bytes 8 v ++ rest) ≡ le_bytes 8 v
take_le v rest = rw (length-le_bytes 8 v) at (take-length (le_bytes 8 v) rest)

drop_le : (v : ℕ) (rest : Bytes) → drop 8 (le_bytes 8 v ++ rest) ≡ rest
drop_le v rest = rw (length-le_bytes 8 v) at (drop-length (le_bytes 8 v) rest)

drop_nil : (n : ℕ) → drop {A = ℕ} n [] ≡ []
drop_nil zero = refl
drop_nil (suc n) = refl

drop-drop : (a b : ℕ) (xs : Bytes) → drop (a + b) xs ≡ drop b (drop a xs)
drop-drop zero b xs = ap (λ n. drop n xs) (omega arith)
drop-drop (suc a) b [] = drop_nil (suc a + b) ∙ sym (drop_nil b)
drop-drop (suc a) b (x ∷ xs) =
    ap (λ n. drop n (x ∷ xs)) (let e : suc a + b ≡ suc (a + b) = omega arith in e)
    ∙ drop-drop a b xs

word_back : (v : ℕ) (rest : Bytes) → v < 2 ^ 64 → from_le (take 8 (le_bytes 8 v ++ rest)) ≡ v
word_back v rest h = ap from_le (take_le v rest) ∙ from_le-le_bytes 8 v h

drop_sixteen : (a b : ℕ) (rest : Bytes) → drop 16 (le_bytes 8 a ++ (le_bytes 8 b ++ rest)) ≡ rest
drop_sixteen a b rest =
    drop-drop 8 8 (le_bytes 8 a ++ (le_bytes 8 b ++ rest))
    ∙ ap (drop 8) (drop_le a (le_bytes 8 b ++ rest))
    ∙ drop_le b rest

-- Reading back a record that was written gives the record.
pub read_rec-rec_bytes : (r : Rec) (rest : Bytes) → IsRec r → read_rec (rec_bytes r ++ rest) ≡ r
read_rec-rec_bytes r rest h =
    read_rec_append (rec_bytes r) rest (omega (arith, length-rec_bytes r)) ∙ whole
  where
    last : from_le (take 8 (le_bytes 8 r.lat_m)) ≡ r.lat_m
    last =
        ap (λ b. from_le (take 8 b)) (sym (append-nil (le_bytes 8 r.lat_m)))
        ∙ word_back r.lat_m [] h.2

    whole : read_rec (rec_bytes r) ≡ r
    whole =
        unfold read_rec rec_bytes in
        cc (
          word_back r.id (le_bytes 8 r.lon_m ++ le_bytes 8 r.lat_m) (omega arith),
          ap (λ b. from_le (take 8 b)) (drop_le r.id (le_bytes 8 r.lon_m ++ le_bytes 8 r.lat_m)),
          word_back r.lon_m (le_bytes 8 r.lat_m) h.1,
          ap (λ b. from_le (take 8 b)) (drop_sixteen r.id r.lon_m (le_bytes 8 r.lat_m)),
          last,
        )

module _ {ℓ} {S : Type ℓ} (write : S → Rec → S) where
  abbrev pub write_all : S → List Rec → S
  write_all m [] = m
  write_all m (r ∷ rs) = write_all (write m r) rs

  -- The merge loop takes every record out of a run of encoded records, in order.
  pub records-encode :
      (rs : List Rec) (m : S) → AllRec rs → records write m (encode rs) ≡ (write_all m rs, [])
  unfolding encode
  records-encode [] m h = records_short write m [] (omega arith)
  records-encode (r ∷ rs) m h =
      let size = length-rec_bytes r in
      records_step write m (rec_bytes r ++ encode rs)
        (omega (arith, length-append (rec_bytes r) (encode rs)))
      ∙ ap₂ (records write) (ap (write m) (read_rec-rec_bytes r (encode rs) h.0))
          (rw size at (drop-length (rec_bytes r) (encode rs)))
      ∙ records-encode rs (write m r) h.1
