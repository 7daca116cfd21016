-- ===== src/Pbf/Laws.antt =====
-- Blocks of src/OSMReader.cpp: the running sums undo the deltas of the format, and the two ways to store
-- nodes give the same nodes.
use osmpgsqlimport.Prelude.{
  ℕ, ◌^◌, ◌<◌, ◌≡◌, refl, ap, false, List, [], ◌∷◌, ◌++◌, ◌==◌, get_elem?, Option, none, some,
  String, arith,
}
use osmpgsqlimport.Prelude.Word.{sub64, sub64-add64}
use osmpgsqlimport.Prelude.Double.{Double}
use osmpgsqlimport.Tags.{Tags, insert}
use osmpgsqlimport.Delta.{NodeEntry}
use osmpgsqlimport.Pbf.{
  DenseNodes, PbfNode, ◌>>=◌, running_sums, name_of, get_tags_from, get_tags, dense_tags,
  dense_nodes, parse_dense, parse_node, parse_nodes,
}

-- The deltas that a writer of the format stores.
unfoldable pub deltas : ℕ → List ℕ → List ℕ
deltas prev [] = []
deltas prev (x ∷ xs) = sub64 x prev ∷ deltas x xs

pub data AllWords : List ℕ → Type 0 where
  nil : AllWords []
  cons : {x : ℕ} {xs : List ℕ} → x < 2 ^ 64 → AllWords xs → AllWords (x ∷ xs)

sums_from :
    (prev : ℕ) (xs : List ℕ) → prev < 2 ^ 64 → AllWords xs → running_sums prev (deltas prev xs) ≡ xs
unfolding running_sums deltas
sums_from prev [] p h = refl
sums_from prev (x ∷ xs) p (AllWords.cons b h) =
    rw (sub64-add64 x prev b p) (ap (◌∷◌ x) (sums_from x xs b h))

-- The node references of a way are those that were written as deltas, whatever their signs: the sums
-- wrap around as the differences did.
pub running_sums-deltas : (xs : List ℕ) → AllWords xs → running_sums 0 (deltas 0 xs) ≡ xs
running_sums-deltas xs h = sums_from 0 xs (omega arith) h

-- Keys and values in pairs, with no key 0, which is the delimiter.
pub data IsPairs : List ℕ → List ℕ → Type 0 where
  nil : IsPairs [] []
  cons : {k v : ℕ} {ks vs : List ℕ} → (k == 0) ≡ false → IsPairs ks vs → IsPairs (k ∷ ks) (v ∷ vs)

unfoldable pub interleave : List ℕ → List ℕ → List ℕ
interleave [] vs = []
interleave (k ∷ ks) [] = []
interleave (k ∷ ks) (v ∷ vs) = k ∷ v ∷ interleave ks vs

-- The dense form of some nodes.
unfoldable pub stream : List PbfNode → List ℕ
stream [] = []
stream (n ∷ ns) = interleave n.keys n.vals ++ 0 ∷ stream ns

unfoldable pub column : (PbfNode → ℕ) → List PbfNode → List ℕ
column f [] = []
column f (n ∷ ns) = f n ∷ column f ns

unfoldable pub to_dense : List PbfNode → DenseNodes
to_dense ns = record {
  ids = deltas 0 (column (λ n. n.id) ns);
  lats = deltas 0 (column (λ n. n.lat) ns);
  lons = deltas 0 (column (λ n. n.lon) ns);
  keys_vals = stream ns;
}

pub data AreNodes : List PbfNode → Type 0 where
  nil : AreNodes []
  cons :
      {n : PbfNode} {ns : List PbfNode}
      → n.id < 2 ^ 64
      → n.lat < 2 ^ 64
      → n.lon < 2 ^ 64
      → IsPairs n.keys n.vals
      → AreNodes ns
      → AreNodes (n ∷ ns)

module _ (strtable : List String) where
  dense_tags-stream :
      (tags : Tags) (ks vs rest : List ℕ)
      → IsPairs ks vs
      → dense_tags strtable tags (interleave ks vs ++ 0 ∷ rest)
        ≡ (get_tags_from strtable tags ks vs >>= λ t. some (t, rest))
  unfolding dense_tags interleave get_tags_from
  dense_tags-stream tags [] [] [] IsPairs.nil = refl
  dense_tags-stream tags [] [] (x ∷ rest) IsPairs.nil = refl
  dense_tags-stream tags [] (v ∷ vs) rest h = elim h [ ]
  dense_tags-stream tags (k ∷ ks) [] rest h = elim h [ ]
  dense_tags-stream tags (k ∷ ks) (v ∷ vs) rest (IsPairs.cons nz h) =
      rw nz
        (on (λ t. dense_tags-stream t ks vs rest h) (get_elem? strtable k) (get_elem? strtable v))
    where
      on :
          ((t : Tags)
            → dense_tags strtable t (interleave ks vs ++ 0 ∷ rest)
              ≡ (get_tags_from strtable t ks vs >>= λ u. some (u, rest)))
          → (a b : Option String)
          → (a >>= λ key. b >>= λ value.
              dense_tags strtable (insert key value tags) (interleave ks vs ++ 0 ∷ rest))
            ≡ ((a >>= λ key. b >>= λ value. get_tags_from strtable (insert key value tags) ks vs)
                >>= λ u. some (u, rest))
      on ih none b = refl
      on ih (some key) none = refl
      on ih (some key) (some value) = ih (insert key value tags)

  module _ (lat_of lon_of : ℕ → Double) where
    dense_nodes-stream :
        (id lat lon : ℕ) (ns : List PbfNode)
        → id < 2 ^ 64
        → lat < 2 ^ 64
        → lon < 2 ^ 64
        → AreNodes ns
        → dense_nodes strtable lat_of lon_of id lat lon
            (deltas id (column (λ n. n.id) ns))
            (deltas lat (column (λ n. n.lat) ns))
            (deltas lon (column (λ n. n.lon) ns))
            (stream ns)
          ≡ parse_nodes strtable lat_of lon_of ns
    unfolding dense_nodes deltas column stream parse_nodes parse_node get_tags
    dense_nodes-stream id lat lon [] hi ha ho h = refl
    dense_nodes-stream id lat lon (n ∷ ns) hi ha ho (AreNodes.cons bi ba bo pairs h) =
        rw
          (
            sub64-add64 n.id id bi hi,
            sub64-add64 n.lat lat ba ha,
            sub64-add64 n.lon lon bo ho,
            dense_tags-stream [] n.keys n.vals (stream ns) pairs,
          )
          (on
            (dense_nodes strtable lat_of lon_of n.id n.lat n.lon
              (deltas n.id (column (λ m. m.id) ns)) (deltas n.lat (column (λ m. m.lat) ns))
              (deltas n.lon (column (λ m. m.lon) ns)))
            (parse_nodes strtable lat_of lon_of ns)
            (dense_nodes-stream n.id n.lat n.lon ns bi ba bo h)
            (get_tags_from strtable [] n.keys n.vals))
      where
        entry : Tags → NodeEntry
        entry t = record {
          id = n.id;
          name = name_of t;
          lon = lon_of n.lon;
          lat = lat_of n.lat;
          tags = t;
        }

        with_rest : Tags → Option (Tags × List ℕ)
        with_rest t = some (t, stream ns)

        on :
            (f : List ℕ → Option (List NodeEntry)) (p : Option (List NodeEntry))
            → f (stream ns) ≡ p
            → (o : Option Tags)
            → ((o >>= with_rest) >>= λ x. f x.1 >>= λ rest. some (entry x.0 ∷ rest))
              ≡ ((o >>= λ t. some (entry t)) >>= λ node. p >>= λ rest. some (node ∷ rest))
        on f p e none = refl
        on f p e (some t) = ap (λ r. r >>= λ rest. some (entry t ∷ rest)) e

    -- The dense form of nodes, with ids and coordinates as deltas and all tags in one array, is read as
    -- the same nodes, or the same failure, as the plain form.
    pub parse_dense-to_dense :
        (ns : List PbfNode)
        → AreNodes ns
        → parse_dense strtable lat_of lon_of (to_dense ns) ≡ parse_nodes strtable lat_of lon_of ns
    unfolding parse_dense to_dense
    parse_dense-to_dense ns h =
        dense_nodes-stream 0 0 0 ns (omega arith) (omega arith) (omega arith) h
