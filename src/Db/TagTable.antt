-- ===== src/Db/TagTable.antt =====
-- The tag tables of src/NavDB.cpp: the rows that the importer writes, and `diffTags`, which makes the
-- rows of an entity those of its new tags.
pub mod Rows
pub mod Laws
use osmpgsqlimport.Prelude.{
  ℕ, ◌&&◌, Bool, true, false, List, [], ◌∷◌, ◌++◌, ◌==◌, if◌then◌else◌, Option, none, some, String,
  str_eq,
}
use osmpgsqlimport.Tags.{Tags, lookup, insert, erase}

-- `TagRecord`, and a row of a tag table.
pub record TagRecord : Type 0 where
  pub id : ℕ
  pub key : String
  pub value : String

-- `WHERE id=$1 AND key_name=$2`
abbrev pub is_row : ℕ → String → TagRecord → Bool
is_row i k r = (r.id == i) && str_eq r.key k

-- `SELECT key_name, key_value … WHERE id=$1`, into the map `existing`: a later row of a key wins.
unfoldable pub load : ℕ → List TagRecord → Tags → Tags
load i [] existing = existing
load i (r ∷ rows) existing =
    load i rows (if r.id == i then insert r.key r.value existing else existing)

-- `INSERT INTO`, `UPDATE … SET key_value=$3` and `DELETE FROM` a tag table.
abbrev pub sql_insert : ℕ → String → String → List TagRecord → List TagRecord
sql_insert i k v rows = rows ++ (record { id = i; key = k; value = v }) ∷ []

unfoldable pub sql_update : ℕ → String → String → List TagRecord → List TagRecord
sql_update i k v [] = []
sql_update i k v (r ∷ rows) =
    (if is_row i k r then record r { value = v } else r) ∷ sql_update i k v rows

unfoldable pub sql_delete : ℕ → String → List TagRecord → List TagRecord
sql_delete i k [] = []
sql_delete i k (r ∷ rows) = if is_row i k r then sql_delete i k rows else r ∷ sql_delete i k rows

-- What a new tag does to the table.
unfoldable pub put_tag : ℕ → String → String → Option String → List TagRecord → List TagRecord
put_tag i k v none rows = sql_insert i k v rows
put_tag i k v (some w) rows = if str_eq w v then rows else sql_update i k v rows

-- The loop over the new tags: the table, and what is left of `existing`.
unfoldable pub put_tags : ℕ → Tags → Tags → List TagRecord → List TagRecord × Tags
put_tags i [] existing rows = (rows, existing)
put_tags i ((k, v) ∷ tags) existing rows =
    put_tags i tags (erase k existing) (put_tag i k v (lookup k existing) rows)

-- The loop that deletes the keys that are left.
unfoldable pub delete_keys : ℕ → Tags → List TagRecord → List TagRecord
delete_keys i [] rows = rows
delete_keys i ((k, v) ∷ existing) rows = delete_keys i existing (sql_delete i k rows)

-- `diffTags`
unfoldable pub diff_tags : ℕ → Tags → List TagRecord → List TagRecord
diff_tags i tags rows =
    let (rows', existing) = put_tags i tags (load i rows []) rows in delete_keys i existing rows'
