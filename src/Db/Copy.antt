-- ===== src/Db/Copy.antt =====
-- `tryCopyBatch` of src/NavDB.cpp: a batch of rows is copied again and again, each time less the row
-- that the error text of PostgreSQL names.
pub mod Laws
pub mod Message
use osmpgsqlimport.Prelude.{
  ℕ, zero, suc, ◌+◌, ◌-◌, ◌*◌, ◌^◌, ◌||◌, ◌&&◌, Bool, true, false, List, [], ◌∷◌, ◌++◌, take, drop,
  length, is_empty, ltb, leb, ◌==◌, if◌then◌else◌, Option, none, some, Bytes, codes,
}

-- `msg.find(pattern)`, as what follows the first occurrence.
unfoldable pub strip_prefix : Bytes → Bytes → Option Bytes
strip_prefix [] s = some s
strip_prefix (c ∷ p) [] = none
strip_prefix (c ∷ p) (d ∷ s) = if c == d then strip_prefix p s else none

unfoldable pub find_after : Bytes → Bytes → Option Bytes
find_after p [] = strip_prefix p []
find_after p (c ∷ s) = elim (strip_prefix p (c ∷ s)) [
  | some rest ↦ some rest
  | none ↦ find_after p s
]

abbrev pub is_digit : ℕ → Bool
is_digit c = leb 48 c && leb c 57

-- The digits that `std::stoi` reads, after those read already.
unfoldable pub read_digits : ℕ → Bytes → ℕ
read_digits n [] = n
read_digits n (c ∷ s) = if is_digit c then read_digits (n * 10 + (c - 48)) s else n

unfoldable pub is_space : ℕ → Bool
is_space c = (c == 32) || (leb 9 c && leb c 13)

-- What `std::stoi` gives: it throws without a digit or out of the range of `int`. A negative number and
-- zero are one case here, since `idx < 0` is all that the code asks of them.
pub data Line : Type 0 where
  throws not_positive : Line
  line : ℕ → Line

unfoldable pub unsigned : Bytes → Line
unsigned [] = Line.throws
unsigned (c ∷ s) =
    let n = read_digits 0 (c ∷ s) in
    if is_digit c
    then if leb (2 ^ 31) n then Line.throws else if n == 0 then Line.not_positive else Line.line n
    else Line.throws

unfoldable pub negative : Bytes → Line
negative [] = Line.throws
negative (c ∷ s) =
    if is_digit c
    then if ltb (2 ^ 31) (read_digits 0 (c ∷ s)) then Line.throws else Line.not_positive
    else Line.throws

unfoldable pub stoi : Bytes → Line
stoi [] = Line.throws
stoi (c ∷ s) =
    let rest = stoi s in
    if is_space c
    then rest
    else if c == 45
    then negative s
    else if c == 43
    then unsigned s
    else unsigned (c ∷ s)

-- The number after ", line " in the error text, `none` if that is not there.
unfoldable pub error_line : Bytes → Option Line
error_line msg = elim (find_after (codes ", line ") msg) [
  | none ↦ none
  | some rest ↦ some (stoi rest)
]

-- How the loop of `tryCopyBatch` ends: the rows left are copied, it gives up on them, or `std::stoi`
-- throws out of the handler.
pub data Copied {ℓ} (R : Type ℓ) : Type ℓ where
  written gave_up threw : List R → Copied R

-- `buf.erase(buf.begin() + i)`
abbrev pub erase_at {ℓ} : {R : Type ℓ} → ℕ → List R → List R
erase_at i buf = take i buf ++ drop (suc i) buf

module _ {ℓ} {R : Type ℓ} (copy : List R → Option Bytes) where
  -- `tryCopyBatch`. `copy` is one transaction that copies the rows, with the error text where it fails.
  -- Each round but the last takes a row away, so one more round than rows is enough fuel.
  unfoldable pub try_copy_batch : ℕ → List R → Copied R
  try_copy_batch zero buf = Copied.gave_up buf
  try_copy_batch (suc fuel) buf =
      let again = λ (n : ℕ). try_copy_batch fuel (erase_at (n - 1) buf) in
      if is_empty buf then Copied.gave_up buf else elim (copy buf) [
        | none ↦ Copied.written buf
        | some msg ↦ elim (error_line msg) [
          | none ↦ Copied.gave_up buf
          | some l ↦ elim l [
            | throws ↦ Copied.threw buf
            | not_positive ↦ Copied.gave_up buf
            | line n ↦ if ltb (n - 1) (length buf) then again n else Copied.gave_up buf
          ]
        ]
      ]

-- What the table gains.
abbrev pub rows_written {ℓ} : {R : Type ℓ} → Copied R → List R
rows_written (Copied.written buf) = buf
rows_written (Copied.gave_up buf) = []
rows_written (Copied.threw buf) = []

-- The count that the function returns: the rows left, also where it gives up on them.
abbrev pub rows_returned {ℓ} : {R : Type ℓ} → Copied R → ℕ
rows_returned (Copied.written buf) = length buf
rows_returned (Copied.gave_up buf) = length buf
rows_returned (Copied.threw buf) = 0
