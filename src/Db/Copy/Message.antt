-- ===== src/Db/Copy/Message.antt =====
-- `tryCopyBatch` of src/NavDB.cpp finds the line number in the error text of PostgreSQL.
use osmpgsqlimport.Prelude.{
  ℕ, zero, suc, ◌+◌, ◌/◌, ◌%◌, ◌^◌, ◌<◌, ◌≡◌, refl, sym, ap, ◌∙◌, inl, inr, Bool, true, false, [],
  ◌∷◌, ◌++◌, ltb, ltb→lt, ltb-false→le, ◌==◌, if◌then◌else◌, Bool-cases, some, Bytes, codes, arith,
}
use osmpgsqlimport.Replication.{decimal}
use osmpgsqlimport.Db.Copy.{
  Line, is_digit, read_digits, is_space, unsigned, stoi, strip_prefix, find_after, error_line,
}

-- The text after a number: nothing, or one that does not begin with a digit.
pub data Follows : Bytes → Type 0 where
  nothing : Follows []
  other : {c : ℕ} {s : Bytes} → is_digit c ≡ false → Follows (c ∷ s)

read_digits-decimal :
    (fuel n : ℕ) (digits : Bytes)
    → n < fuel
    → read_digits 0 (decimal fuel n digits) ≡ read_digits n digits
unfolding read_digits decimal
read_digits-decimal zero n digits h = elim h [ ]
read_digits-decimal (suc fuel) n digits h = elim (Bool-cases (ltb n 10)) [
  | inl e ↦ rw (e, digit n (ltb→lt n 10 e)) (ap (λ m. read_digits m digits) (omega arith))
  | inr e ↦ rw e (
      read_digits-decimal fuel (n / 10) ((48 + n % 10) ∷ digits)
        (omega (arith, ltb-false→le n 10 e))
      ∙ rw (digit (n % 10) (omega arith)) (ap (λ m. read_digits m digits) (omega arith)))
]
  where
    digit : (d : ℕ) → d < 10 → is_digit (48 + d) ≡ true
    digit d lt = ground arith

-- The text of a number begins with a digit.
decimal-head :
    (fuel n : ℕ) (digits : Bytes)
    → n < fuel
    → (d : ℕ) × (s : Bytes) × (decimal fuel n digits ≡ d ∷ s) × (is_digit d ≡ true)
unfolding decimal
decimal-head zero n digits h = elim h [ ]
decimal-head (suc fuel) n digits h = elim (Bool-cases (ltb n 10)) [
  | inl e ↦ (48 + n, digits, rw e refl, ground arith)
  | inr e ↦
      let (d, s, q, g) =
        decimal-head fuel (n / 10) ((48 + n % 10) ∷ digits) (omega (arith, ltb-false→le n 10 e)) in
      (d, s, rw e q, g)
]

stoi-digit : (d : ℕ) (s : Bytes) → is_digit d ≡ true → stoi (d ∷ s) ≡ unsigned (d ∷ s)
unfolding stoi is_space
stoi-digit d s h = ground (arith, h)

unsigned-digit :
    (d : ℕ) (s : Bytes) (n : ℕ)
    → is_digit d ≡ true
    → read_digits 0 (d ∷ s) ≡ n
    → 0 < n
    → n < 2 ^ 31
    → unsigned (d ∷ s) ≡ Line.line n
unfolding unsigned
unsigned-digit d s n h e p q = ground (arith, h, e)

read_digits-Follows : (n : ℕ) (s : Bytes) → Follows s → read_digits n s ≡ n
unfolding read_digits
read_digits-Follows n [] f = refl
read_digits-Follows n (c ∷ s) (Follows.other e) = rw e refl

stoi-decimal :
    (n : ℕ) (rest : Bytes)
    → 0 < n
    → n < 2 ^ 31
    → Follows rest
    → stoi (decimal (n + 1) n rest) ≡ Line.line n
stoi-decimal n rest p q f =
    let (d, s, e, g) = decimal-head (n + 1) n rest (omega arith) in
    rw e (
      stoi-digit d s g
      ∙ unsigned-digit d s n g
          (ap (read_digits 0) (sym e)
            ∙ read_digits-decimal (n + 1) n rest (omega arith)
            ∙ read_digits-Follows n rest f)
          p q)

-- The error text of a COPY into a table, as PostgreSQL formats it.
abbrev pub copy_message : Bytes → ℕ → Bytes → Bytes
copy_message before n rest = before ++ codes ", line " ++ decimal (n + 1) n rest

-- No comma in a text: the pattern cannot begin in it.
unfoldable pub has_comma : Bytes → Bool
has_comma [] = false
has_comma (c ∷ s) = if c == 44 then true else has_comma s

find_after-before :
    (before rest : Bytes)
    → has_comma before ≡ false
    → find_after (codes ", line ") (before ++ codes ", line " ++ rest) ≡ some rest
unfolding find_after strip_prefix has_comma
find_after-before [] rest h = refl
find_after-before (c ∷ before) rest h =
    let differs : (44 == c) ≡ false = ground (arith, h) in
    rw (differs, find_after, strip_prefix) (find_after-before before rest (ground (arith, h)))

-- In an error text of PostgreSQL the code finds the line: the number in decimal after the first ", line ",
-- whatever follows it, if what stands before has no comma and the number fits an `int`.
pub error_line-copy_message :
    (before : Bytes) (n : ℕ) (rest : Bytes)
    → has_comma before ≡ false
    → 0 < n
    → n < 2 ^ 31
    → Follows rest
    → error_line (copy_message before n rest) ≡ some (Line.line n)
unfolding error_line
error_line-copy_message before n rest h p q f =
    rw (find_after-before before (decimal (n + 1) n rest) h, error_line)
      (ap some (stoi-decimal n rest p q f))
