-- ===== src/Status/Report.antt =====
-- The texts of `hr` and `formatDuration` of src/main.cpp, read back.
use osmpgsqlimport.Prelude.{
  ℕ, zero, suc, ◌+◌, ◌-◌, ◌*◌, ◌/◌, ◌%◌, ◌<◌, ◌≡◌, refl, sym, ap, ◌∙◌, inl, inr, true, [], ◌∷◌,
  ◌++◌, append_assoc, append-nil, ◌==◌, ltb, ltb→lt, ltb-false→le, if◌then◌else◌, Bool-cases, Bytes,
  arith,
}
use osmpgsqlimport.Replication.{decimal}
use osmpgsqlimport.Status.{to_string, dot, hr, pad2, colon, format_duration}

-- A digit is no separator.
decimal-append :
    (fuel n : ℕ) (digits rest : Bytes)
    → decimal fuel n digits ++ rest ≡ decimal fuel n (digits ++ rest)
unfolding decimal
decimal-append zero n digits rest = refl
decimal-append (suc fuel) n digits rest = elim (Bool-cases (ltb n 10)) [
  | inl e ↦ rw e refl
  | inr e ↦ rw e (decimal-append fuel (n / 10) ((48 + n % 10) ∷ digits) rest)
]

-- The number at the start of a text, by what follows it.
unfoldable pub number_then : Bytes → ℕ → (ℕ → Bytes → ℕ) → ℕ
number_then [] n k = k n []
number_then (c ∷ s) n k =
    if ltb c 48
    then k n (c ∷ s)
    else if ltb 57 c
    then k n (c ∷ s)
    else number_then s (n * 10 + (c - 48)) k

number_then-digit :
    (d : ℕ) (s : Bytes) (n : ℕ) (k : ℕ → Bytes → ℕ)
    → d < 10
    → number_then ((48 + d) ∷ s) n k ≡ number_then s (n * 10 + d) k
unfolding number_then
number_then-digit d s n k h = ground (arith, h)

number_then-decimal :
    (fuel n : ℕ) (digits : Bytes) (k : ℕ → Bytes → ℕ)
    → n < fuel
    → number_then (decimal fuel n digits) 0 k ≡ number_then digits n k
unfolding decimal
number_then-decimal zero n digits k h = elim h [ ]
number_then-decimal (suc fuel) n digits k h = elim (Bool-cases (ltb n 10)) [
  | inl e ↦ rw e (
      number_then-digit n digits 0 k (ltb→lt n 10 e)
      ∙ ap (λ m. number_then digits m k) (omega arith))
  | inr e ↦ rw e (
      number_then-decimal fuel (n / 10) ((48 + n % 10) ∷ digits) k
        (omega (arith, ltb-false→le n 10 e))
      ∙ number_then-digit (n % 10) digits (n / 10) k (omega arith)
      ∙ ap (λ m. number_then digits m k) (omega arith))
]

-- The seconds that a text of minutes and seconds, or of hours, minutes and seconds, stands for.
unfoldable clock : ℕ → ℕ → ℕ → Bytes → ℕ
clock zero acc n s = acc * 60 + n
clock (suc fuel) acc n [] = acc * 60 + n
clock (suc fuel) acc n (c ∷ s) = number_then s 0 (clock fuel (acc * 60 + n))

unfoldable read_clock : Bytes → ℕ
read_clock s = number_then s 0 (clock 3 0)

number_then-pad2 :
    (n : ℕ) (rest : Bytes) (k : ℕ → Bytes → ℕ)
    → n < 100
    → number_then (pad2 n ++ rest) 0 k ≡ number_then rest n k
unfolding pad2
number_then-pad2 n rest k h =
    number_then-digit (n / 10) ((48 + n % 10) ∷ rest) 0 k (omega arith)
    ∙ number_then-digit (n % 10) rest (0 * 10 + n / 10) k (omega arith)
    ∙ ap (λ m. number_then rest m k) (omega arith)

number_then-to_string :
    (n : ℕ) (rest : Bytes) (k : ℕ → Bytes → ℕ)
    → number_then (to_string n ++ rest) 0 k ≡ number_then rest n k
number_then-to_string n rest k =
    ap (λ s. number_then s 0 k) (decimal-append (n + 1) n [] rest)
    ∙ number_then-decimal (n + 1) n rest k (omega arith)

-- From a minute on, `formatDuration` writes a text that stands for the whole seconds.
format_duration-read_clock : (t : ℕ) → read_clock (format_duration t) ≡ t
unfolding format_duration read_clock clock number_then
format_duration-read_clock t = elim (Bool-cases (ltb 0 (t / 3600))) [
  | inl e ↦ rw e (
      ap (λ s. number_then s 0 (clock 3 0))
        (append_assoc (to_string (t / 3600)) (colon ∷ pad2 (t % 3600 / 60)) (colon ∷ pad2 (t % 60)))
      ∙ number_then-to_string (t / 3600) (colon ∷ pad2 (t % 3600 / 60) ++ colon ∷ pad2 (t % 60))
          (clock 3 0)
      ∙ number_then-pad2 (t % 3600 / 60) (colon ∷ pad2 (t % 60)) (clock 2 (0 * 60 + t / 3600))
          (omega arith)
      ∙ seconds (t % 60) 1 ((0 * 60 + t / 3600) * 60 + t % 3600 / 60) (omega arith)
      ∙ omega arith)
  | inr e ↦ rw e (
      number_then-to_string (t % 3600 / 60) (colon ∷ pad2 (t % 60)) (clock 3 0)
      ∙ seconds (t % 60) 2 (0 * 60 + t % 3600 / 60) (omega arith)
      ∙ omega (arith, ltb-false→le 0 (t / 3600) e))
]
  where
    seconds : (n fuel acc : ℕ) → n < 100 → number_then (pad2 n) 0 (clock fuel acc) ≡ acc * 60 + n
    seconds n fuel acc h =
        ap (λ s. number_then s 0 (clock fuel acc)) (sym (append-nil (pad2 n)))
        ∙ number_then-pad2 n [] (clock fuel acc) h
        ∙ ended fuel
      where
        ended : (f : ℕ) → clock f acc n [] ≡ acc * 60 + n
        ended zero = refl
        ended (suc f) = refl

-- The size of the unit of a text of `hr`.
unfoldable unit_size : Bytes → ℕ
unit_size [] = 1
unit_size (c ∷ s) = if c == 75 then 1000 else if c == 77 then 1000000 else 1000000000

unfoldable tenths : ℕ → Bytes → ℕ
tenths n [] = n
tenths n (c ∷ s) = number_then s 0 (λ m rest. (n * 10 + m) * (unit_size rest / 10))

-- The number that such a text stands for.
unfoldable read_hr : Bytes → ℕ
read_hr s = number_then s 0 tenths

-- How much `hr` cuts off: less than this.
unfoldable precision : ℕ → ℕ
precision n =
    if ltb n 1000
    then 1
    else if ltb n 1000000
    then 100
    else if ltb n 1000000000
    then 100000
    else 100000000

-- A number with one decimal place and a unit, which is a capital letter.
with_unit :
    (a d unit : ℕ)
    → ltb 57 unit ≡ true
    → number_then (to_string a ++ dot ∷ to_string d ++ unit ∷ []) 0 tenths
      ≡ (a * 10 + d) * (unit_size (unit ∷ []) / 10)
unfolding tenths number_then
with_unit a d unit h =
    ap (λ s. number_then s 0 tenths) (append_assoc (to_string a) (dot ∷ to_string d) (unit ∷ []))
    ∙ number_then-to_string a (dot ∷ to_string d ++ unit ∷ []) tenths
    ∙ number_then-to_string d (unit ∷ []) (λ m rest. (a * 10 + m) * (unit_size rest / 10))
    ∙ stops unit h
  where
    stops :
        (u : ℕ)
        → ltb 57 u ≡ true
        → number_then (u ∷ []) d (λ m rest. (a * 10 + m) * (unit_size rest / 10))
          ≡ (a * 10 + d) * (unit_size (u ∷ []) / 10)
    stops u e = elim (Bool-cases (ltb u 48)) [ inl f ↦ rw f refl | inr f ↦ rw (f, e) refl ]

-- `hr` writes a text that stands for the number, cut to a tenth of the unit.
hr-read_hr : (n : ℕ) → read_hr (hr n) ≡ n - n % precision n
unfolding read_hr hr precision unit_size number_then tenths
hr-read_hr n = elim (Bool-cases (ltb n 1000)) [
  | inl e ↦ rw e (plain n ∙ omega arith)
  | inr e ↦ elim (Bool-cases (ltb n 1000000)) [
    | inl f ↦ rw (e, f) (with_unit (n / 1000) (n % 1000 / 100) 75 refl ∙ omega arith)
    | inr f ↦ elim (Bool-cases (ltb n 1000000000)) [
      | inl g ↦ rw (e, f, g) (with_unit (n / 1000000) (n % 1000000 / 100000) 77 refl ∙ omega arith)
      | inr g ↦
          rw (e, f, g)
            (with_unit (n / 1000000000) (n % 1000000000 / 100000000) 66 refl ∙ omega arith)
    ]
  ]
]
  where
    plain : (m : ℕ) → number_then (to_string m) 0 tenths ≡ m
    plain m =
        ap (λ s. number_then s 0 tenths) (sym (append-nil (to_string m)))
        ∙ number_then-to_string m [] tenths
        ∙ done m
      where
        done : (k : ℕ) → number_then [] k tenths ≡ k
        done k = refl
