-- ===== src/Csv/Laws.antt =====
-- `parseCsvLineAP` of src/AirportsLoader.cpp reads what a CSV writer writes.
use osmpgsqlimport.Prelude.{
  ℕ, ◌≡◌, refl, sym, ap, ◌∙◌, inl, inr, Bool, true, false, ◌||◌, List, [], ◌∷◌, ◌++◌, append-nil,
  append_assoc, ◌==◌, if◌then◌else◌, Bool-cases, ==_iff, map, Bytes, arith,
}
use osmpgsqlimport.Csv.{quote, comma, parse_from, parse_csv_line}

-- A writer by RFC 4180: a quoted field doubles its quotes, a field without quotes and commas can stand
-- as it is.
unfoldable pub escaped : Bytes → Bytes
escaped [] = []
escaped (c ∷ s) = if c == quote then quote ∷ quote ∷ escaped s else c ∷ escaped s

unfoldable pub is_plain : Bytes → Bool
is_plain [] = true
is_plain (c ∷ s) = if c == quote || c == comma then false else is_plain s

pub data Field : Type 0 where
  quoted : Bytes → Field
  plain : (s : Bytes) → is_plain s ≡ true → Field

abbrev pub text : Field → Bytes
text (Field.quoted s) = s
text (Field.plain s h) = s

unfoldable pub field_text : Field → Bytes
field_text (Field.quoted s) = quote ∷ escaped s ++ quote ∷ []
field_text (Field.plain s h) = s

unfoldable pub csv_line : Field → List Field → Bytes
csv_line f [] = field_text f
csv_line f (g ∷ fs) = field_text f ++ comma ∷ csv_line g fs

-- The closing quote is not followed by another.
pub data Ends : Bytes → Type 0 where
  at_end : Ends []
  at_comma : {s : Bytes} → Ends (comma ∷ s)

quoted_step :
    (c : ℕ) (acc line : Bytes)
    → (c == quote) ≡ false
    → parse_from true acc (c ∷ line) ≡ parse_from true (acc ++ c ∷ []) line
unfolding parse_from
quoted_step c acc [] q = rw q refl
quoted_step c acc (d ∷ line) q = rw q refl

parse-escaped :
    (s acc rest : Bytes)
    → Ends rest
    → parse_from true acc (escaped s ++ quote ∷ rest) ≡ parse_from false (acc ++ s) rest
unfolding parse_from escaped
parse-escaped [] acc [] e = ap (λ a. a ∷ []) (sym (append-nil acc))
parse-escaped [] acc (c ∷ rest) Ends.at_comma =
    ap (λ a. a ∷ parse_from false [] rest) (sym (append-nil acc))
parse-escaped (c ∷ s) acc rest e = elim (Bool-cases (c == quote)) [
  | inl q ↦ rw q (
      parse-escaped s (acc ++ quote ∷ []) rest e
      ∙ ap (λ a. parse_from false a rest)
          (append_assoc acc (quote ∷ []) s ∙ ap (λ x. acc ++ x ∷ s) (sym ((==_iff c quote).0 q))))
  | inr q ↦ rw q (
      quoted_step c acc (escaped s ++ quote ∷ rest) q
      ∙ parse-escaped s (acc ++ c ∷ []) rest e
      ∙ ap (λ a. parse_from false a rest) (append_assoc acc (c ∷ []) s))
]

parse-plain :
    (s acc rest : Bytes)
    → is_plain s ≡ true
    → parse_from false acc (s ++ rest) ≡ parse_from false (acc ++ s) rest
unfolding parse_from is_plain
parse-plain [] acc rest h = ap (λ a. parse_from false a rest) (sym (append-nil acc))
parse-plain (c ∷ s) acc rest h =
    rw (head.0, head.1)
      (parse-plain s (acc ++ c ∷ []) rest (ground (arith, h))
        ∙ ap (λ a. parse_from false a rest) (append_assoc acc (c ∷ []) s))
  where
    head : ((c == quote) ≡ false) × ((c == comma) ≡ false)
    head = ground (arith, h)

parse-field :
    (f : Field) (rest : Bytes)
    → Ends rest
    → parse_csv_line (field_text f ++ rest) ≡ parse_from false (text f) rest
unfolding parse_csv_line field_text
parse-field (Field.quoted s) rest e =
    unfold parse_from in
    ap (parse_from true []) (append_assoc (escaped s) (quote ∷ []) rest) ∙ parse-escaped s [] rest e
parse-field (Field.plain s h) rest e = parse-plain s [] rest h

-- Reading a line that a CSV writer wrote gives the fields' texts back, with their quotes and commas,
-- however the writer chose among the fields that need no quotes.
pub parse_csv_line-csv_line :
    (f : Field) (fs : List Field) → parse_csv_line (csv_line f fs) ≡ text f ∷ map text fs
unfolding csv_line parse_from parse_csv_line
parse_csv_line-csv_line f [] =
    ap parse_csv_line (sym (append-nil (field_text f))) ∙ parse-field f [] Ends.at_end
parse_csv_line-csv_line f (g ∷ fs) =
    parse-field f (comma ∷ csv_line g fs) Ends.at_comma
    ∙ ap (◌∷◌ (text f)) (parse_csv_line-csv_line g fs)
