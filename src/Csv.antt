-- ===== src/Csv.antt =====
-- `parseCsvLineAP` of src/AirportsLoader.cpp, the reader of a line of the OurAirports tables.
pub mod Laws
use osmpgsqlimport.Prelude.{ℕ, Bool, true, false, List, [], ◌∷◌, ◌++◌, ◌==◌, if◌then◌else◌, Bytes}

abbrev pub quote : ℕ
quote = 34

abbrev pub comma : ℕ
comma = 44

-- The loop. The arguments are `in_quotes`, `field` and the rest of the line.
unfoldable pub parse_from : Bool → Bytes → Bytes → List Bytes
parse_from in_quotes field [] = field ∷ []
parse_from true field (c ∷ []) =
    if c == quote then parse_from false field [] else parse_from true (field ++ c ∷ []) []
parse_from true field (c ∷ d ∷ line) =
    if c == quote
    then if d == quote
      then parse_from true (field ++ quote ∷ []) line
      else parse_from false field (d ∷ line)
    else parse_from true (field ++ c ∷ []) (d ∷ line)
parse_from false field (c ∷ line) =
    if c == quote
    then parse_from true field line
    else if c == comma
    then field ∷ parse_from false [] line
    else parse_from false (field ++ c ∷ []) line

-- `parseCsvLineAP`
unfoldable pub parse_csv_line : Bytes → List Bytes
parse_csv_line line = parse_from false [] line
