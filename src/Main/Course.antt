-- ===== src/Main/Course.antt =====
-- The course of an import in src/main.cpp against the rules of a bulk load.
use osmpgsqlimport.Prelude.{◌≡◌, false}
use osmpgsqlimport.CommandLine.{Phase}
use osmpgsqlimport.Main.Rules.{Part, Database, may_have_rows}

-- What the resumed phase expects of the tables.
abbrev pub Fits : Phase → Database → Type 0
Fits phase d = (p : Part) → may_have_rows phase p ≡ false → d.has_rows p ≡ false
