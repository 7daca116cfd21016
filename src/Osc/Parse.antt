-- ===== src/Osc/Parse.antt =====
-- `OSCReader::parse` of src/OSCReader.cpp, the loop that feeds a file to expat in pieces.
pub mod Laws
use osmpgsqlimport.Prelude.{
  ℕ, zero, suc, ◌+◌, Bool, true, false, List, ◌++◌, ltb, length, take, drop, Option, none, some,
  String, Bytes,
}
use osmpgsqlimport.Prelude.Double.{Double}
use osmpgsqlimport.Osc.{ParseState, initial_state}
use osmpgsqlimport.Osc.Written.{XmlEvent, run_events}

-- `parse` returns, with `count` as the number of changes, or throws.
pub data ParsedFile : Type 0 where
  returned : ParseState → ParsedFile
  threw : ParsedFile

abbrev pub buf_size : ℕ
buf_size = 65536

-- `XML_Parse` is a parameter: from expat's state, a piece of the file and whether it is the last, the next state,
-- the calls of the handlers, and whether there was no error.
module _ {ℓ} {X : Type ℓ} (xml_parse : X → Bytes → Bool → X × List XmlEvent × Bool)
    (stoll : String → Option ℕ) (stod : String → Option Double) where
  -- After a call of `XML_Parse`. A handler can throw, and so does an error.
  unfoldable pub handled : X × List XmlEvent × Bool → ParseState → Option (X × ParseState)
  handled (x, events, fine) s = elim fine [
    | false ↦ none
    | true ↦ elim (run_events stoll stod events s) [ none ↦ none | some t ↦ some (x, t) ]
  ]

  -- The loop over the bytes that `fread` or `gzread` still give.
  unfoldable pub parse_chunks : ℕ → X → Bytes → ParseState → Option ParsedFile
  parse_chunks zero x file s = none
  parse_chunks (suc fuel) x file s =
      let done = ltb (length (take buf_size file)) buf_size in
      elim (handled (xml_parse x (take buf_size file) done) s) [
        | none ↦ some ParsedFile.threw
        | some (y, t) ↦ elim done [
          | true ↦ some (ParsedFile.returned t)
          | false ↦ parse_chunks fuel y (drop buf_size file) t
        ]
      ]

  -- `parse`, of a file that can be opened and read.
  unfoldable pub parse : X → Bytes → Option ParsedFile
  parse x file = parse_chunks (length file + 1) x file initial_state
