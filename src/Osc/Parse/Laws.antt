-- ===== src/Osc/Parse/Laws.antt =====
-- The pieces in which `OSCReader::parse` of src/OSCReader.cpp reads a file do not matter.
use osmpgsqlimport.Prelude.{
  ℕ, zero, suc, ◌+◌, ◌<◌, ◌≡◌, refl, sym, ap, ◌∙◌, inl, inr, Bool, true, false, List, [], ◌∷◌, ◌++◌,
  ltb, ltb→lt, ltb-false→le, length, take, drop, take-append-drop, length-drop, length-take,
  Bool-cases, Option-cases, Option, none, some, String, Bytes, arith,
}
use osmpgsqlimport.Prelude.Double.{Double}
use osmpgsqlimport.Osc.{ParseState, initial_state, start_element, end_element}
use osmpgsqlimport.Osc.Written.{XmlEvent, run_events}
use osmpgsqlimport.Osc.Parse.{ParsedFile, buf_size, handled, parse_chunks, parse}

run_events-append :
    (stoll : String → Option ℕ) (stod : String → Option Double) (es fs : List XmlEvent)
    (s : ParseState)
    → run_events stoll stod (es ++ fs) s
      ≡ elim (run_events stoll stod es s) [ none ↦ none | some t ↦ run_events stoll stod fs t ]
unfolding run_events
run_events-append stoll stod [] fs s = refl
run_events-append stoll stod (XmlEvent.start name attrs ∷ es) fs s =
    elim (Option-cases (start_element stoll stod name attrs s)) [
      | inl e ↦ rw (e, run_events) refl
      | inr (t, e) ↦ rw (e, run_events) (run_events-append stoll stod es fs t)
    ]
run_events-append stoll stod (XmlEvent.end name ∷ es) fs s =
    run_events-append stoll stod es fs (end_element name s)

take_short {ℓ} : {A : Type ℓ} (n : ℕ) (xs : List A) → length (take n xs) < n → take n xs ≡ xs
take_short zero xs h = elim h [ ]
take_short (suc n) [] h = refl
take_short (suc n) (x ∷ xs) h = ap (λ ys. x ∷ ys) (take_short n xs (omega (arith, h)))

module _ {ℓ} {X : Type ℓ} (xml_parse : X → Bytes → Bool → X × List XmlEvent × Bool)
    (stoll : String → Option ℕ) (stod : String → Option Double) where
  abbrev joined :
      X × List XmlEvent × Bool → (X → X × List XmlEvent × Bool) → X × List XmlEvent × Bool
  joined (y, es, false) k = (y, es, false)
  joined (y, es, true) k = let (z, fs, fine) = k y in (z, es ++ fs, fine)

  -- expat takes a document in pieces: the last piece after the ones before it does what the whole does.
  abbrev pub IsIncremental : Type ℓ
  IsIncremental =
      (x : X) (a b : Bytes)
      → xml_parse x (a ++ b) true ≡ joined (xml_parse x a false) (λ y. xml_parse y b true)

  -- What comes of one call of `XML_Parse`.
  abbrev pub outcome : Option (X × ParseState) → ParsedFile
  outcome none = ParsedFile.threw
  outcome (some (y, t)) = ParsedFile.returned t

  handled-joined :
      (m : X × List XmlEvent × Bool) (k : X → X × List XmlEvent × Bool) (s : ParseState)
      → handled xml_parse stoll stod (joined m k) s ≡ elim (handled xml_parse stoll stod m s) [
        | none ↦ none
        | some (y, t) ↦ handled xml_parse stoll stod (k y) t
      ]
  unfolding handled
  handled-joined (y, es, false) k s = refl
  handled-joined (y, es, true) k s = both (k y) refl
    where
      both :
          (m : X × List XmlEvent × Bool)
          → k y ≡ m
          → handled xml_parse stoll stod (m.0, es ++ m.1, m.2) s
            ≡ elim (handled xml_parse stoll stod (y, es, true) s) [
              | none ↦ none
              | some (w, t) ↦ handled xml_parse stoll stod (k w) t
            ]
      both (z, fs, false) q = elim (Option-cases (run_events stoll stod es s)) [
        | inl e ↦ rw e refl
        | inr (t, e) ↦ rw (e, q, handled) refl
      ]
      both (z, fs, true) q = elim (Option-cases (run_events stoll stod es s)) [
        | inl e ↦ rw (run_events-append stoll stod es fs s, e, handled) refl
        | inr (t, e) ↦
            rw (run_events-append stoll stod es fs s, e, handled)
              (ap (λ m. handled xml_parse stoll stod m t) (sym q))
      ]

  parse_chunks-whole :
      (fuel : ℕ) (x : X) (file : Bytes) (s : ParseState)
      → IsIncremental
      → length file < fuel
      → parse_chunks xml_parse stoll stod fuel x file s
        ≡ some (outcome (handled xml_parse stoll stod (xml_parse x file true) s))
  unfolding parse_chunks
  parse_chunks-whole zero x file s inc h = elim h [ ]
  parse_chunks-whole (suc fuel) x file s inc h =
      elim (Bool-cases (ltb (length (take buf_size file)) buf_size)) [
        | inl e ↦
            let short =
              take_short buf_size file (ltb→lt (length (take buf_size file)) buf_size e) in
            let same = ap (λ f. handled xml_parse stoll stod (xml_parse x f true) s) short in
            elim (Option-cases (handled xml_parse stoll stod (xml_parse x file true) s)) [
              | inl n ↦ rw (e, same ∙ n, n, parse_chunks) refl
              | inr (_, n) ↦ rw (e, same ∙ n, n, e, parse_chunks) refl
            ]
        | inr e ↦
            let split =
              ap (λ f. handled xml_parse stoll stod (xml_parse x f true) s)
                (sym (take-append-drop buf_size file))
              ∙ ap (λ m. handled xml_parse stoll stod m s)
                  (inc x (take buf_size file) (drop buf_size file))
              ∙ handled-joined (xml_parse x (take buf_size file) false)
                  (λ y. xml_parse y (drop buf_size file) true) s in
            elim (Option-cases
              (handled xml_parse stoll stod (xml_parse x (take buf_size file) false) s)) [
                | inl n ↦ rw (e, split, n, parse_chunks) refl
                | inr ((y, t), n) ↦
                    rw (e, split, n, e, parse_chunks)
                      (parse_chunks-whole fuel y (drop buf_size file) t inc (
                        omega (
                          arith,
                          h,
                          length-drop buf_size file,
                          length-take buf_size file,
                          ltb-false→le (length (take buf_size file)) buf_size e,
                        )))
              ]
      ]

  -- `parse` of any file comes to an end, and does what it would if one call of `XML_Parse` were given the whole
  -- file: it throws where that call fails or one of the handlers throws, and else returns with the same changes.
  -- expat takes a document in pieces.
  pub parse-whole :
      (x : X) (file : Bytes)
      → IsIncremental
      → parse xml_parse stoll stod x file
        ≡ some (outcome (handled xml_parse stoll stod (xml_parse x file true) initial_state))
  unfolding parse
  parse-whole x file inc =
      parse_chunks-whole (length file + 1) x file initial_state inc (omega arith)
