-- ===== src/Status.antt =====
-- `Status` of src/main.cpp, the counters that the worker threads share and the log of the phases, with the
-- texts `hr` and `formatDuration` of the report.
pub mod Laws
pub mod Report
use osmpgsqlimport.Prelude.{
  ℕ, ◌+◌, ◌-◌, ◌/◌, ◌%◌, ◌^◌, Bool, true, false, not, ◌&&◌, List, [], ◌∷◌, ◌++◌, ◌==◌, ltb,
  if◌then◌else◌, Bytes, codes,
}
use osmpgsqlimport.Prelude.Word.{add64, sub64, is_neg}
use osmpgsqlimport.Prelude.Double.{Double}
use osmpgsqlimport.CommandLine.{Phase}
use osmpgsqlimport.Replication.{decimal}

-- `PhaseStats`
pub record PhaseStats : Type 0 where
  pub phase : Phase
  pub elapsed_sec : Double
  pub count : ℕ

pub data Counter : Type 0 where
  nodes areas ways relations : Counter

-- The counters with their running totals, by what they count. All numbers are int64 patterns. `progress` is
-- left out.
pub record Status : Type 0 where
  pub phase_log : List PhaseStats
  pub counts : Counter → ℕ
  pub totals : Counter → ℕ
  pub phase : Phase
  pub phase_start_us : ℕ
  pub phase_count_at_start : ℕ

-- The status at the start of `main`, which reads the clock.
unfoldable pub start_status : ℕ → Status
start_status now = record {
  phase_log = [];
  counts = λ _. 0;
  totals = λ _. 0;
  phase = Phase.nodes;
  phase_start_us = now;
  phase_count_at_start = 0;
}

unfoldable pub total : Status → ℕ
total s =
    add64 (add64 (add64 (s.counts Counter.nodes) (s.counts Counter.areas)) (s.counts Counter.ways))
      (s.counts Counter.relations)

abbrev pub counter_eq : Counter → Counter → Bool
counter_eq Counter.nodes Counter.nodes = true
counter_eq Counter.areas Counter.areas = true
counter_eq Counter.ways Counter.ways = true
counter_eq Counter.relations Counter.relations = true
counter_eq _ _ = false

abbrev pub bump : Counter → (Counter → ℕ) → Counter → ℕ
bump c f d = if counter_eq c d then add64 (f d) 1 else f d

-- The two `fetch_add(1)` of a worker thread.
unfoldable pub count_one : Counter → Status → Status
count_one c s = record s { counts = bump c s.counts; totals = bump c s.totals }

abbrev pub is_positive : ℕ → Bool
is_positive x = not (is_neg x) && not (x == 0)

-- The division by 1'000'000.0 is a parameter.
module _ (seconds : ℕ → Double) where
  -- `recordPhase`
  unfoldable pub record_phase : Phase → Double → ℕ → Status → Status
  record_phase p elapsed_sec count s = record s {
    phase_log = s.phase_log ++ record { phase = p; elapsed_sec = elapsed_sec; count = count } ∷ [];
  }

  -- `advancePhase`, at the clock's `now`.
  unfoldable pub advance_phase : Phase → Phase → ℕ → Status → Status
  advance_phase finishing next now s =
      let recorded =
        if is_positive s.phase_start_us
        then record_phase finishing (seconds (sub64 now s.phase_start_us))
            (sub64 (total s) s.phase_count_at_start) s
        else s in
      record recorded { phase_count_at_start = total s; phase_start_us = now; phase = next }

  -- What the threads do to the status.
  pub data Event : Type 0 where
    counted : Counter → Event
    advanced : Phase → Phase → ℕ → Event

  unfoldable pub run_events : List Event → Status → Status
  run_events [] s = s
  run_events (Event.counted c ∷ es) s = run_events es (count_one c s)
  run_events (Event.advanced finishing next now ∷ es) s =
      run_events es (advance_phase finishing next now s)

-- `std::to_string` of a number that is not negative.
abbrev pub to_string : ℕ → Bytes
to_string n = decimal (n + 1) n []

abbrev pub dot : ℕ
dot = 46

-- `hr`, for a number that is not negative.
unfoldable pub hr : ℕ → Bytes
hr n =
    if ltb n 1000
    then to_string n
    else if ltb n 1000000
    then to_string (n / 1000) ++ dot ∷ to_string (n % 1000 / 100) ++ codes "K"
    else if ltb n 1000000000
    then to_string (n / 1000000) ++ dot ∷ to_string (n % 1000000 / 100000) ++ codes "M"
    else to_string (n / 1000000000) ++ dot ∷ to_string (n % 1000000000 / 100000000) ++ codes "B"

-- `std::setw(2) << std::setfill('0') << n`, below 100.
unfoldable pub pad2 : ℕ → Bytes
pad2 n = (48 + n / 10) ∷ (48 + n % 10) ∷ []

abbrev pub colon : ℕ
colon = 58

-- `formatDuration` from a minute on, of the whole seconds.
unfoldable pub format_duration : ℕ → Bytes
format_duration total_sec =
    let h = total_sec / 3600 in
    let m = total_sec % 3600 / 60 in
    let s = total_sec % 60 in
    if ltb 0 h
    then to_string h ++ colon ∷ pad2 m ++ colon ∷ pad2 s
    else to_string m ++ colon ∷ pad2 s
