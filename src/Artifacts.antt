-- ===== src/Artifacts.antt =====
-- src/ptlab/artifacts.py and src/ptlab/transcript.py: the numbered records of a run, and its JUnit
-- report. The folder of a run is in Runs. What is written is the data, not its JSON or XML text.
pub mod Numbered
pub mod Counts
pub mod Runs
use pinetime_dev_tools.Prelude.{
  ℕ, zero, suc, ◌+◌, List, [], ◌∷◌, ◌++◌, length, Option, none, some, Bool, true, false, not,
  String, str_eq, if◌then◌else◌,
}
use pinetime_dev_tools.Prelude.Int.{ℤ}
use pinetime_dev_tools.Prelude.Result.{Result, ok, err}
use pinetime_dev_tools.Prelude.State.{Exec, pure, raise, ◌>>=◌, ◌>>◌}
use pinetime_dev_tools.Prelude.Texts.{Text}
use pinetime_dev_tools.Control.Response.{is_empty}
use pinetime_dev_tools.Hardware.{Outside}
use pinetime_dev_tools.Hardware.Adb.{splitlines}

-- A value of a record: a number, or any other JSON value by its text.
pub data Json : Type 0 where
  number : ℕ → Json
  text : String → Json
  other : Text → Json

abbrev pub Fields : Type 0
Fields = List (String × Json)

-- record[key]: the last entry with the key counts.
unfoldable pub get_field : String → Fields → Option Json
get_field key [] = none
get_field key ((k, v) ∷ rest) = elim (get_field key rest) [
  | some found ↦ some found
  | none ↦ if str_eq k key then some v else none
]

-- An EventWriter or a TranscriptWriter, with the records in its file and the world beside it. The
-- transcript's lock makes an `emit` one step.
pub record Writer (W : Type 0) : Type 0 where
  pub sequence : ℕ
  pub lines : List Fields
  pub world : W

module _ {W : Type 0} (utc_now : W → Json) (append : Fields → Exec W Outside (Unit {0})) where
  abbrev pub written :
      Fields → Result Outside (Unit {0}) → Writer W → Result Outside (Unit {0}) × Writer W
  written line (ok x) s = (ok tt, record s { lines = s.lines ++ line ∷ [] })
  written line (err e) s = (err e, s)

  -- The number is used up before the file is opened. A record that cannot be written is not in the
  -- file.
  abbrev pub emit_record : Fields → Exec (Writer W) Outside (Unit {0})
  emit_record fields s =
      let line = ("sequence", number s.sequence) ∷ ("timestamp", utc_now s.world) ∷ fields in
      let (r, w) = append line s.world in
      written line r (record s { sequence = suc s.sequence; world = w })

  -- EventWriter.emit(event, **fields)
  unfoldable pub emit_event : String → Fields → Exec (Writer W) Outside (Unit {0})
  emit_event event fields = emit_record (("event", text event) ∷ fields)

  -- TranscriptWriter.emit(channel, direction, kind, **fields)
  unfoldable pub emit_transcript :
      String → String → String → Fields → Exec (Writer W) Outside (Unit {0})
  emit_transcript channel direction kind fields =
      emit_record
        (("channel", text channel) ∷ ("direction", text direction) ∷ ("kind", text kind) ∷ fields)

-- What write_junit reads of an assertion: `message` and `detail` are those of a failure.
pub record Assertion : Type 0 where
  pub name : String
  pub is_passed : Bool
  pub message : Text
  pub detail : Text

pub data Verdict : Type 0 where
  passing : Verdict
  failure error : Text → Text → Verdict
  skip : Text → Verdict

pub record TestCase : Type 0 where
  pub name : String
  pub verdict : Verdict

pub record TestSuite : Type 0 where
  pub name : String
  pub tests : ℕ
  pub failures : ℕ
  pub errors : ℕ
  pub skipped : ℕ
  pub cases : List TestCase

-- sum(not bool(assertion["passed"]) for assertion in assertions)
unfoldable pub count_failures : List Assertion → ℕ
count_failures [] = 0
count_failures (a ∷ rest) = if a.is_passed then count_failures rest else suc (count_failures rest)

-- int(value is not None)
abbrev pub given_count : Option Text → ℕ
given_count none = 0
given_count (some t) = 1

abbrev pub case_of : Assertion → TestCase
case_of a = record {
  name = a.name;
  verdict = if a.is_passed then passing else failure a.message a.detail;
}

unfoldable pub cases_of : List Assertion → List TestCase
cases_of [] = []
cases_of (a ∷ rest) = case_of a ∷ cases_of rest

abbrev pub first_line : List Text → Option Text
first_line [] = none
first_line (line ∷ lines) = some line

abbrev pub error_cases_with : Text → Option Text → Option (List TestCase)
error_cases_with error_text none = none
error_cases_with error_text (some line) =
    some (record { name = "scenario"; verdict = error line error_text } ∷ [])

-- The case for `error`; `none` is the IndexError of a text without lines.
abbrev pub error_cases : Option Text → Option (List TestCase)
error_cases none = some []
error_cases (some error_text) = error_cases_with error_text (first_line (splitlines error_text))

abbrev pub skip_cases : Option Text → List TestCase
skip_cases none = []
skip_cases (some reason) = record { name = "scenario"; verdict = skip reason } ∷ []

abbrev pub suite_with :
    String → List Assertion → Option Text → Option Text → List TestCase → TestSuite
suite_with suite assertions error_text skip_reason error_case = record {
  name = suite;
  tests = length assertions + given_count error_text + given_count skip_reason;
  failures = count_failures assertions;
  errors = given_count error_text;
  skipped = given_count skip_reason;
  cases = cases_of assertions ++ (error_case ++ skip_cases skip_reason);
}

abbrev pub suite_or_none :
    String → List Assertion → Option Text → Option Text → Option (List TestCase) → Option TestSuite
suite_or_none suite assertions error_text skip_reason none = none
suite_or_none suite assertions error_text skip_reason (some cases) =
    some (suite_with suite assertions error_text skip_reason cases)

-- The tree that write_junit writes; `none` is its IndexError.
unfoldable pub junit_suite : String → List Assertion → Option Text → Option Text → Option TestSuite
unfolding count_failures cases_of
junit_suite suite assertions error_text skip_reason =
    suite_or_none suite assertions error_text skip_reason (error_cases error_text)
