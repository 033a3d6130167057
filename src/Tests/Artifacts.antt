-- ===== src/Tests/Artifacts.antt =====
-- Records, a report and a folder of src/ptlab/artifacts.py, where nothing fails.
use pinetime_dev_tools.Prelude.{ℕ, suc, List, [], ◌∷◌, none, some, true, false, ◌≡◌, refl, leb}
use pinetime_dev_tools.Prelude.Int.{pos}
use pinetime_dev_tools.Prelude.Result.{ok}
use pinetime_dev_tools.Prelude.Texts.{codes}
use pinetime_dev_tools.Hardware.Adb.{lines_from}
use pinetime_dev_tools.Workspace.{Workspace}
use pinetime_dev_tools.Artifacts.{
  number, text, Writer, get_field, emit_event, Assertion, passing, failure, error, TestSuite,
  junit_suite,
}
use pinetime_dev_tools.Artifacts.Numbered.{
  Emission, event, message, emit_all, Consecutive, emit_all-Consecutive,
}
use pinetime_dev_tools.Artifacts.Counts.{IsCounted, junit_suite-IsCounted}
use pinetime_dev_tools.Artifacts.Runs.{Host, run_paths, create_run_skeleton}
use pinetime_dev_tools.Artifacts.Runs.Skeleton.{Created, create_run_skeleton-Created}

abbrev emissions : List Emission
emissions =
    event "run.created" (("run_id", text "r1") ∷ [])
    ∷ message "gatt" "tx" "frame" (("length", number 8) ∷ [])
    ∷ []

emit_all-Consecutive_example :
    Consecutive 0
      (emit_all
        (λ w. number w)
        (λ line w. (ok tt, w))
        emissions
        (record { sequence = 0; lines = []; world = 7 })).lines
      2
unfolding get_field
emit_all-Consecutive_example =
    emit_all-Consecutive (λ w. number w) (λ line w. (ok tt, w)) emissions 7 (λ line w. refl)
      (refl, (refl, tt))

abbrev made : List Assertion
made =
    record { name = "bonded"; is_passed = true; message = []; detail = [] }
    ∷ record { name = "evicted"; is_passed = false; message = codes "expected 1"; detail = [] }
    ∷ []

abbrev report : TestSuite
report = record {
  name = "bond";
  tests = 3;
  failures = 1;
  errors = 1;
  skipped = 0;
  cases =
      record { name = "bonded"; verdict = passing }
      ∷ record { name = "evicted"; verdict = failure (codes "expected 1") [] }
      ∷ record {
        name = "scenario";
        verdict = error (codes "Traceback") (codes "Traceback\nKeyError");
      }
      ∷ [];
}

report_run : junit_suite "bond" made (some (codes "Traceback\nKeyError")) none ≡ some report
unfolding junit_suite lines_from
report_run = refl

junit_suite-IsCounted_example : IsCounted report
junit_suite-IsCounted_example =
    junit_suite-IsCounted "bond" made (some (codes "Traceback\nKeyError")) none report report_run

abbrev host : Host ℕ
host = record {
  mkdir = λ path w. (ok tt, w);
  chmod = λ path w. (ok tt, w);
  touch = λ path w. (ok tt, w);
  fresh_name = λ w. ("r1", w);
  port_allocator = λ w. (ok (pos w), suc w);
  is_active = λ n w. (leb n 99, w);
  git_head = λ path w. (ok (codes "abc"), w);
  git_status = λ path w. (ok [], w);
  utc_now = λ w. number w;
  append = λ line w. (ok tt, w);
  write_result = λ result w. (ok tt, w);
}

abbrev workspace : Workspace
workspace = record { root = "home" ∷ [] }

abbrev writer : Writer ℕ
writer = record { sequence = 0; lines = []; world = 18000 }

skeleton_run : create_run_skeleton host 2 workspace ("runs" ∷ []) writer ≡ (
  ok (run_paths ("runs" ∷ "r1" ∷ [])),
  (create_run_skeleton host 2 workspace ("runs" ∷ []) writer).1,
)
unfolding create_run_skeleton emit_event
skeleton_run = refl

create_run_skeleton-Created_example :
    Created host workspace ("runs" ∷ []) (run_paths ("runs" ∷ "r1" ∷ [])) writer.world
create_run_skeleton-Created_example =
    create_run_skeleton-Created host 2 workspace ("runs" ∷ []) (run_paths ("runs" ∷ "r1" ∷ []))
      writer (create_run_skeleton host 2 workspace ("runs" ∷ []) writer).1 skeleton_run
