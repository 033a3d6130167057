-- ===== src/Tests/Scenario.antt =====
-- A scenario of src/ptlab/scenario.py with two checks, one of which does not hold.
use pinetime_dev_tools.Prelude.{ℕ, [], ◌∷◌, none, some, true, false, ◌≡◌, refl}
use pinetime_dev_tools.Prelude.Int.{pos}
use pinetime_dev_tools.Prelude.Result.{ok}
use pinetime_dev_tools.Prelude.State.{Exec, ◌>>◌}
use pinetime_dev_tools.Scenario.{
  failed, assertion_error, Raised, run_started, simulator_started, assertion_made, scenario_failure,
  simulator_stopped, run_finished, Context, RunResult, Services, check, require, ScenarioDefinition,
  count_failed, scenario_deadline, run_body, finish, run_scenario,
}
use pinetime_dev_tools.Scenario.Reported.{Reported, run_scenario-Reported}

abbrev services : Services ℕ
services = record {
  start = λ headless w. (ok tt, w);
  close_control = λ w. w;
  stop = λ w. (ok true, w);
  copy_persistence = λ w. (ok tt, w);
  write_junit = λ r made w. (ok tt, w);
  write_result = λ r w. (ok tt, w);
  set_alarm = λ t w. w;
  restore_alarm = λ w. w;
}

two_checks : Exec (Context ℕ) Raised (Unit {0})
unfolding check require
two_checks = do check true "battery"; require false "status"

abbrev battery_scenario : ScenarioDefinition ℕ
battery_scenario = record { function = two_checks; timeout = pos 60; headless = true }

abbrev battery_report : RunResult
battery_report = record {
  status = failed;
  error = some (assertion_error "status");
  check_count = 2;
  failure_count = 1;
}

abbrev battery_context : Context ℕ
battery_context = record {
  world = 7;
  assertions =
      record { name = "battery"; is_passed = true }
      ∷ record { name = "status"; is_passed = false }
      ∷ [];
  events =
      run_started
      ∷ simulator_started
      ∷ assertion_made "battery" true
      ∷ assertion_made "status" false
      ∷ scenario_failure (assertion_error "status")
      ∷ simulator_stopped true
      ∷ run_finished failed 2 1
      ∷ [];
}

battery_runs :
    run_scenario services battery_scenario none 7 ≡ (ok (1, battery_report), battery_context)
unfolding run_scenario run_body scenario_deadline two_checks check require finish count_failed
battery_runs = refl

run_scenario-Reported_example : Reported 1 battery_report
run_scenario-Reported_example =
    run_scenario-Reported services battery_scenario none 7 battery_context (1, battery_report)
      battery_runs
