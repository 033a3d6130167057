-- ===== src/Scenario.antt =====
-- `ScenarioContext.check` and `require`, `scenario_deadline` and `run_scenario` of
-- src/ptlab/scenario.py. Times, paths and the texts of a result are left out. The simulator, the
-- files and the alarm clock are a parameter over a world `W`.
pub mod Reported
use pinetime_dev_tools.Prelude.{
  ℕ, zero, suc, ◌+◌, List, [], ◌∷◌, ◌++◌, Option, none, some, Bool, true, false, not, ◌&&◌, ◌||◌,
  ◌==◌, if◌then◌else◌, String, length, all,
}
use pinetime_dev_tools.Prelude.Int.{ℤ, pos, negsuc, is_positive}
use pinetime_dev_tools.Prelude.Result.{Result, ok, err}
use pinetime_dev_tools.Prelude.State.{Exec, pure, raise, gets, modify, ◌>>=◌, ◌>>◌}

pub data Status : Type 0 where
  running passed failed skipped timed_out : Status

-- What a scenario or a simulator raises: ScenarioSkip, ScenarioTimeout, the AssertionError of
-- `require`, and any other BaseException.
pub data Raised : Type 0 where
  scenario_skip : String → Raised
  scenario_timeout : Raised
  assertion_error : String → Raised
  other_exception : String → Raised

pub record Assertion : Type 0 where
  pub name : String
  pub is_passed : Bool

pub data Event : Type 0 where
  run_started simulator_started : Event
  assertion_made : String → Bool → Event
  scenario_skipped : String → Event
  scenario_failure : Raised → Event
  simulator_stopped : Bool → Event
  run_finished : Status → ℕ → ℕ → Event

-- The world, and what a scenario's context gathers.
pub record Context (W : Type 0) : Type 0 where
  pub world : W
  pub assertions : List Assertion
  pub events : List Event

pub record RunResult : Type 0 where
  pub status : Status
  pub error : Option Raised
  pub check_count : ℕ
  pub failure_count : ℕ

-- What a run calls. The alarm is set for the scenario and put back behind it. Closing the control
-- connection does nothing when none is open, as without a context.
pub record Services (W : Type 0) : Type 0 where
  pub start : Bool → Exec W Raised (Unit {0})
  pub close_control : W → W
  pub stop : Exec W Raised Bool
  pub copy_persistence : Exec W Raised (Unit {0})
  pub write_junit : RunResult → List Assertion → Exec W Raised (Unit {0})
  pub write_result : RunResult → Exec W Raised (Unit {0})
  pub set_alarm : ℤ → W → W
  pub restore_alarm : W → W

module _ {W : Type 0} where
  -- events.emit(...)
  abbrev pub emit : Event → Exec (Context W) Raised (Unit {0})
  emit e = modify (λ c. record c { events = c.events ++ e ∷ [] })

  abbrev pub in_world {ℓ} : {A : Type ℓ} → Exec W Raised A → Exec (Context W) Raised A
  in_world m c = let (r, w) = m c.world in (r, record c { world = w })

  unfoldable pub check : Bool → String → Exec (Context W) Raised Bool
  check condition name = do
    modify (λ c. record c {
      assertions = c.assertions ++ record { name = name; is_passed = condition } ∷ [];
    })
    emit (assertion_made name condition)
    pure condition

  abbrev demanded : String → Bool → Exec (Context W) Raised (Unit {0})
  demanded name true = pure tt
  demanded name false = raise (assertion_error name)

  unfoldable pub require : Bool → String → Exec (Context W) Raised (Unit {0})
  unfolding check
  require condition name = do held ← check condition name; demanded name held

pub record ScenarioDefinition (W : Type 0) : Type 0 where
  pub function : Exec (Context W) Raised (Unit {0})
  pub timeout : ℤ
  pub headless : Bool

-- sum(not assertion["passed"] for assertion in assertions)
unfoldable pub count_failed : List Assertion → ℕ
count_failed [] = 0
count_failed (a ∷ made) = if a.is_passed then count_failed made else suc (count_failed made)

abbrev pub verdict : List Assertion → Status
verdict made = if all (λ a. a.is_passed) made then passed else failed

abbrev is_zero : ℤ → Bool
is_zero (pos n) = n == 0
is_zero (negsuc n) = false

-- timeout or definition.timeout
abbrev pub chosen : Option ℤ → ℤ → ℤ
chosen none t = t
chosen (some z) t = if is_zero z then t else z

-- The `except` clauses: the status, and the error that is written.
abbrev pub outcome_of : Result Raised Status → Status × Option Raised
outcome_of (ok s) = (s, none)
outcome_of (err (scenario_skip reason)) = (skipped, some (scenario_skip reason))
outcome_of (err scenario_timeout) = (timed_out, some scenario_timeout)
outcome_of (err (assertion_error name)) = (failed, some (assertion_error name))
outcome_of (err (other_exception e)) = (failed, some (other_exception e))

abbrev pub outcome_events : Result Raised Status → List Event
outcome_events (ok s) = []
outcome_events (err (scenario_skip reason)) = scenario_skipped reason ∷ []
outcome_events (err scenario_timeout) = scenario_failure scenario_timeout ∷ []
outcome_events (err (assertion_error name)) = scenario_failure (assertion_error name) ∷ []
outcome_events (err (other_exception e)) = scenario_failure (other_exception e) ∷ []

-- The counts are those of the context's assertions; without a context there are none.
abbrev pub result_of : Status × Option Raised → List Assertion → RunResult
result_of (status, error) made = record {
  status = status;
  error = error;
  check_count = length made;
  failure_count = count_failed made;
}

abbrev pub exit_code : Status → ℕ
exit_code running = 1
exit_code passed = 0
exit_code failed = 1
exit_code skipped = 0
exit_code timed_out = 1

module _ {W : Type 0} (services : Services W) where
  -- scenario_deadline(seconds): the alarm is put back on every way out of the body.
  unfoldable pub scenario_deadline :
      ℤ → Exec (Context W) Raised (Unit {0}) → Exec (Context W) Raised (Unit {0})
  scenario_deadline seconds body c =
      let (r, d) = body (record c { world = services.set_alarm seconds c.world }) in
      if is_positive seconds
      then (r, record d { world = services.restore_alarm d.world })
      else (err (other_exception "ValueError"), c)

  -- The body of the `try`: the status that it writes.
  unfoldable pub run_body : ScenarioDefinition W → Option ℤ → Exec (Context W) Raised Status
  unfolding scenario_deadline
  run_body definition timeout = do
    in_world (services.start definition.headless)
    emit simulator_started
    scenario_deadline (chosen timeout definition.timeout) definition.function
    gets (λ c. verdict c.assertions)

  -- The `finally` clause, from closing the context to `run.finished`.
  unfoldable pub finish : RunResult → List Assertion → Exec (Context W) Raised (Unit {0})
  finish result made = do
    modify (λ c. record c { world = services.close_control c.world })
    stopped ← in_world services.stop
    emit (simulator_stopped stopped)
    in_world services.copy_persistence
    in_world (services.write_junit result made)
    in_world (services.write_result result)
    emit (run_finished result.status result.check_count result.failure_count)

  abbrev pub closing : Result Raised Status → Exec (Context W) Raised (ℕ × RunResult)
  closing r = do
    modify (λ c. record c { events = c.events ++ outcome_events r })
    made ← gets (λ c. c.assertions)
    finish (result_of (outcome_of r) made) made
    pure (exit_code (outcome_of r).0, result_of (outcome_of r) made)

  abbrev pub guarded : Exec (Context W) Raised Status → Exec (Context W) Raised (ℕ × RunResult)
  guarded body c = let (r, d) = body c in closing r d

  unfoldable pub run_scenario :
      ScenarioDefinition W → Option ℤ → W → Result Raised (ℕ × RunResult) × Context W
  unfolding run_body finish count_failed
  run_scenario definition timeout w =
      (do
        in_world (services.write_result (result_of (running, none) []))
        emit run_started
        guarded (run_body definition timeout))
        (record { world = w; assertions = []; events = [] })
