-- ===== src/Hardware/Acceptance.antt =====
-- `acceptance_battery_preflight` and `run_acceptance_plan` of src/ptlab/hardware.py. Times and the
-- fixed texts of a result are left out, a BLE time-out is in milliseconds; a prompt stands for its text.
pub mod Recorded
pub mod Verdict
pub mod Lookup
pub mod Raises
use pinetime_dev_tools.Prelude.{
  ℕ, zero, suc, ◌+◌, List, [], ◌∷◌, ◌++◌, map, Option, none, some, Bool, true, false, not, ◌&&◌,
  ◌||◌, ltb, leb, ◌==◌, if◌then◌else◌, String, str_eq, any,
}
use pinetime_dev_tools.Prelude.Int.{ℤ, pos, negsuc, between}
use pinetime_dev_tools.Prelude.Result.{Result, ok, err, require, map_err}
use pinetime_dev_tools.Prelude.State.{Exec, pure, raise, lift, ◌>>=◌, ◌>>◌}
use pinetime_dev_tools.Prelude.Texts.{Text, codes}
use pinetime_dev_tools.Control.Response.{same_text}
use pinetime_dev_tools.Hardware.{
  Kind, os_error, subprocess_error, value_error, bleak_error, other_error, Outside, HardwareError,
  battery_too_low, ValueError, bad_operator_result, bad_percent, bad_voltage, bad_minimum, Failure,
  hardware, value, outside, key_error, no_fuel, calling, make_endpoint, Unicode,
}
use pinetime_dev_tools.Hardware.Contract.{CharacteristicContract}
use pinetime_dev_tools.Hardware.Ble.{Bleak, ProbeResult, probe}
use pinetime_dev_tools.Hardware.Plan.{AcceptancePeer, CapacityCheck, AcceptancePlan}
use pinetime_dev_tools.Hardware.Adb.{Runner, Snapshot, make_adb, launch_app, snapshot}

pub record Preflight : Type 0 where
  pub reported_percent : ℤ
  pub reported_voltage_mv : ℤ
  pub minimum_percent : ℤ

abbrev below : ℤ → ℤ → Bool
below (pos a) (pos b) = ltb a b
below (pos a) (negsuc b) = false
below (negsuc a) (pos b) = true
below (negsuc a) (negsuc b) = ltb b a

unfoldable pub acceptance_battery_preflight : ℤ → ℤ → ℤ → Result Failure Preflight
acceptance_battery_preflight percent voltage minimum =
    if not (between 0 100 percent)
    then err (value bad_percent)
    else if not (between 2500 5000 voltage)
    then err (value bad_voltage)
    else if not (between 1 100 minimum)
    then err (value bad_minimum)
    else if below percent minimum
    then err (hardware battery_too_low)
    else ok (record {
      reported_percent = percent;
      reported_voltage_mv = voltage;
      minimum_percent = minimum;
    })

pub data Status : Type 0 where
  pass fail skip : Status

pub data Evidence : Type 0 where
  probed : ProbeResult → Evidence
  seen : Snapshot → Evidence
  failed_with : Failure → Evidence

pub record Step : Type 0 where
  pub index : ℕ
  pub peer : String
  pub kind : String
  pub status : Status
  pub evidence : Evidence

pub data Overall : Type 0 where
  running failed incomplete passed : Overall

pub record CapacityResult : Type 0 where
  pub asked : CapacityCheck
  pub status : Status

pub record Report : Type 0 where
  pub watch_label : Text
  pub status : Overall
  pub preflight : Preflight
  pub steps : List Step
  pub capacity : Option CapacityResult

-- What the operator is asked.
pub data Prompt : Type 0 where
  at_step : ℕ → String → Text → Prompt
  at_capacity : CapacityCheck → Prompt

-- The operator's answer, where it is one of the three.
abbrev pub status_of : Text → Option Status
status_of answer =
    if same_text answer (codes "pass")
    then some pass
    else if same_text answer (codes "fail")
    then some fail
    else if same_text answer (codes "skip")
    then some skip
    else none

-- peers[label], where the dict was made of the list: of equal labels the last counts.
unfoldable pub peer_of : String → List AcceptancePeer → Option AcceptancePeer
peer_of label [] = none
peer_of label (p ∷ ps) = elim (peer_of label ps) [
  | some q ↦ some q
  | none ↦ if str_eq p.label label then some p else none
]

-- Whether the two `except` clauses of a step take an error.
abbrev pub is_caught : Failure → Bool
is_caught (hardware e) = true
is_caught (value e) = true
is_caught (key_error k) = false
is_caught no_fuel = false
is_caught (outside o) = elim o.kind [
  | os_error ↦ true
  | subprocess_error ↦ true
  | value_error ↦ true
  | bleak_error ↦ true
  | other_error ↦ false
]

abbrev pub has_status : Status → List Status → Bool
has_status s [] = false
has_status s (t ∷ ts) = same_status s t || has_status s ts
  where
    same_status : Status → Status → Bool
    same_status pass pass = true
    same_status fail fail = true
    same_status skip skip = true
    same_status a b = false

abbrev pub capacity_status : Option CapacityResult → List Status
capacity_status none = []
capacity_status (some c) = c.status ∷ []

unfoldable pub overall_of : List Step → Option CapacityResult → Overall
overall_of steps capacity =
    let statuses = map (λ s. s.status) steps ++ capacity_status capacity in
    if has_status fail statuses
    then failed
    else if has_status skip statuses
    then incomplete
    else passed

-- What a run uses: Bleak, the runner of adb, the operator, and the checkpoint's callback.
pub record Bench (W D C : Type 0) : Type 0 where
  pub bleak : Bleak W D C
  pub runner : Runner W
  pub unicode : Unicode
  pub operator : Prompt → Exec W Outside Text
  pub checkpoint : Option (Report → Exec W Outside (Unit {0}))

abbrev pub address_text : Option String → Option Text
address_text none = none
address_text (some s) = some (codes s)

abbrev pub serial_or_empty : Option String → Text
serial_or_empty none = []
serial_or_empty (some s) = codes s

abbrev pub is_linux : AcceptancePeer → Bool
is_linux peer = str_eq peer.kind "linux"

-- The `except` clauses.
abbrev pub caught : Result Failure (Status × Evidence) → Result Failure (Status × Evidence)
caught (ok r) = ok r
caught (err e) = if is_caught e then ok (fail, failed_with e) else err e

abbrev pub guarded :
    {W : Type 0} → Exec W Failure (Status × Evidence) → Exec W Failure (Status × Evidence)
guarded body w = let (r, v) = body w in (caught r, v)

abbrev pub is_pass : Status → Bool
is_pass pass = true
is_pass fail = false
is_pass skip = false

-- first_linux_probe behind a step: a Linux step that returned clears it.
abbrev pub next_first : AcceptancePeer → Bool → Status → Bool
next_first peer first_linux_probe status =
    first_linux_probe && not (is_linux peer && is_pass status)

abbrev pub looked_up : {W : Type 0} → String → Option AcceptancePeer → Exec W Failure AcceptancePeer
looked_up label none = raise (key_error label)
looked_up label (some p) = pure p

module _ {W D C : Type 0} (bench : Bench W D C) (contract : CharacteristicContract)
    (plan : AcceptancePlan) (preflight : Preflight) where
  abbrev pub report : Overall → List Step → Option CapacityResult → Report
  report status steps capacity = record {
    watch_label = plan.watch_label;
    status = status;
    preflight = preflight;
    steps = steps;
    capacity = capacity;
  }

  abbrev pub save : Option (Report → Exec W Outside (Unit {0})) → Report → Exec W Failure (Unit {0})
  save none r = pure tt
  save (some callback) r = calling (callback r)

  -- checkpoint(...), where one was given.
  abbrev pub checkpoint : Report → Exec W Failure (Unit {0})
  checkpoint r = save bench.checkpoint r

  abbrev pub answered : Option Status → Exec W Failure Status
  answered none = raise (value bad_operator_result)
  answered (some s) = pure s

  -- The operator's answer, if it is a result.
  abbrev pub ask : Prompt → Exec W Failure Status
  ask prompt = do answer ← calling (bench.operator prompt); answered (status_of answer)

  -- The BLE time-out is 30 seconds, and the CCCD is checked.
  unfoldable pub linux_step : AcceptancePeer → Bool → Exec W Failure (Status × Evidence)
  unfolding probe
  linux_step peer first_linux_probe = do
    endpoint ← lift (map_err value (make_endpoint peer.address peer.name peer.adapter))
    evidence ←
        probe bench.bleak bench.unicode contract 30000 endpoint true first_linux_probe
          peer.allow_eviction
    pure (pass, probed evidence)

  unfoldable pub android_step : ℕ → String → AcceptancePeer → Exec W Failure (Status × Evidence)
  unfolding launch_app snapshot
  android_step index label peer = do
    adb ← lift (map_err value (make_adb (serial_or_empty peer.serial)))
    launch_app bench.runner bench.unicode adb
    evidence ← snapshot bench.runner bench.unicode adb (address_text peer.address)
    status ← ask (at_step index label plan.watch_label)
    pure (status, seen evidence)

  abbrev pub step_body : ℕ → String → AcceptancePeer → Bool → Exec W Failure (Status × Evidence)
  step_body index label peer first_linux_probe =
      if is_linux peer then linux_step peer first_linux_probe else android_step index label peer

  -- The loop over the sequence.
  unfoldable pub run_steps : List String → ℕ → Bool → List Step → Exec W Failure (List Step)
  unfolding linux_step android_step peer_of
  run_steps [] index first_linux_probe steps = pure steps
  run_steps (label ∷ labels) index first_linux_probe steps = do
    peer ← looked_up label (peer_of label plan.peers)
    outcome ← guarded (step_body index label peer first_linux_probe)
    let next =
        steps
        ++ record {
          index = index;
          peer = label;
          kind = peer.kind;
          status = outcome.0;
          evidence = outcome.1;
        }
          ∷ []
    checkpoint (report running next none)
    run_steps labels (index + 1) (next_first peer first_linux_probe outcome.0) next

  unfoldable pub check_capacity_peers :
      List Step → Option CapacityCheck → Exec W Failure (Option CapacityResult)
  check_capacity_peers steps none = pure none
  check_capacity_peers steps (some c) = do
    status ← ask (at_capacity c)
    let capacity : CapacityResult = record { asked = c; status = status }
    checkpoint (report running steps (some capacity))
    pure (some capacity)

  unfoldable pub run_plan : Exec W Failure Report
  unfolding run_steps check_capacity_peers overall_of
  run_plan = do
    checkpoint (report running [] none)
    steps ← run_steps plan.sequence 1 true []
    capacity ← check_capacity_peers steps plan.capacity_check
    let final = report (overall_of steps capacity) steps capacity
    checkpoint final
    pure final

unfoldable pub run_acceptance_plan :
    {W D C : Type 0}
    → Bench W D C
    → Result Failure CharacteristicContract
    → AcceptancePlan
    → ℤ
    → ℤ
    → ℤ
    → Exec W Failure Report
unfolding acceptance_battery_preflight run_plan
run_acceptance_plan bench contract plan percent voltage minimum = do
  preflight ← lift (acceptance_battery_preflight percent voltage minimum)
  contract ← lift contract
  run_plan bench contract plan preflight
