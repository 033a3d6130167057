-- ===== src/Tests/Hardware/Plan.antt =====
-- A plan over two Linux adapters, loaded and run.
use pinetime_dev_tools.Prelude.{
  ℕ, List, [], ◌∷◌, Option, none, some, Bool, true, false, String, ◌≡◌, refl,
}
use pinetime_dev_tools.Prelude.Int.{pos}
use pinetime_dev_tools.Prelude.Result.{ok, err}
use pinetime_dev_tools.Prelude.Texts.{codes}
use pinetime_dev_tools.Wire.{parse_companion_status}
use pinetime_dev_tools.Hardware.{other_error, contains, starts_with}
use pinetime_dev_tools.Hardware.Status.{validate_status_pair}
use pinetime_dev_tools.Hardware.Ble.{
  ProbeResult, find, public_reads, read_public, first_cccd, cccd_descriptor, verify_paired,
  read_cccd, restored_cccd, probe_behind, probe, strip_nul,
}
use pinetime_dev_tools.Hardware.Plan.{
  AcceptancePeer, AcceptancePlan, RawPlan, count_distinct, check_peers, check_plan, load_capacity,
  load,
}
use pinetime_dev_tools.Hardware.Plan.WellFormed.{WellFormed, load-WellFormed}
use pinetime_dev_tools.Hardware.Acceptance.{
  Preflight, acceptance_battery_preflight, pass, probed, Step, passed, Report, Bench, peer_of,
  linux_step, run_steps, check_capacity_peers, overall_of, run_plan, run_acceptance_plan,
}
use pinetime_dev_tools.Hardware.Acceptance.Verdict.{RunFits, run_acceptance-RunFits}
use pinetime_dev_tools.Tests.Hardware.Watch.{contract, unicode, watch, status_of}

abbrev linux_peer : String → String → AcceptancePeer
linux_peer label adapter = record {
  label = label;
  kind = "linux";
  address = some "AA:BB";
  name = none;
  adapter = some adapter;
  serial = none;
  allow_eviction = false;
}

abbrev two_peers : List AcceptancePeer
two_peers = linux_peer "desk" "hci0" ∷ linux_peer "laptop" "hci1" ∷ []

abbrev raw_plan : RawPlan
raw_plan = record {
  schema_version = some (pos 1);
  watch_label = some (codes " W1 ");
  peers = some two_peers;
  sequence = some ("desk" ∷ "laptop" ∷ "desk" ∷ []);
  capacity_check = none;
}

abbrev plan : AcceptancePlan
plan = record {
  watch_label = codes "W1";
  peers = two_peers;
  sequence = "desk" ∷ "laptop" ∷ "desk" ∷ [];
  capacity_check = none;
}

plan_loads : load raw_plan ≡ ok plan
unfolding load check_plan load_capacity count_distinct check_peers
plan_loads = refl

load-WellFormed_example : WellFormed plan
load-WellFormed_example = load-WellFormed raw_plan plan plan_loads

abbrev bench : Bench ℕ (Unit {0}) Bool
bench = record {
  bleak = watch 2;
  runner = λ words w. (err (record { kind = other_error; message = [] }), w);
  unicode = unicode;
  operator = λ prompt w. (ok (codes "pass"), w);
  checkpoint = none;
}

abbrev probe_by : String → Bool → Option Bool → ProbeResult
probe_by adapter checked rejected = record {
  endpoint = record { address = some "AA:BB"; name = none; adapter = some adapter };
  firmware_revision = codes "1.15";
  battery_percent = 80;
  public_status = status_of 2;
  verified_status = status_of 2;
  gate_checked = checked;
  gate_rejected = rejected;
  cccd_checked = true;
  cccd_after_reconnect = some (0x01 ∷ 0x00 ∷ []);
  notifications = (80 ∷ []) ∷ [];
}

abbrev step_at : ℕ → String → ProbeResult → Step
step_at index label r = record {
  index = index;
  peer = label;
  kind = "linux";
  status = pass;
  evidence = probed r;
}

abbrev preflight : Preflight
preflight = record {
  reported_percent = pos 80;
  reported_voltage_mv = pos 4000;
  minimum_percent = pos 40;
}

abbrev passed_report : Report
passed_report = record {
  watch_label = codes "W1";
  status = passed;
  preflight = preflight;
  steps =
      step_at 1 "desk" (probe_by "hci0" true (some true))
      ∷ step_at 2 "laptop" (probe_by "hci1" false none)
      ∷ step_at 3 "desk" (probe_by "hci0" false none)
      ∷ [];
  capacity = none;
}

run_passes :
    run_acceptance_plan bench (ok contract) plan (pos 80) (pos 4000) (pos 40) 7
    ≡ (ok passed_report, 7)
unfolding run_acceptance_plan acceptance_battery_preflight run_plan run_steps peer_of linux_step
    check_capacity_peers overall_of probe read_public find public_reads strip_nul contains
    starts_with probe_behind parse_companion_status verify_paired validate_status_pair restored_cccd
    read_cccd cccd_descriptor first_cccd
run_passes = refl

run_acceptance-RunFits_example :
    (p : Preflight) × (acceptance_battery_preflight (pos 80) (pos 4000) (pos 40) ≡ ok p)
    × RunFits plan passed_report
run_acceptance-RunFits_example =
    run_acceptance-RunFits bench (ok contract) plan (pos 80) (pos 4000) (pos 40) 7 7 passed_report
      run_passes
