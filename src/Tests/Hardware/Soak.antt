-- ===== src/Tests/Hardware/Soak.antt =====
-- A soak of two watches, on a clock that each scan moves by its window.
use pinetime_dev_tools.Prelude.{
  ℕ, ◌+◌, List, [], ◌∷◌, Option, none, some, true, String, ◌≡◌, ◌≢◌, refl, arith,
}
use pinetime_dev_tools.Prelude.Int.{pos}
use pinetime_dev_tools.Prelude.Result.{ok, err}
use pinetime_dev_tools.Prelude.State.{Exec, pure}
use pinetime_dev_tools.Hardware.{Failure, no_fuel, BleEndpoint}
use pinetime_dev_tools.Hardware.Ble.{find, read_battery}
use pinetime_dev_tools.Hardware.Observation.{
  Scanner, Detection, Sample, matches, last_match, check_observation, observe_loop, observe_pair,
}
use pinetime_dev_tools.Hardware.Soak.{
  Watch, passed, SoakResult, Session, fresh, read_into, measure, conclude, soak_body, begin_soak,
  run_soak,
}
use pinetime_dev_tools.Hardware.Soak.Observed.{SoakFits, run_soak-SoakFits}
use pinetime_dev_tools.Hardware.Soak.Ends.{Ticks, observe_pair-Ended}
use pinetime_dev_tools.Tests.Hardware.Watch.{contract, unicode, watch, endpoint}

abbrev other_endpoint : BleEndpoint
other_endpoint = record { address = none; name = some "InfiniTime"; adapter = none }

abbrev detections : List Detection
detections =
    record { address = "AA:BB"; local_name = none; device_name = some "one" }
    ∷ record { address = "CC:DD"; local_name = some "InfiniTime"; device_name = none }
    ∷ []

abbrev scanner : Scanner ℕ
scanner = record {
  scan = λ window adapter w. (ok detections, w + window + 1);
  now = λ w. w;
  sleep = λ t w. w + t;
}

abbrev on_sample : Sample × Sample → Exec ℕ Failure (Unit {0})
on_sample x = pure tt

scanner-Ticks : Ticks scanner 4 on_sample
scanner-Ticks = record {
  scan_takes = λ a w. omega arith;
  sleep_keeps = λ t w. omega arith;
  sample_keeps = λ x w. omega arith;
  sample_ends = λ x w e. cc;
}

observe_pair-Ended_example :
    (observe_pair scanner unicode endpoint other_endpoint 6 4 10 on_sample 100).0 ≢ err no_fuel
observe_pair-Ended_example =
    observe_pair-Ended scanner unicode endpoint other_endpoint 6 4 10 on_sample 100 scanner-Ticks

abbrev start : Session ℕ
start = record { world = 100; result = fresh }

abbrev soaked : String → Option String → Watch
soaked address name = record {
  battery_start = some 80;
  battery_end = some 80;
  battery_delta = some (pos 0);
  advertising_samples = record { visible = true; address = some address; name = name } ∷ [];
}

abbrev soak_result : SoakResult
soak_result = record {
  status = passed;
  candidate = soaked "AA:BB" (some "one");
  baseline = soaked "CC:DD" none;
  error = none;
}

soak_runs :
    run_soak (watch 2) scanner unicode contract 30000 endpoint other_endpoint none 3 6 4 start
    ≡ (ok soak_result, record { world = 105; result = soak_result })
unfolding run_soak begin_soak soak_body measure read_into read_battery find observe_pair
    check_observation observe_loop last_match matches conclude
soak_runs = refl

run_soak-SoakFits_example :
    SoakFits (watch 2) unicode contract 30000 endpoint other_endpoint none 100 105 soak_result
run_soak-SoakFits_example =
    run_soak-SoakFits (watch 2) scanner unicode contract 30000 endpoint other_endpoint none 3 6 4
      start (record { world = 105; result = soak_result }) soak_result soak_runs
