-- ===== src/Tests/Hardware/Advertising.antt =====
-- A watch that advertises until the clock is at 104, and a contract that names a characteristic twice.
use pinetime_dev_tools.Prelude.{
  ℕ, ◌+◌, List, [], ◌∷◌, ◌++◌, Option, none, some, Bool, true, false, ltb, ◌≤◌, if◌then◌else◌, ◌≡◌,
  refl, arith, String,
}
use pinetime_dev_tools.Prelude.Result.{Result, ok, err}
use pinetime_dev_tools.Prelude.State.{Exec}
use pinetime_dev_tools.Hardware.{Outside, Failure, hardware, protocol_is_missing}
use pinetime_dev_tools.Hardware.Contract.{Item, characteristics, uuid_of, load_contract}
use pinetime_dev_tools.Hardware.Ble.{Bleak, find}
use pinetime_dev_tools.Hardware.Observation.{Scanner, Sample}
use pinetime_dev_tools.Hardware.Advertising.{
  Attributes, check_times, look, observe_rounds, observe_advertising,
}
use pinetime_dev_tools.Hardware.Advertising.Observed.{
  Follows, Observed, observe_advertising-Observed,
}
use pinetime_dev_tools.Tests.Hardware.Watch.{contract, unicode, endpoint}

-- The clock, and the samples that the callback was given.
record World : Type 0 where
  time : ℕ
  given : List Sample

abbrev finding : ℕ → World → Result Outside (Option (Unit {0})) × World
finding wait w =
    if ltb w.time 104
    then (ok (some tt), record w { time = w.time + 1 })
    else (ok none, record w { time = w.time + wait })

abbrev leaving : Bleak World (Unit {0}) (Unit {0})
leaving = record {
  find_device_by_address = λ address wait adapter. finding wait;
  find_device_by_name = λ name wait adapter. finding wait;
  connect = λ d wait adapter pair w. (ok tt, w);
  disconnect = λ c w. w;
  read_gatt_char = λ c uuid w. (ok [], w);
  read_gatt_descriptor = λ c handle w. (ok [], w);
  get_characteristic = λ c uuid. none;
  start_notify = λ c uuid w. (ok tt, w);
  sleep = λ t w. ([], w);
}

abbrev clock : Scanner World
clock = record {
  scan = λ window adapter w. (ok [], w);
  now = λ w. w.time;
  sleep = λ t w. record w { time = w.time + t };
}

abbrev attributes : Attributes (Unit {0})
attributes = record { address = λ d. some "AA:BB"; name = λ d. some "one" }

abbrev keep : Sample → Exec World Failure (Unit {0})
keep x w = (ok tt, record w { given = w.given ++ x ∷ [] })

abbrev seen : Bool → Option String → Sample
seen b name = record { visible = b; address = some "AA:BB"; name = name }

abbrev samples : List Sample
samples = seen true (some "one") ∷ seen false none ∷ []

abbrev observed : Result Failure (List Sample) × World
observed = (ok samples, record { time = 108; given = samples })

advertising_runs :
    observe_advertising leaving clock unicode contract 30000 attributes endpoint 5 3 8 keep
      (record { time = 100; given = [] })
    ≡ observed
unfolding observe_advertising check_times observe_rounds look find
advertising_runs = refl

finding-quiet :
    (t : ℕ) (w : World) → ((finding t w).1.given ≡ w.given) × (w.time ≤ (finding t w).1.time)
finding-quiet t w = ground arith

keep-Follows : Follows leaving clock (λ w. w.given) keep
keep-Follows = record {
  address_quiet = λ a t b w. finding-quiet t w;
  name_quiet = λ a t b w. finding-quiet t w;
  sleep_quiet = λ t w. refl;
  sleep_lasts = λ t w. omega arith;
  given_once = λ x w done. refl;
  given_keeps = λ x w. omega arith;
  given_ends = λ x w e. cc;
}

observe_advertising-Observed_example :
    Observed clock
      (λ w. w.given)
      108
      []
      (observe_advertising leaving clock unicode contract 30000 attributes endpoint 5 3 8 keep
        (record { time = 100; given = [] }))
observe_advertising-Observed_example =
    observe_advertising-Observed leaving clock unicode contract 30000 attributes endpoint 5 3 8
      (λ w. w.given) keep (record { time = 100; given = [] }) keep-Follows

abbrev item : String → String → Item
item name uuid = record { name = some name; characteristic_uuid = some uuid }

abbrev items : List Item
items =
    item "battery" "old"
    ∷ item "firmware_revision" "revision"
    ∷ item "companion_status" "status"
    ∷ item "battery" "battery"
    ∷ []

contract_loads : load_contract (items ++ item "companion_verify" "verify" ∷ []) ≡ ok contract
unfolding load_contract characteristics uuid_of
contract_loads = refl

contract_lacks : load_contract items ≡ err (hardware (protocol_is_missing "companion_verify"))
unfolding load_contract characteristics uuid_of
contract_lacks = refl
