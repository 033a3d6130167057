-- ===== src/Tests/Hardware/Watch.antt =====
-- A watch with two of five peers bonded, and one that is full.
use pinetime_dev_tools.Prelude.{
  ℕ, suc, [], ◌∷◌, none, some, Bool, true, false, String, str_eq, if◌then◌else◌, ◌≡◌, refl,
}
use pinetime_dev_tools.Prelude.Result.{Result, ok, err}
use pinetime_dev_tools.Prelude.Texts.{codes}
use pinetime_dev_tools.Bytes.{Bytes}
use pinetime_dev_tools.Wire.{CompanionStatus, parse_companion_status}
use pinetime_dev_tools.Hardware.{
  bleak_error, Outside, pairing_may_evict, hardware, BleEndpoint, Unicode, contains, starts_with,
}
use pinetime_dev_tools.Hardware.Status.{validate_status_pair}
use pinetime_dev_tools.Hardware.Contract.{CharacteristicContract}
use pinetime_dev_tools.Hardware.Ble.{
  Bleak, ProbeResult, find, public_reads, read_public, first_cccd, cccd_descriptor, verify_paired,
  read_cccd, restored_cccd, probe_behind, probe, strip_nul,
}
use pinetime_dev_tools.Hardware.Ble.Probe.{Verified, Seen, probe-Verified}
use pinetime_dev_tools.Hardware.Ble.Pairing.{CountsPairs, PairsWithLeave, probe-PairsWithLeave}

abbrev pub contract : CharacteristicContract
contract = record {
  battery = "battery";
  firmware_revision = "revision";
  companion_status = "status";
  companion_verify = "verify";
}

abbrev pub unicode : Unicode
unicode = record { casefold = λ t. t; lower = λ t. t; decode_replacing = λ bs. bs }

abbrev pub status_payload : ℕ → Bytes
status_payload bonded =
    1 ∷ 5 ∷ bonded ∷ 1 ∷ 4 ∷ 0 ∷ 0 ∷ 0 ∷ 0 ∷ 0 ∷ 0 ∷ 0 ∷ 0 ∷ 0 ∷ 0 ∷ 0 ∷ 3 ∷ 0 ∷ 0 ∷ 0 ∷ []

abbrev pub status_of : ℕ → CompanionStatus
status_of bonded = record {
  protocol = 1;
  capacity = 5;
  bonded_count = bonded;
  eviction_policy = 1;
  reset_epoch = 4;
  eviction_count = 0;
  cccd_overflow_rejections = 0;
  invariant_violations = 0;
  flags = 3;
}

abbrev refused : Outside
refused = record { kind = bleak_error; message = codes "not permitted" }

-- A connection is whether it is paired; an unpaired one may not read the verify characteristic.
abbrev pub watch : ℕ → Bleak ℕ (Unit {0}) Bool
watch bonded = record {
  find_device_by_address = λ address wait adapter w. (ok (some tt), w);
  find_device_by_name = λ name wait adapter w. (ok (some tt), w);
  connect = λ d wait adapter pair w. (ok pair, w);
  disconnect = λ c w. w;
  read_gatt_char = λ c uuid w. (value_of c uuid, w);
  read_gatt_descriptor = λ c handle w. (ok (0x01 ∷ 0x00 ∷ []), w);
  get_characteristic = λ c uuid. some ((codes "00002902-0000-1000-8000-00805f9b34fb", 12) ∷ []);
  start_notify = λ c uuid w. (ok tt, w);
  sleep = λ t w. ((80 ∷ []) ∷ [], w);
}
  where
    verified : Bool → Result Outside Bytes
    verified true = ok (status_payload bonded)
    verified false = err refused

    value_of : Bool → String → Result Outside Bytes
    value_of c uuid =
        if str_eq uuid "battery"
        then ok (80 ∷ [])
        else if str_eq uuid "revision"
        then ok (codes "1.15")
        else if str_eq uuid "status"
        then ok (status_payload bonded)
        else verified c

abbrev pub endpoint : BleEndpoint
endpoint = record { address = some "AA:BB"; name = none; adapter = none }

abbrev pub probe_result : ProbeResult
probe_result = record {
  endpoint = endpoint;
  firmware_revision = codes "1.15";
  battery_percent = 80;
  public_status = status_of 2;
  verified_status = status_of 2;
  gate_checked = true;
  gate_rejected = some true;
  cccd_checked = true;
  cccd_after_reconnect = some (0x01 ∷ 0x00 ∷ []);
  notifications = (80 ∷ []) ∷ [];
}

pub probed_watch :
    probe (watch 2) unicode contract 30000 endpoint true true false 7 ≡ (ok probe_result, 7)
unfolding probe read_public find public_reads strip_nul contains starts_with probe_behind
    parse_companion_status verify_paired validate_status_pair restored_cccd read_cccd
    cccd_descriptor first_cccd
probed_watch = refl

probe-Verified_example :
    Verified true true false probe_result
    × Seen (watch 2) unicode contract 30000 endpoint true true probe_result
probe-Verified_example =
    probe-Verified (watch 2) unicode contract 30000 endpoint true true false 7 7 probe_result
      probed_watch

-- The number of paired connections that were opened.
abbrev counting : ℕ → Bleak ℕ (Unit {0}) Bool
counting bonded = record (watch bonded) {
  connect = λ d wait adapter pair w. (ok pair, if pair then suc w else w);
}

counting-CountsPairs : CountsPairs (counting 5) (λ w. w)
counting-CountsPairs = record {
  address_keeps = λ a t b w. refl;
  name_keeps = λ a t b w. refl;
  connect_keeps = λ d t a w. refl;
  disconnect_keeps = λ c w. refl;
  read_keeps = λ c uuid w. refl;
}

probe-PairsWithLeave_example :
    PairsWithLeave
      (counting 5)
      unicode
      contract
      30000
      (λ w. w)
      endpoint
      true
      false
      7
      (probe (counting 5) unicode contract 30000 endpoint true true false 7).1
probe-PairsWithLeave_example =
    probe-PairsWithLeave (counting 5) unicode contract 30000 (λ w. w) endpoint true true false 7
      counting-CountsPairs

full_watch :
    probe (counting 5) unicode contract 30000 endpoint true true false 7
    ≡ (err (hardware pairing_may_evict), 7)
unfolding probe read_public find public_reads strip_nul contains starts_with probe_behind
    parse_companion_status
full_watch = refl
