-- ===== src/Hardware.antt =====
-- src/ptlab/hardware.py: the real watches. The names that its parts share are here; the contract of
-- the characteristics is in Contract, the BLE checks are in Ble, the Android side in Adb, the
-- acceptance plan in Plan and its run in Acceptance, the observations of one watch and of two in
-- Advertising and Observation, and the soak in Soak.
pub mod Status
pub mod Contract
pub mod Calm
pub mod Ble
pub mod Advertising
pub mod Plan
pub mod Adb
pub mod Acceptance
pub mod Observation
pub mod Soak
use pinetime_dev_tools.Prelude.{
  ℕ, List, [], ◌∷◌, ◌++◌, Option, none, some, Bool, true, false, not, ◌&&◌, ◌||◌, ◌==◌,
  if◌then◌else◌, String, str_eq, any,
}
use pinetime_dev_tools.Prelude.Result.{Result, ok, err, map_err}
use pinetime_dev_tools.Prelude.State.{Exec}
use pinetime_dev_tools.Prelude.Texts.{Text}
use pinetime_dev_tools.Bytes.{Bytes}
use pinetime_dev_tools.Control.Response.{is_space}

-- What a library or a tool outside the program raises: the classes that the source tells apart.
pub data Kind : Type 0 where
  os_error subprocess_error value_error bleak_error other_error : Kind

pub record Outside : Type 0 where
  pub kind : Kind
  pub message : Text

-- The HardwareErrors.
pub data HardwareError : Type 0 where
  not_advertising unexpected_verify_failure bad_battery_payload characteristic_absent :
      HardwareError
  no_cccd readable_before_bonding pairing_may_evict status_changed : HardwareError
  bonded_count_regressed eviction_count_regressed cccd_not_restored battery_too_low : HardwareError
  adb_failed adb_unavailable adb_not_ready : HardwareError
  protocol_is_missing : String → HardwareError

-- The ValueErrors.
pub data ValueError : Type 0 where
  address_or_name bad_status_payload empty_serial bad_operator_result bad_percent bad_voltage :
      ValueError
  bad_minimum same_watches bad_durations scan_window_exceeds adapters_differ : ValueError

-- `no_fuel` is the model's own: see Soak/Ends.
pub data Failure : Type 0 where
  hardware : HardwareError → Failure
  value : ValueError → Failure
  outside : Outside → Failure
  key_error : String → Failure
  no_fuel : Failure

-- A call of outside code.
abbrev pub calling {ℓ κ} : {W : Type ℓ} {A : Type κ} → Exec W Outside A → Exec W Failure A
calling m w = let (r, v) = m w in (map_err outside r, v)

-- A string that is neither None nor empty.
abbrev pub is_given : Option String → Bool
is_given none = false
is_given (some s) = not (str_eq s "")

pub record BleEndpoint : Type 0 where
  pub address : Option String
  pub name : Option String
  pub adapter : Option String

abbrev same_truth : Bool → Bool → Bool
same_truth true b = b
same_truth false b = not b

-- BleEndpoint(address, name, adapter)
abbrev pub make_endpoint :
    Option String → Option String → Option String → Result ValueError BleEndpoint
make_endpoint address name adapter =
    if same_truth (is_given address) (is_given name)
    then err address_or_name
    else ok (record { address = address; name = name; adapter = adapter })

-- Python's tables of Unicode: str.casefold, str.lower, and bytes.decode("utf-8", errors="replace").
pub record Unicode : Type 0 where
  pub casefold : Text → Text
  pub lower : Text → Text
  pub decode_replacing : Bytes → Text

-- Whether a text starts with another.
unfoldable pub starts_with : Text → Text → Bool
starts_with [] t = true
starts_with (c ∷ cs) [] = false
starts_with (c ∷ cs) (d ∷ ds) = c == d && starts_with cs ds

-- needle in text
unfoldable pub contains : Text → Text → Bool
unfolding starts_with
contains needle [] = starts_with needle []
contains needle (d ∷ ds) = starts_with needle (d ∷ ds) || contains needle ds

-- text.strip()
abbrev pub strip_start : Text → Text
strip_start [] = []
strip_start (c ∷ cs) = if is_space c then strip_start cs else c ∷ cs

abbrev pub strip_end : Text → Text
strip_end [] = []
strip_end (c ∷ cs) = kept c (strip_end cs)
  where
    kept : ℕ → Text → Text
    kept x [] = if is_space x then [] else x ∷ []
    kept x (y ∷ ys) = x ∷ y ∷ ys

abbrev pub strip : Text → Text
strip t = strip_start (strip_end t)
