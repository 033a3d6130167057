-- ===== src/Hardware/Adb.antt =====
-- `AdbHardware` of src/ptlab/hardware.py. `subprocess.run` is a parameter: what it returns for the
-- words of a command, and what it does to the world.
use pinetime_dev_tools.Prelude.{
  ℕ, List, [], ◌∷◌, ◌++◌, Option, none, some, Bool, true, false, ◌&&◌, ◌||◌, ◌==◌, leb,
  if◌then◌else◌,
}
use pinetime_dev_tools.Prelude.Int.{ℤ, pos, negsuc}
use pinetime_dev_tools.Prelude.Result.{Result, ok, err}
use pinetime_dev_tools.Prelude.State.{Exec, pure, raise, ◌>>=◌, ◌>>◌}
use pinetime_dev_tools.Prelude.Texts.{Text, codes}
use pinetime_dev_tools.Control.Response.{same_text, split_words}
use pinetime_dev_tools.Hardware.{
  Outside, HardwareError, adb_failed, adb_unavailable, adb_not_ready, ValueError, empty_serial,
  Failure, hardware, calling, Unicode, contains, strip,
}

pub record Completed : Type 0 where
  pub returncode : ℤ
  pub stdout : Text
  pub stderr : Text

abbrev pub Runner : Type 0 → Type 0
Runner W = List Text → Exec W Outside Completed

-- The line boundaries of str.splitlines, but for a carriage return.
abbrev is_boundary : ℕ → Bool
is_boundary c =
    (leb 0x0a c && leb c 0x0c)
    || (leb 0x1c c && leb c 0x1e)
    || c == 0x85
    || c == 0x2028
    || c == 0x2029

abbrev last_line : Text → List Text
last_line [] = []
last_line (c ∷ cs) = (c ∷ cs) ∷ []

-- `line` is what was collected; `returned` tells that a carriage return has just ended a line.
unfoldable pub lines_from : Bool → Text → Text → List Text
lines_from returned line [] = last_line line
lines_from returned line (c ∷ cs) =
    let plain = lines_from false (line ++ c ∷ []) cs in
    let ended = lines_from false [] cs in
    let returning = lines_from true [] cs in
    if returned && c == b'\n'
    then ended
    else if is_boundary c
    then line ∷ ended
    else if c == b'\r'
    then line ∷ returning
    else plain

-- text.splitlines()
abbrev pub splitlines : Text → List Text
splitlines text = lines_from false [] text

abbrev pub Devices : Type 0
Devices = List (Text × Text)

-- devices[serial] = state
pub put_device : Text → Text → Devices → Devices
put_device serial state [] = (serial, state) ∷ []
put_device serial state ((k, v) ∷ devices) =
    if same_text k serial
    then (serial, state) ∷ devices
    else (k, v) ∷ put_device serial state devices

pub get_device : Text → Devices → Option Text
get_device serial [] = none
get_device serial ((k, v) ∷ devices) =
    if same_text k serial then some v else get_device serial devices

abbrev add_columns : List Text → Devices → Devices
add_columns [] devices = devices
add_columns (serial ∷ []) devices = devices
add_columns (serial ∷ state ∷ rest) devices = put_device serial state devices

unfoldable pub add_lines : List Text → Devices → Devices
unfolding put_device
add_lines [] devices = devices
add_lines (line ∷ lines) devices = add_lines lines (add_columns (split_words (strip line)) devices)

abbrev tail_of : List Text → List Text
tail_of [] = []
tail_of (l ∷ ls) = ls

unfoldable pub parse_adb_devices : Text → Devices
unfolding add_lines lines_from
parse_adb_devices output = add_lines (tail_of (splitlines output)) []

abbrev pub android_package : Text
android_package = codes "dev.faisal.pinetimecompanion"

pub record Snapshot : Type 0 where
  pub serial : Text
  pub model : Text
  pub android_sdk : Text
  pub watch_address : Option Text
  pub bluetooth_evidence : List Text

abbrev is_blank : Text → Bool
is_blank t = same_text (strip t) []

-- AdbHardware(serial)
abbrev pub make_adb : Text → Result ValueError Text
make_adb serial = if is_blank serial then err empty_serial else ok serial

abbrev pub succeeded : Completed → Bool
succeeded r = elim r.returncode [ pos n ↦ n == 0 | negsuc n ↦ false ]

abbrev pub is_device : Option Text → Bool
is_device none = false
is_device (some state) = same_text state (codes "device")

abbrev pub demand : {W : Type 0} → Bool → HardwareError → Exec W Failure (Unit {0})
demand true e = pure tt
demand false e = raise (hardware e)

module _ {W : Type 0} (runner : Runner W) (unicode : Unicode) (serial : Text) where
  -- `_run_adb`
  abbrev pub run_adb : List Text → Exec W Failure Completed
  run_adb arguments = calling (runner (codes "adb" ∷ codes "-s" ∷ serial ∷ arguments))

  -- `_run`
  unfoldable pub run : List Text → Exec W Failure Text
  run arguments = do
    r ← run_adb arguments
    if succeeded r then pure r.stdout else raise (hardware adb_failed)

  unfoldable pub verify : Exec W Failure (Unit {0})
  unfolding run get_device parse_adb_devices
  verify = do
    r ← calling (runner (codes "adb" ∷ codes "devices" ∷ []))
    demand (succeeded r) adb_unavailable
    demand (is_device (get_device serial (parse_adb_devices r.stdout))) adb_not_ready
    _ ← run (codes "shell" ∷ codes "pm" ∷ codes "path" ∷ android_package ∷ [])
    pure tt

  unfoldable pub launch_app : Exec W Failure (Unit {0})
  unfolding verify
  launch_app = do
    verify
    _ ← run (
        codes "shell"
        ∷ codes "monkey"
        ∷ codes "-p"
        ∷ android_package
        ∷ codes "-c"
        ∷ codes "android.intent.category.LAUNCHER"
        ∷ codes "1"
        ∷ [])
    pure tt

  unfoldable pub open_bluetooth_settings : Exec W Failure (Unit {0})
  unfolding verify
  open_bluetooth_settings = do
    verify
    _ ← run (
        codes "shell"
        ∷ codes "am"
        ∷ codes "start"
        ∷ codes "-a"
        ∷ codes "android.settings.BLUETOOTH_SETTINGS"
        ∷ [])
    pure tt

  -- watch_address.casefold() if watch_address else None
  abbrev folded_address : Option Text → Option Text
  folded_address none = none
  folded_address (some []) = none
  folded_address (some (c ∷ cs)) = some (unicode.casefold (c ∷ cs))

  abbrev mentions : Option Text → Text → Bool
  mentions none line = false
  mentions (some address) line = contains address line

  abbrev is_selected : Option Text → Text → Bool
  is_selected address folded =
      contains (codes "enabled:") folded
      || contains (codes "state:") folded
      || mentions address folded

  unfoldable pub select_lines : Option Text → List Text → List Text
  select_lines address [] = []
  select_lines address (line ∷ lines) =
      let rest = select_lines address lines in
      if is_selected address (unicode.casefold line) then strip line ∷ rest else rest

  unfoldable pub snapshot : Option Text → Exec W Failure Snapshot
  unfolding verify select_lines
  snapshot watch_address = do
    verify
    sdk ← run (codes "shell" ∷ codes "getprop" ∷ codes "ro.build.version.sdk" ∷ [])
    model ← run (codes "shell" ∷ codes "getprop" ∷ codes "ro.product.model" ∷ [])
    bluetooth ← run (codes "shell" ∷ codes "dumpsys" ∷ codes "bluetooth_manager" ∷ [])
    pure (record {
      serial = serial;
      model = strip model;
      android_sdk = strip sdk;
      watch_address = watch_address;
      bluetooth_evidence = select_lines (folded_address watch_address) (splitlines bluetooth);
    })
