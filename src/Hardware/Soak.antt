-- ===== src/Hardware/Soak.antt =====
-- `run_soak` of src/ptlab/hardware.py. Times are milliseconds; the timestamps and the fixed texts of a
-- result are left out.
pub mod Kept
pub mod Measured
pub mod Observed
pub mod Ends
use Prim.Native.Nat.{min}
use pinetime_dev_tools.Prelude.{
  ℕ, zero, suc, ◌+◌, ◌-◌, List, [], ◌∷◌, ◌++◌, Option, none, some, Bool, true, false, not, ◌&&◌,
  ◌||◌, ltb, leb, ◌==◌, if◌then◌else◌, String, str_eq, all, any,
}
use pinetime_dev_tools.Prelude.Int.{ℤ, pos, sub_ℕ}
use pinetime_dev_tools.Prelude.Result.{Result, ok, err, map_err}
use pinetime_dev_tools.Prelude.State.{Exec, pure, raise, lift, gets, modify, ◌>>=◌, ◌>>◌}
use pinetime_dev_tools.Prelude.Texts.{Text, codes}
use pinetime_dev_tools.Control.Response.{same_text}
use pinetime_dev_tools.Hardware.{
  Outside, ValueError, same_watches, bad_durations, scan_window_exceeds, adapters_differ, Failure,
  hardware, value, outside, no_fuel, calling, is_given, BleEndpoint, Unicode,
}
use pinetime_dev_tools.Hardware.Contract.{CharacteristicContract}
use pinetime_dev_tools.Hardware.Ble.{Bleak, read_battery, adapter_of}
use pinetime_dev_tools.Hardware.Observation.{
  Detection, Sample, Samples, add_pair, check_observation, last_match, matches, observe_loop,
  observe_pair, pair_of, pause, rest, same_endpoint, sample_of, Scanner,
}

pub record Watch : Type 0 where
  pub battery_start : Option ℕ
  pub battery_end : Option ℕ
  pub battery_delta : Option ℤ
  pub advertising_samples : List Sample

pub data SoakStatus : Type 0 where
  running passed failed : SoakStatus

pub record SoakResult : Type 0 where
  pub status : SoakStatus
  pub candidate : Watch
  pub baseline : Watch
  pub error : Option Failure

-- The world, and the dict `result`, which the callback of the samples writes too.
pub record Session (W : Type 0) : Type 0 where
  pub world : W
  pub result : SoakResult

abbrev pub unseen : Watch
unseen = record {
  battery_start = none;
  battery_end = none;
  battery_delta = none;
  advertising_samples = [];
}

abbrev pub fresh : SoakResult
fresh = record { status = running; candidate = unseen; baseline = unseen; error = none }

module _ {W : Type 0} where
  -- What only touches the world.
  abbrev pub in_world {ℓ κ} : {E : Type ℓ} {A : Type κ} → Exec W E A → Exec (Session W) E A
  in_world m s = let (r, w) = m s.world in (r, record s { world = w })

  abbrev pub session_scanner : Scanner W → Scanner (Session W)
  session_scanner sc = record {
    scan = λ window adapter. in_world (sc.scan window adapter);
    now = λ s. sc.now s.world;
    sleep = λ t s. record s { world = sc.sleep t s.world };
  }

  abbrev pub change : (SoakResult → SoakResult) → Exec (Session W) Failure (Unit {0})
  change f = modify (λ s. record s { result = f s.result })

  -- checkpoint(result), where one was given.
  abbrev pub save :
      Option (SoakResult → Exec W Outside (Unit {0})) → Exec (Session W) Failure (Unit {0})
  save none = pure tt
  save (some callback) = λ s. in_world (calling (callback s.result)) s

abbrev pub delta_of : Option ℕ → Option ℕ → Option ℤ
delta_of (some e) (some s) = some (sub_ℕ e s)
delta_of (some e) none = none
delta_of none s = none

abbrev with_start : ℕ → Watch → Watch
with_start b w = record w { battery_start = some b }

abbrev with_end : ℕ → Watch → Watch
with_end b w = record w { battery_end = some b }

-- result["candidate"]["battery_start"] = b, and the like.
abbrev pub start_candidate : ℕ → SoakResult → SoakResult
start_candidate b r = record r { candidate = with_start b r.candidate }

abbrev pub start_baseline : ℕ → SoakResult → SoakResult
start_baseline b r = record r { baseline = with_start b r.baseline }

abbrev pub end_candidate : ℕ → SoakResult → SoakResult
end_candidate b r = record r { candidate = with_end b r.candidate }

abbrev pub end_baseline : ℕ → SoakResult → SoakResult
end_baseline b r = record r { baseline = with_end b r.baseline }

abbrev pub with_delta : Watch → Watch
with_delta w = record w { battery_delta = delta_of w.battery_end w.battery_start }

abbrev pub with_sample : Sample → Watch → Watch
with_sample x w = record w { advertising_samples = w.advertising_samples ++ x ∷ [] }

abbrev pub all_visible : SoakResult → Bool
all_visible r =
    all (λ x. x.visible) (r.candidate.advertising_samples ++ r.baseline.advertising_samples)

abbrev pub finished : SoakResult → SoakResult
finished r = record r { status = if all_visible r then passed else failed }

module _ {W D C : Type 0} (bleak : Bleak W D C) (scanner : Scanner W) (unicode : Unicode)
    (contract : CharacteristicContract) (timeout : ℕ) (candidate baseline : BleEndpoint)
    (callback : Option (SoakResult → Exec W Outside (Unit {0}))) where
  -- A battery is read and written down.
  unfoldable pub read_into :
      BleEndpoint → (ℕ → SoakResult → SoakResult) → Exec (Session W) Failure (Unit {0})
  unfolding read_battery
  read_into e write = do
    b ← in_world (read_battery bleak unicode contract timeout e)
    change (write b)

  -- `sampled`
  abbrev pub sampled : Sample × Sample → Exec (Session W) Failure (Unit {0})
  sampled (c, b) = do
    change (λ r. record r {
      candidate = with_sample c r.candidate;
      baseline = with_sample b r.baseline;
    })
    save callback

  -- The batteries and the samples, up to the last reading.
  unfoldable pub measure : ℕ → ℕ → ℕ → Exec (Session W) Failure (Unit {0})
  unfolding read_into observe_pair
  measure duration interval scan_window = do
    read_into candidate start_candidate
    read_into baseline start_baseline
    save callback
    _ ←
        observe_pair (session_scanner scanner) unicode candidate baseline interval scan_window
          duration sampled
    read_into candidate end_candidate
    read_into baseline end_baseline

  -- The end of the body: the deltas, the status, the last checkpoint.
  unfoldable pub conclude : Exec (Session W) Failure SoakResult
  conclude = do
    change (λ r.
        finished
          (record r { candidate = with_delta r.candidate; baseline = with_delta r.baseline }))
    save callback
    gets (λ s. s.result)

  -- The body of the `try`.
  unfoldable pub soak_body : ℕ → ℕ → ℕ → Exec (Session W) Failure SoakResult
  unfolding measure conclude
  soak_body duration interval scan_window = do measure duration interval scan_window; conclude

  -- The `except` clause: the error is written down, and raised again.
  abbrev pub on_failure : Failure → Exec (Session W) Failure SoakResult
  on_failure e = do
    change (λ r. record r { status = failed; error = some e })
    save callback
    raise e

  abbrev pub recovered : Result Failure SoakResult → Exec (Session W) Failure SoakResult
  recovered (ok r) = pure r
  recovered (err e) = on_failure e

  abbrev pub guarded : Exec (Session W) Failure SoakResult → Exec (Session W) Failure SoakResult
  guarded m s = let (r, t) = m s in recovered r t

  abbrev pub check_watches : Result ValueError (Unit {0})
  check_watches = if same_endpoint candidate baseline then err same_watches else ok tt

  -- The first result is written down.
  unfoldable pub begin_soak : Exec (Session W) Failure (Unit {0})
  begin_soak = do change (λ r. fresh); save callback

  unfoldable pub run_soak : ℕ → ℕ → ℕ → Exec (Session W) Failure SoakResult
  unfolding begin_soak soak_body
  run_soak duration interval scan_window = do
    lift (map_err value check_watches)
    begin_soak
    guarded (soak_body duration interval scan_window)
