-- ===== src/Hardware/Advertising.antt =====
-- `observe_advertising` of src/ptlab/hardware.py, with the clock of an observation in
-- milliseconds. The timestamps of the samples are left out.
pub mod Observed
use Prim.Native.Nat.{min}
use pinetime_dev_tools.Prelude.{
  ℕ, zero, suc, ◌+◌, ◌-◌, List, [], ◌∷◌, ◌++◌, Option, true, false, ◌||◌, ltb, leb, ◌==◌,
  if◌then◌else◌, String,
}
use pinetime_dev_tools.Prelude.Result.{Result, ok, err, map_err}
use pinetime_dev_tools.Prelude.State.{Exec, pure, raise, lift, gets, modify, ◌>>=◌, ◌>>◌}
use pinetime_dev_tools.Hardware.{
  HardwareError, ValueError, bad_durations, scan_window_exceeds, Failure, hardware, value, outside,
  key_error, no_fuel, BleEndpoint, Unicode,
}
use pinetime_dev_tools.Hardware.Contract.{CharacteristicContract}
use pinetime_dev_tools.Hardware.Ble.{Bleak, find}
use pinetime_dev_tools.Hardware.Observation.{Scanner, Sample}

-- getattr(device, "address", None) and getattr(device, "name", None)
pub record Attributes (D : Type 0) : Type 0 where
  pub address : D → Option String
  pub name : D → Option String

unfoldable pub check_times : ℕ → ℕ → ℕ → Result ValueError (Unit {0})
check_times duration interval scan_window =
    if duration == 0 || interval == 0 || scan_window == 0
    then err bad_durations
    else if ltb interval scan_window
    then err scan_window_exceeds
    else ok tt

module _ {W D C : Type 0} (bleak : Bleak W D C) (scanner : Scanner W) (unicode : Unicode)
    (contract : CharacteristicContract) (timeout : ℕ) (attributes : Attributes D) (e : BleEndpoint)
    (interval scan_window : ℕ) where
  -- The `except HardwareError` clause; other errors pass.
  abbrev pub absent : Failure → Exec W Failure Sample
  absent (hardware x) = pure (record { visible = false; address = e.address; name = e.name })
  absent (value x) = raise (value x)
  absent (outside x) = raise (outside x)
  absent (key_error x) = raise (key_error x)
  absent no_fuel = raise no_fuel

  abbrev pub sample_of : Result Failure D → Exec W Failure Sample
  sample_of (ok device) = pure (record {
    visible = true;
    address = attributes.address device;
    name = attributes.name device;
  })
  sample_of (err x) = absent x

  -- The `try` of a round.
  unfoldable pub look : Exec W Failure Sample
  unfolding find
  look s = let (r, t) = find bleak unicode contract timeout e scan_window s in sample_of r t

  -- The end of a round, which has read the clock.
  abbrev pub rest :
      (List Sample → Exec W Failure (List Sample))
      → List Sample
      → ℕ
      → ℕ
      → ℕ
      → Exec W Failure (List Sample)
  rest again samples started deadline now =
      if leb deadline now
      then pure samples
      else (modify (scanner.sleep (min (interval - (now - started)) (deadline - now)))
          >> again samples)

  -- The `while True` loop, on fuel for its rounds.
  unfoldable pub observe_rounds :
      ℕ → ℕ → (Sample → Exec W Failure (Unit {0})) → List Sample → Exec W Failure (List Sample)
  unfolding look
  observe_rounds zero deadline on_sample samples s = (err no_fuel, s)
  observe_rounds (suc fuel) deadline on_sample samples s =
      let started = scanner.now s in
      let again = observe_rounds fuel deadline on_sample in
      (do
        sample ← look
        on_sample sample
        now ← gets scanner.now
        rest again (samples ++ sample ∷ []) started deadline now)
        s

  -- A round and its pause take at least a millisecond, so one round for each millisecond of the
  -- duration is enough. Where the source has no callback, it is one that does nothing.
  unfoldable pub observe_advertising :
      ℕ → (Sample → Exec W Failure (Unit {0})) → Exec W Failure (List Sample)
  unfolding check_times observe_rounds
  observe_advertising duration on_sample = do
    lift (map_err value (check_times duration interval scan_window))
    deadline ← gets (λ s. scanner.now s + duration)
    observe_rounds (suc duration) deadline on_sample []
