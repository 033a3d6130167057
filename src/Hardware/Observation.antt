-- ===== src/Hardware/Observation.antt =====
-- `observe_pair` of src/ptlab/hardware.py. Times are milliseconds; timestamps are left out.
use Prim.Native.Nat.{min}
use pinetime_dev_tools.Prelude.{
  ℕ, zero, suc, ◌+◌, ◌-◌, List, [], ◌∷◌, ◌++◌, Option, none, some, Bool, true, false, not, ◌&&◌,
  ◌||◌, ltb, leb, ◌==◌, if◌then◌else◌, String, str_eq,
}
use pinetime_dev_tools.Prelude.Result.{Result, ok, err, map_err}
use pinetime_dev_tools.Prelude.State.{Exec, pure, lift, gets, modify, ◌>>=◌, ◌>>◌}
use pinetime_dev_tools.Prelude.Texts.{Text, codes}
use pinetime_dev_tools.Control.Response.{same_text}
use pinetime_dev_tools.Hardware.{
  Outside, ValueError, bad_durations, scan_window_exceeds, adapters_differ, Failure, value, no_fuel,
  calling, is_given, BleEndpoint, Unicode,
}
use pinetime_dev_tools.Hardware.Ble.{adapter_of}

abbrev same_option : Option String → Option String → Bool
same_option none none = true
same_option none (some t) = false
same_option (some s) none = false
same_option (some s) (some t) = str_eq s t

abbrev pub same_endpoint : BleEndpoint → BleEndpoint → Bool
same_endpoint a b =
    same_option a.address b.address && same_option a.name b.name && same_option a.adapter b.adapter

-- One call of `detected`: the device, and the two names it is known by.
pub record Detection : Type 0 where
  pub address : String
  pub local_name : Option String
  pub device_name : Option String

pub record Sample : Type 0 where
  pub visible : Bool
  pub address : Option String
  pub name : Option String

-- A scan's session, and the clock. A scan reports what was detected while it was open.
pub record Scanner (W : Type 0) : Type 0 where
  pub scan : ℕ → Option String → Exec W Outside (List Detection)
  pub now : W → ℕ
  pub sleep : ℕ → W → W

abbrev text_of : Option String → Text
text_of none = []
text_of (some s) = codes s

-- Whether a detection is of an endpoint.
unfoldable pub matches : Unicode → BleEndpoint → Detection → Bool
matches unicode e d =
    (is_given e.address
      && same_text (unicode.casefold (codes d.address)) (unicode.casefold (text_of e.address)))
    || (is_given e.name && (same_option e.name d.local_name || same_option e.name d.device_name))

-- found.get(label): the last detection of the endpoint.
unfoldable pub last_match : Unicode → BleEndpoint → List Detection → Option Detection
unfolding matches
last_match unicode e [] = none
last_match unicode e (d ∷ ds) = elim (last_match unicode e ds) [
  | some x ↦ some x
  | none ↦ if matches unicode e d then some d else none
]

abbrev pub sample_of : BleEndpoint → Option Detection → Sample
sample_of e none = record { visible = false; address = e.address; name = e.name }
sample_of e (some d) = record { visible = true; address = some d.address; name = d.device_name }

abbrev pub Samples : Type 0
Samples = List Sample × List Sample

-- The checks of `observe_pair`.
unfoldable pub check_observation :
    BleEndpoint → BleEndpoint → ℕ → ℕ → ℕ → Result ValueError (Unit {0})
check_observation candidate baseline duration interval scan_window =
    if duration == 0 || interval == 0 || scan_window == 0
    then err bad_durations
    else if ltb interval scan_window
    then err scan_window_exceeds
    else if not (same_option candidate.adapter baseline.adapter)
    then err adapters_differ
    else ok tt

module _ {W : Type 0} (scanner : Scanner W) (unicode : Unicode) (candidate baseline : BleEndpoint)
    (interval scan_window : ℕ) where
  -- min(max(0.0, interval - (now - started)), deadline - now), behind the deadline's test.
  abbrev pub pause : ℕ → ℕ → ℕ → ℕ
  pause started deadline now = min (interval - (now - started)) (deadline - now)

  abbrev pub pair_of : List Detection → Sample × Sample
  pair_of ds = (
    sample_of candidate (last_match unicode candidate ds),
    sample_of baseline (last_match unicode baseline ds),
  )

  abbrev pub add_pair : Samples → Sample × Sample → Samples
  add_pair (cs, bs) (c, b) = (cs ++ c ∷ [], bs ++ b ∷ [])

  -- The end of a round.
  abbrev pub rest :
      (Samples → Exec W Failure Samples) → Samples → ℕ → ℕ → ℕ → Exec W Failure Samples
  rest again next started deadline now =
      if leb deadline now
      then pure next
      else (modify (scanner.sleep (pause started deadline now)) >> again next)

  -- The `while True` loop, on fuel for its rounds: the test of the deadline comes behind a round,
  -- and the clock is read once for the test and the pause.
  unfoldable pub observe_loop :
      ℕ → ℕ → (Sample × Sample → Exec W Failure (Unit {0})) → Samples → Exec W Failure Samples
  unfolding last_match
  observe_loop zero deadline on_sample samples s = (err no_fuel, s)
  observe_loop (suc fuel) deadline on_sample samples s =
      let started = scanner.now s in
      let again = observe_loop fuel deadline on_sample in
      (do
        detections ← calling (scanner.scan scan_window (adapter_of candidate))
        on_sample (pair_of detections)
        now ← gets scanner.now
        rest again (add_pair samples (pair_of detections)) started deadline now)
        s

  -- A scan takes at least a millisecond, so one round for each millisecond is enough.
  unfoldable pub observe_pair :
      ℕ → (Sample × Sample → Exec W Failure (Unit {0})) → Exec W Failure Samples
  unfolding check_observation observe_loop
  observe_pair duration on_sample = do
    lift (map_err value (check_observation candidate baseline duration interval scan_window))
    deadline ← gets (λ s. scanner.now s + duration)
    observe_loop (suc duration) deadline on_sample ([], [])
