-- ===== src/Hardware/Soak/Ends.antt =====
-- The rounds of an observation come to an end.
use pinetime_dev_tools.Prelude.{
  ℕ, zero, suc, ◌+◌, ◌<◌, ◌≤◌, List, [], Option, String, leb, ◌≢◌, ap, Bool-cases, inl, inr, arith,
}
use pinetime_dev_tools.Prelude.Result.{Result, ok, err, map_err}
use pinetime_dev_tools.Prelude.State.{Exec, gets, continue, ◌>>=◌, ◌>>◌}
use pinetime_dev_tools.Hardware.{
  Outside, Failure, outside, no_fuel, value, ValueError, BleEndpoint, Unicode,
}
use pinetime_dev_tools.Hardware.Ble.{adapter_of}
use pinetime_dev_tools.Hardware.Observation.{
  Scanner, Detection, Sample, Samples, pair_of, add_pair, rest, observe_loop, observe_pair,
  check_observation,
}

-- A scan takes time, and neither a pause nor the callback turns the clock back.
pub record Ticks {W : Type 0} (scanner : Scanner W) (scan_window : ℕ)
    (on_sample : Sample × Sample → Exec W Failure (Unit {0})) : Type 0 where
  pub scan_takes :
      (a : Option String) (w : W) → scanner.now w < scanner.now (scanner.scan scan_window a w).1
  pub sleep_keeps : (t : ℕ) (w : W) → scanner.now w ≤ scanner.now (scanner.sleep t w)
  pub sample_keeps : (x : Sample × Sample) (w : W) → scanner.now w ≤ scanner.now (on_sample x w).1
  pub sample_ends : (x : Sample × Sample) (w : W) → (on_sample x w).0 ≢ err no_fuel

Ended : {W A : Type 0} → Result Failure A × W → Type 0
Ended r = r.0 ≢ err no_fuel

module _ {W : Type 0} (scanner : Scanner W) (unicode : Unicode) (candidate baseline : BleEndpoint)
    (interval scan_window : ℕ) (on_sample : Sample × Sample → Exec W Failure (Unit {0}))
    (law : Ticks scanner scan_window on_sample) where
  abbrev found : List Detection → Sample × Sample
  found ds = pair_of scanner unicode candidate baseline interval scan_window ds

  -- The rest of a round that began at `start`, if what comes behind it ends.
  module _ (again : Samples → Exec W Failure Samples) (start deadline : ℕ)
      (again_ends : (n : Samples) (w : W) (mid : ℕ)
        → start < mid
        → mid < deadline
        → mid ≤ scanner.now w
        → Ended (again n w)) where
    abbrev end_round : Samples → ℕ → Exec W Failure Samples
    end_round next now =
        rest scanner unicode candidate baseline interval scan_window again next start deadline now

    end_ends :
        (next : Samples) (w : W) → start < scanner.now w → Ended (end_round next (scanner.now w) w)
    unfolding Ended
    end_ends next w later = elim (Bool-cases (leb deadline (scanner.now w))) [
      | inl over ↦ rw over (λ e. cc)
      | inr on ↦
          rw on (again_ends next _ (scanner.now w) later (ground arith) (law.sleep_keeps _ w))
    ]

    sampled_ends :
        (next : Samples) (r : Result Failure (Unit {0})) (w : W)
        → r ≢ err no_fuel
        → start < scanner.now w
        → Ended (continue r (λ _. gets scanner.now >>= end_round next) w)
    unfolding Ended
    sampled_ends next (ok u) w n later = end_ends next w later
    sampled_ends next (err e) w n later = λ k. n (ap as_unit k)
      where
        as_unit : Result Failure Samples → Result Failure (Unit {0})
        as_unit (ok x) = ok tt
        as_unit (err x) = err x

    scan_ends :
        (samples : Samples) (r : Result Outside (List Detection)) (w : W)
        → start < scanner.now w
        → Ended (
            continue
              (map_err outside r)
              (λ ds.
                on_sample (found ds)
                >> (gets scanner.now
                    >>= end_round (
                        add_pair scanner unicode candidate baseline interval scan_window samples
                          (found ds))))
              w)
    unfolding Ended
    scan_ends samples (err e) w later = λ k. cc
    scan_ends samples (ok ds) w later =
        sampled_ends
          (add_pair scanner unicode candidate baseline interval scan_window samples (found ds))
          (on_sample (found ds) w).0 (on_sample (found ds) w).1 (law.sample_ends (found ds) w)
          (omega (arith, law.sample_keeps (found ds) w))

  loop_ends :
      (fuel deadline : ℕ) (samples : Samples) (w : W)
      → deadline < scanner.now w + fuel
      → 1 ≤ fuel
      → Ended (
          observe_loop scanner unicode candidate baseline interval scan_window fuel deadline
            on_sample samples w)
  unfolding Ended observe_loop
  loop_ends zero deadline samples w h one = absurd (omega arith)
  loop_ends (suc fuel) deadline samples w h one =
      let (r, v) = scanner.scan scan_window (adapter_of candidate) w in
      scan_ends
        (observe_loop scanner unicode candidate baseline interval scan_window fuel deadline
          on_sample)
        (scanner.now w) deadline
        (λ n u mid before more later. loop_ends fuel deadline n u (omega arith) (omega arith))
        samples r v (law.scan_takes (adapter_of candidate) w)

-- While the clock runs on in each scan, and neither a pause nor the callback turns it back, an
-- observation ends: the rounds never use up their fuel, which is one for each millisecond of the
-- duration and one more.
pub observe_pair-Ended :
    {W : Type 0} (scanner : Scanner W) (unicode : Unicode) (candidate baseline : BleEndpoint)
    (interval scan_window duration : ℕ) (on_sample : Sample × Sample → Exec W Failure (Unit {0}))
    (w : W)
    → Ticks scanner scan_window on_sample
    → (observe_pair scanner unicode candidate baseline interval scan_window duration on_sample w).0
      ≢ err no_fuel
unfolding observe_pair Ended
observe_pair-Ended scanner unicode candidate baseline interval scan_window duration on_sample w
      law =
    go (check_observation candidate baseline duration interval scan_window)
  where
    go :
        (r : Result ValueError (Unit {0}))
        → (continue
            (map_err value r)
            (λ _. gets (λ s. scanner.now s + duration) >>= λ deadline.
              observe_loop scanner unicode candidate baseline interval scan_window
                (suc duration)
                deadline
                on_sample
                ([], []))
            w).0
          ≢ err no_fuel
    go (err e) = λ k. cc
    go (ok u) =
        loop_ends scanner unicode candidate baseline interval scan_window on_sample law
          (suc duration) (scanner.now w + duration) ([], []) w (omega arith) (omega arith)
