-- ===== src/Hardware/Soak/Kept.antt =====
-- What an observation keeps of a result, if the callback of its samples keeps it.
use pinetime_dev_tools.Prelude.{ℕ, zero, suc, ◌+◌, List, [], leb, Bool-cases, inl, inr}
use pinetime_dev_tools.Prelude.Result.{Result, ok, err, map_err}
use pinetime_dev_tools.Prelude.State.{Exec, lift, gets, continue, ◌>>=◌, ◌>>◌}
use pinetime_dev_tools.Hardware.{Failure, value, calling, BleEndpoint, Unicode}
use pinetime_dev_tools.Hardware.Ble.{adapter_of}
use pinetime_dev_tools.Hardware.Observation.{
  Scanner, Detection, Sample, Samples, pair_of, add_pair, rest, observe_loop, observe_pair,
  check_observation,
}
use pinetime_dev_tools.Hardware.Soak.{SoakResult, Session, session_scanner}

module _ {W : Type 0} (P : SoakResult → Type 0) where
  -- An action keeps what holds of the result.
  unfoldable pub Kept : {A : Type 0} → Exec (Session W) Failure A → Type 0
  Kept m = (s : Session W) → P s.result → P (m s).1.result

  Kept-bind :
      {A B : Type 0} (m : Exec (Session W) Failure A) (f : A → Exec (Session W) Failure B)
      → Kept m
      → ((a : A) → Kept (f a))
      → Kept (m >>= f)
  unfolding Kept
  Kept-bind {A = A} m f km kf s h = go (m s).0 (m s).1 (km s h)
    where
      go : (r : Result Failure A) (t : Session W) → P t.result → P (continue r f t).1.result
      go (ok a) t k = kf a t k
      go (err e) t k = k

  module _ (scanner : Scanner W) (unicode : Unicode) (candidate baseline : BleEndpoint)
      (interval scan_window : ℕ) (on_sample : Sample × Sample → Exec (Session W) Failure (Unit {0}))
      (keeps : (x : Sample × Sample) → Kept (on_sample x)) where
    abbrev sc : Scanner (Session W)
    sc = session_scanner scanner

    abbrev found : List Detection → Sample × Sample
    found ds = pair_of sc unicode candidate baseline interval scan_window ds

    module _ (again : Samples → Exec (Session W) Failure Samples)
        (again_kept : (n : Samples) → Kept (again n)) (start deadline : ℕ) where
      abbrev end_round : Samples → ℕ → Exec (Session W) Failure Samples
      end_round next now =
          rest sc unicode candidate baseline interval scan_window again next start deadline now

      abbrev sample_round : Samples → List Detection → Exec (Session W) Failure Samples
      sample_round samples ds =
          on_sample (found ds)
          >> (gets sc.now
              >>= end_round
                  (add_pair sc unicode candidate baseline interval scan_window samples (found ds)))

      end-Kept : (next : Samples) (now : ℕ) → Kept (end_round next now)
      unfolding Kept
      end-Kept next now s h = elim (Bool-cases (leb deadline now)) [
        | inl over ↦ rw over h
        | inr on ↦ rw on (again_kept next _ h)
      ]

      round-Kept :
          (samples : Samples)
          → Kept (calling (sc.scan scan_window (adapter_of candidate)) >>= sample_round samples)
      unfolding Kept
      round-Kept samples =
          Kept-bind (calling (sc.scan scan_window (adapter_of candidate))) (sample_round samples)
            (λ t k. k)
            (λ ds.
              Kept-bind (on_sample (found ds))
                (λ _.
                  gets sc.now
                  >>= end_round (
                      add_pair sc unicode candidate baseline interval scan_window samples
                        (found ds)))
                (keeps (found ds))
                (λ u.
                  Kept-bind (gets sc.now)
                    (end_round (
                      add_pair sc unicode candidate baseline interval scan_window samples
                        (found ds)))
                    (λ t k. k)
                    (λ now.
                      end-Kept
                        (add_pair sc unicode candidate baseline interval scan_window samples
                          (found ds))
                        now)))

    loop-Kept :
        (fuel deadline : ℕ) (samples : Samples)
        → Kept (
            observe_loop sc unicode candidate baseline interval scan_window fuel deadline on_sample
              samples)
    unfolding Kept observe_loop
    loop-Kept zero deadline samples s h = h
    loop-Kept (suc fuel) deadline samples s h =
        round-Kept
          (observe_loop sc unicode candidate baseline interval scan_window fuel deadline on_sample)
          (loop-Kept fuel deadline) (sc.now s) deadline samples s h

    pub pair-Kept :
        (duration : ℕ)
        → Kept (observe_pair sc unicode candidate baseline interval scan_window duration on_sample)
    unfolding Kept observe_pair
    pair-Kept duration =
        Kept-bind
          (lift
            (map_err value (check_observation candidate baseline duration interval scan_window)))
          (λ _. gets (λ s. sc.now s + duration) >>= λ deadline.
            observe_loop sc unicode candidate baseline interval scan_window (suc duration) deadline
              on_sample ([], []))
          (λ t k. k)
          (λ _.
            Kept-bind (gets (λ s. sc.now s + duration))
              (λ deadline.
                observe_loop sc unicode candidate baseline interval scan_window (suc duration)
                  deadline on_sample ([], []))
              (λ t k. k) (λ deadline. loop-Kept (suc duration) deadline ([], [])))
