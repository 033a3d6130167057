-- ===== src/Hardware/Advertising/Observed.antt =====
-- How an observation of `observe_advertising` in src/ptlab/hardware.py ends.
use Prim.Native.Nat.{min}
use pinetime_dev_tools.Prelude.{
  ℕ, zero, suc, ◌+◌, ◌<◌, ◌≤◌, List, [], ◌∷◌, ◌++◌, Option, String, Bool, leb, ◌≡◌, ◌≢◌, ap, refl,
  Bool-cases, inl, inr, arith, true, false, if◌then◌else◌, none, some, append_assoc, append-nil,
  ◌-◌, sym, ◌∙◌,
}
use pinetime_dev_tools.Prelude.Result.{Result, ok, err, map_err}
use pinetime_dev_tools.Prelude.State.{Exec, gets, continue, ◌>>=◌, ◌>>◌}
use pinetime_dev_tools.Hardware.{
  Outside, Failure, no_fuel, value, ValueError, BleEndpoint, Unicode, calling, is_given,
}
use pinetime_dev_tools.Hardware.Contract.{CharacteristicContract}
use pinetime_dev_tools.Hardware.Ble.{Bleak, find, found, adapter_of}
use pinetime_dev_tools.Hardware.Observation.{Scanner, Sample}
use pinetime_dev_tools.Hardware.Advertising.{
  Attributes, sample_of, look, rest, observe_rounds, observe_advertising, check_times,
}

-- The samples that the callback has been given are those of `seen`. Looking for a device and
-- pausing give it none, and no call turns the clock back; a pause lasts as long as it says.
pub record Follows {W D C : Type 0} (bleak : Bleak W D C) (scanner : Scanner W)
    (seen : W → List Sample) (on_sample : Sample → Exec W Failure (Unit {0})) : Type 0 where
  pub address_quiet :
      (a : Option String) (t : ℕ) (b : Option String) (w : W)
      → let v = (bleak.find_device_by_address a t b w).1 in
        (seen v ≡ seen w) × (scanner.now w ≤ scanner.now v)
  pub name_quiet :
      (a : Option String) (t : ℕ) (b : Option String) (w : W)
      → let v = (bleak.find_device_by_name a t b w).1 in
        (seen v ≡ seen w) × (scanner.now w ≤ scanner.now v)
  pub sleep_quiet : (t : ℕ) (w : W) → seen (scanner.sleep t w) ≡ seen w
  pub sleep_lasts : (t : ℕ) (w : W) → scanner.now w + t ≤ scanner.now (scanner.sleep t w)
  pub given_once :
      (x : Sample) (w : W) → (on_sample x w).0 ≡ ok tt → seen (on_sample x w).1 ≡ seen w ++ x ∷ []
  pub given_keeps : (x : Sample) (w : W) → scanner.now w ≤ scanner.now (on_sample x w).1
  pub given_ends : (x : Sample) (w : W) → (on_sample x w).0 ≢ err no_fuel

-- How an observation that was to last until `deadline` ends, for a callback that had been given
-- the samples `before`.
abbrev pub Observed :
    {W : Type 0}
    → Scanner W
    → (W → List Sample)
    → ℕ
    → List Sample
    → Result Failure (List Sample) × W
    → Type 0
Observed scanner seen deadline before (ok samples, v) =
    (seen v ≡ before ++ samples) × (deadline ≤ scanner.now v) × (samples ≢ [])
Observed scanner seen deadline before (err x, v) = x ≢ no_fuel

not_empty : (xs : List Sample) (x : Sample) → xs ++ x ∷ [] ≢ []
not_empty [] x = λ e. cc
not_empty (y ∷ ys) x = λ e. cc

check_times-positive :
    (duration interval scan_window : ℕ)
    → check_times duration interval scan_window ≡ ok tt
    → 1 ≤ interval
unfolding check_times
check_times-positive duration interval scan_window h = ground arith

module _ {W D C : Type 0} (bleak : Bleak W D C) (scanner : Scanner W) (unicode : Unicode)
    (contract : CharacteristicContract) (timeout : ℕ) (attributes : Attributes D) (e : BleEndpoint)
    (interval scan_window : ℕ) (seen : W → List Sample)
    (on_sample : Sample → Exec W Failure (Unit {0}))
    (law : Follows bleak scanner seen on_sample) where
  abbrev Quiet : W → W → Type 0
  Quiet w v = (seen v ≡ seen w) × (scanner.now w ≤ scanner.now v)

  abbrev Looked : W → Result Failure Sample × W → Type 0
  Looked w r = Quiet w r.1 × (r.0 ≢ err no_fuel)

  abbrev sampled_find : Exec W Outside (Option D) → Exec W Failure Sample
  sampled_find call s =
      let (r, t) = (calling call >>= found bleak unicode contract timeout) s in
      sample_of bleak scanner unicode contract timeout attributes e interval scan_window r t

  sampled_find-Looked :
      (call : Exec W Outside (Option D)) (w : W)
      → Quiet w (call w).1
      → Looked w (sampled_find call w)
  sampled_find-Looked call w quiet = go (call w).0 (call w).1 quiet
    where
      go :
          (r : Result Outside (Option D)) (v : W)
          → Quiet w v
          → Looked w (sampled_find (λ _. (r, v)) w)
      go (ok none) v q = (q, λ k. cc)
      go (ok (some d)) v q = (q, λ k. cc)
      go (err x) v q = (q, λ k. cc)

  look-Looked :
      (w : W)
      → Looked w (look bleak scanner unicode contract timeout attributes e interval scan_window w)
  unfolding look find
  look-Looked w = go (is_given e.address)
    where
      go :
          (b : Bool)
          → Looked w (
              sampled_find
                (if b
                  then bleak.find_device_by_address e.address scan_window (adapter_of e)
                  else bleak.find_device_by_name e.name scan_window (adapter_of e))
                w)
      go true =
          sampled_find-Looked (bleak.find_device_by_address e.address scan_window (adapter_of e)) w
            (law.address_quiet e.address scan_window (adapter_of e) w)
      go false =
          sampled_find-Looked (bleak.find_device_by_name e.name scan_window (adapter_of e)) w
            (law.name_quiet e.name scan_window (adapter_of e) w)

  abbrev rounds : ℕ → ℕ → List Sample → Exec W Failure (List Sample)
  rounds fuel deadline =
      observe_rounds bleak scanner unicode contract timeout attributes e interval scan_window fuel
        deadline on_sample

  -- The rest of a round that began at `start`, if what comes behind it ends so.
  module _ (before samples : List Sample) (again : List Sample → Exec W Failure (List Sample))
      (start deadline : ℕ) (lasts : 1 ≤ interval)
      (again_ends : (n : List Sample) (w : W)
        → start < deadline
        → start < scanner.now w
        → seen w ≡ before ++ n
        → Observed scanner seen deadline before (again n w)) where
    abbrev end_round : List Sample → ℕ → Exec W Failure (List Sample)
    end_round next now =
        rest bleak scanner unicode contract timeout attributes e interval scan_window again next
          start deadline now

    end-Observed :
        (x : Sample) (w : W)
        → start ≤ scanner.now w
        → seen w ≡ before ++ (samples ++ x ∷ [])
        → Observed scanner seen deadline before (end_round (samples ++ x ∷ []) (scanner.now w) w)
    end-Observed x w later all_seen = elim (Bool-cases (leb deadline (scanner.now w))) [
      | inl over ↦ rw over (all_seen, ground arith, not_empty samples x)
      | inr on ↦
          let now = scanner.now w in
          let t = min (interval - (now - start)) (deadline - now) in
          let early : now < deadline = ground arith in
          let slept = law.sleep_lasts t w in
          rw on (
            again_ends (samples ++ x ∷ []) (scanner.sleep t w) (omega arith) (omega (arith, slept))
              (law.sleep_quiet t w ∙ all_seen))
    ]

    given-Observed :
        (x : Sample) (r : Result Failure (Unit {0})) (w : W)
        → r ≢ err no_fuel
        → start ≤ scanner.now w
        → (r ≡ ok tt → seen w ≡ before ++ (samples ++ x ∷ []))
        → Observed scanner seen deadline before
            (continue r (λ _. gets scanner.now >>= end_round (samples ++ x ∷ [])) w)
    given-Observed x (ok u) w n later all_seen = end-Observed x w later (all_seen refl)
    given-Observed x (err f) w n later all_seen = λ k. n (ap err k)

    looked-Observed :
        (r : Result Failure Sample) (w : W)
        → r ≢ err no_fuel
        → start ≤ scanner.now w
        → seen w ≡ before ++ samples
        → Observed scanner seen deadline before (
            continue r (λ x. on_sample x >> (gets scanner.now >>= end_round (samples ++ x ∷ []))) w)
    looked-Observed (err f) w n later all_seen = λ k. n (ap err k)
    looked-Observed (ok x) w n later all_seen =
        given-Observed x (on_sample x w).0 (on_sample x w).1 (law.given_ends x w)
          (omega (arith, law.given_keeps x w))
          (λ done.
            law.given_once x w done
            ∙ ap (λ l. l ++ x ∷ []) all_seen
            ∙ append_assoc before samples (x ∷ []))

  rounds-Observed :
      (before : List Sample) (fuel deadline : ℕ) (samples : List Sample) (w : W)
      → 1 ≤ interval
      → deadline < scanner.now w + fuel
      → 1 ≤ fuel
      → seen w ≡ before ++ samples
      → Observed scanner seen deadline before (rounds fuel deadline samples w)
  unfolding observe_rounds
  rounds-Observed before zero deadline samples w lasts h one all_seen = absurd (omega arith)
  rounds-Observed before (suc fuel) deadline samples w lasts h one all_seen =
      let ((same, later), n) = look-Looked w in
      looked-Observed before samples (rounds fuel deadline) (scanner.now w) deadline lasts
        (λ more u early past given.
          rounds-Observed before fuel deadline more u lasts (omega arith) (omega arith) given)
        _ _ n later (same ∙ all_seen)

-- Where looking for the device does not turn the clock back and a pause lasts as long as it says, an
-- observation of advertising ends: its rounds never use up their fuel. If it returns, it does so at
-- or behind the end of its duration, with at least one sample, and its samples are those that the
-- callback was given, each once and in this order.
pub observe_advertising-Observed :
    {W D C : Type 0} (bleak : Bleak W D C) (scanner : Scanner W) (unicode : Unicode)
    (contract : CharacteristicContract) (timeout : ℕ) (attributes : Attributes D) (e : BleEndpoint)
    (interval scan_window duration : ℕ) (seen : W → List Sample)
    (on_sample : Sample → Exec W Failure (Unit {0})) (w : W)
    → Follows bleak scanner seen on_sample
    → Observed scanner seen (scanner.now w + duration) (seen w) (
        observe_advertising bleak scanner unicode contract timeout attributes e interval scan_window
          duration on_sample w)
unfolding observe_advertising
observe_advertising-Observed bleak scanner unicode contract timeout attributes e interval
      scan_window duration seen on_sample w law =
    go (check_times duration interval scan_window) refl
  where
    go :
        (r : Result ValueError (Unit {0}))
        → check_times duration interval scan_window ≡ r
        → Observed scanner seen (scanner.now w + duration) (seen w) (
            continue
              (map_err value r)
              (λ _. gets (λ s. scanner.now s + duration) >>= λ deadline.
                observe_rounds bleak scanner unicode contract timeout attributes e interval
                  scan_window
                  (suc duration)
                  deadline
                  on_sample
                  [])
              w)
    go (err x) k = λ j. cc
    go (ok u) k =
        rounds-Observed bleak scanner unicode contract timeout attributes e interval scan_window
          seen on_sample law (seen w) (suc duration) (scanner.now w + duration) [] w
          (check_times-positive duration interval scan_window k) (omega arith) (omega arith)
          (sym (append-nil (seen w)))
