-- ===== src/Hardware/Soak/Measured.antt =====
-- What the readings of `run_soak` in src/ptlab/hardware.py leave in its result.
use pinetime_dev_tools.Prelude.{
  ℕ, ◌+◌, [], ◌∷◌, ◌++◌, Option, none, some, length, length-append, ◌≡◌, refl, sym, ap, subst, ◌∙◌,
}
use pinetime_dev_tools.Prelude.Result.{Result, ok, err}
use pinetime_dev_tools.Prelude.State.{Exec, continue, bind_ran}
use pinetime_dev_tools.Hardware.{Outside, Failure, BleEndpoint, Unicode}
use pinetime_dev_tools.Hardware.Contract.{CharacteristicContract}
use pinetime_dev_tools.Hardware.Ble.{Bleak, read_battery}
use pinetime_dev_tools.Hardware.Observation.{Scanner, Sample, Samples, observe_pair}
use pinetime_dev_tools.Hardware.Soak.{
  SoakResult, Session, fresh, session_scanner, change, save, start_candidate, start_baseline,
  end_candidate, end_baseline, read_into, with_sample, sampled, measure,
}
use pinetime_dev_tools.Hardware.Soak.Kept.{Kept, pair-Kept}

-- The two samples of a round go to the two lists.
abbrev pub SameCount : SoakResult → Type 0
SameCount r = length r.candidate.advertising_samples ≡ length r.baseline.advertising_samples

abbrev pub Starts : ℕ → ℕ → SoakResult → Type 0
Starts a b r =
    (r.candidate.battery_start ≡ some a) × (r.baseline.battery_start ≡ some b) × SameCount r

module _ {W : Type 0} where
  save_ran :
      (callback : Option (SoakResult → Exec W Outside (Unit {0}))) (s t : Session W) (u : Unit {0})
      → save callback s ≡ (ok u, t)
      → s.result ≡ t.result
  save_ran none s t u h = ap (λ x. x.1.result) h
  save_ran (some c) s t u h = ap (λ x. x.1.result) h

  pub save_keeps :
      (P : SoakResult → Type 0) (cb : Option (SoakResult → Exec W Outside (Unit {0})))
      (s : Session W)
      → P s.result
      → P (save cb s).1.result
  save_keeps P none s h = h
  save_keeps P (some c) s h = h

module _ {W D C : Type 0} (bleak : Bleak W D C) (unicode : Unicode)
    (contract : CharacteristicContract) (timeout : ℕ) where
  -- The battery of a watch is read in a world, and what the reading leaves.
  abbrev pub Reads : BleEndpoint → ℕ → W → Type 0
  Reads e n w = (read_battery bleak unicode contract timeout e w).0 ≡ ok n

  abbrev pub behind_reading : BleEndpoint → W → W
  behind_reading e w = (read_battery bleak unicode contract timeout e w).1

  -- The candidate's battery and then the baseline's, read one directly behind the other.
  pub record BothRead (candidate baseline : BleEndpoint) (readings : ℕ × ℕ) (from to : W)
      : Type 0 where
    pub candidate_read : Reads candidate readings.0 from
    pub baseline_read : Reads baseline readings.1 (behind_reading candidate from)
    pub left : to ≡ behind_reading baseline (behind_reading candidate from)

  -- The readings of the two watches: the first at `before`, and the last up to `after`.
  pub record Measured (candidate baseline : BleEndpoint) (before after : W) (r : SoakResult)
      : Type 0 where
    pub first : ℕ × ℕ
    pub last : ℕ × ℕ
    pub begun : W
    pub resumed : W
    pub first_read : BothRead candidate baseline first before begun
    pub last_read : BothRead candidate baseline last resumed after
    pub starts : Starts first.0 first.1 r
    pub ends : (r.candidate.battery_end ≡ some last.0) × (r.baseline.battery_end ≡ some last.1)

module _ {W D C : Type 0} (bleak : Bleak W D C) (scanner : Scanner W) (unicode : Unicode)
    (contract : CharacteristicContract) (timeout : ℕ) (candidate baseline : BleEndpoint)
    (callback : Option (SoakResult → Exec W Outside (Unit {0}))) where
  sampled_kept :
      (a b : ℕ) (x : Sample × Sample) (s : Session W)
      → Starts a b s.result
      → Starts a b
          (sampled bleak scanner unicode contract timeout candidate baseline callback x s).1.result
  sampled_kept a b (x, y) s (h, k, e) =
      let r = record s.result {
        candidate = with_sample x s.result.candidate;
        baseline = with_sample y s.result.baseline;
      } in
      let xs = s.result.candidate.advertising_samples in
      let ys = s.result.baseline.advertising_samples in
      let count : length (xs ++ x ∷ []) ≡ length (ys ++ y ∷ []) =
        length-append xs (x ∷ []) ∙ ap (λ n. n + 1) e ∙ sym (length-append ys (y ∷ [])) in
      save_keeps (Starts a b) callback (record s { result = r }) (h, k, count)

  read_into_ran :
      (e : BleEndpoint) (f : ℕ → SoakResult → SoakResult) (s t : Session W) (u : Unit {0})
      → read_into bleak scanner unicode contract timeout candidate baseline callback e f s
        ≡ (ok u, t)
      → (b : ℕ) × (f b s.result ≡ t.result)
        × Reads bleak unicode contract timeout e b s.world
        × (t.world ≡ behind_reading bleak unicode contract timeout e s.world)
  unfolding read_into
  read_into_ran e f s t u h = go (read_battery bleak unicode contract timeout e s.world).0 refl h
    where
      w : W
      w = behind_reading bleak unicode contract timeout e s.world

      go :
          (r : Result Failure ℕ)
          → (read_battery bleak unicode contract timeout e s.world).0 ≡ r
          → continue r (λ b. change (f b)) (record s { world = w }) ≡ (ok u, t)
          → (b : ℕ) × (f b s.result ≡ t.result)
            × Reads bleak unicode contract timeout e b s.world
            × (t.world ≡ w)
      go (ok b) e k = (b, ap (λ x. x.1.result) k, e, ap (λ x. x.1.world) (sym k))
      go (err x) e k = cc

  -- Two readings in a row.
  both_read :
      (f g : ℕ → SoakResult → SoakResult) (s u t : Session W) (x y : Unit {0})
      → read_into bleak scanner unicode contract timeout candidate baseline callback candidate f s
        ≡ (ok x, u)
      → read_into bleak scanner unicode contract timeout candidate baseline callback baseline g u
        ≡ (ok y, t)
      → (readings : ℕ × ℕ) × (g readings.1 (f readings.0 s.result) ≡ t.result)
        × BothRead bleak unicode contract timeout candidate baseline readings s.world t.world
  both_read f g s u t x y h k =
      let (a, e, reads, left) = read_into_ran candidate f s u x h in
      let (b, e', reads', left') = read_into_ran baseline g u t y k in
      (
        (a, b),
        ap (g b) e ∙ e',
        record {
          candidate_read = reads;
          baseline_read = subst (Reads bleak unicode contract timeout baseline b) left reads';
          left = left' ∙ ap (behind_reading bleak unicode contract timeout baseline) left;
        },
      )

  observe_ran :
      (a b duration interval scan_window : ℕ) (s t : Session W) (x : Samples)
      → observe_pair
          (session_scanner scanner)
          unicode
          candidate
          baseline
          interval
          scan_window
          duration
          (sampled bleak scanner unicode contract timeout candidate baseline callback)
          s
        ≡ (ok x, t)
      → Starts a b s.result
      → Starts a b t.result
  unfolding Kept
  observe_ran a b duration interval scan_window s t x h k =
      subst (λ y. Starts a b y.1.result) h
        (pair-Kept (Starts a b) scanner unicode candidate baseline interval scan_window
          (sampled bleak scanner unicode contract timeout candidate baseline callback)
          (sampled_kept a b) duration s k)

  pub measure-Measured :
      (duration interval scan_window : ℕ) (s t : Session W) (u : Unit {0})
      → measure bleak scanner unicode contract timeout candidate baseline callback duration interval
          scan_window s
        ≡ (ok u, t)
      → s.result ≡ fresh
      → Measured bleak unicode contract timeout candidate baseline s.world t.world t.result
  unfolding measure
  measure-Measured duration interval scan_window s t u h is_fresh =
      let read : BleEndpoint → (ℕ → SoakResult → SoakResult) → Exec (Session W) Failure (Unit {0}) =
        read_into bleak scanner unicode contract timeout candidate baseline callback in
      let on_sample = sampled bleak scanner unicode contract timeout candidate baseline callback in
      let (u, s₁, h₁, k₁) = bind_ran (read candidate start_candidate) _ s h in
      let (u, s₂, h₂, k₂) = bind_ran (read baseline start_baseline) _ s₁ k₁ in
      let (u, s₃, h₃, k₃) = bind_ran (save callback) _ s₂ k₂ in
      let (x, s₄, h₄, k₄) =
        bind_ran
          (observe_pair (session_scanner scanner) unicode candidate baseline interval scan_window
            duration on_sample)
          _ s₃ k₃ in
      let (u, s₅, h₅, k₅) = bind_ran (read candidate end_candidate) _ s₄ k₄ in
      let (first, written, first_read) =
        both_read start_candidate start_baseline s s₁ s₂ tt tt h₁ h₂ in
      let (last, e, last_read) = both_read end_candidate end_baseline s₄ s₅ t tt tt h₅ k₅ in
      let from_fresh : start_baseline first.1 (start_candidate first.0 fresh) ≡ s₃.result =
        ap (λ r. start_baseline first.1 (start_candidate first.0 r)) (sym is_fresh)
        ∙ written
        ∙ save_ran callback s₂ s₃ tt h₃ in
      let starts =
        observe_ran first.0 first.1 duration interval scan_window s₃ s₄ x h₄
          (subst (Starts first.0 first.1) from_fresh (refl, refl, refl)) in
      subst (Measured bleak unicode contract timeout candidate baseline s.world t.world) e (record {
        first = first;
        last = last;
        begun = s₂.world;
        resumed = s₄.world;
        first_read = first_read;
        last_read = last_read;
        starts = starts;
        ends = (refl, refl);
      })
