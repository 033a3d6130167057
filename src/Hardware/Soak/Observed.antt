-- ===== src/Hardware/Soak/Observed.antt =====
-- What a soak that returns reports.
use pinetime_dev_tools.Prelude.{
  ℕ, List, [], ◌∷◌, ◌++◌, Option, none, some, ap, true, if◌then◌else◌, all, All, ◌≡◌, ◌↔◌, refl,
  sym, ap₂, subst, ◌∙◌, Bool-cases, inl, inr,
}
use pinetime_dev_tools.Prelude.Int.{sub_ℕ}
use pinetime_dev_tools.Prelude.Result.{Result, ok, err, map_err}
use pinetime_dev_tools.Prelude.State.{Exec, raise, lift, gets, continue, bind_ran, pair_value}
use pinetime_dev_tools.Hardware.{Outside, Failure, value, BleEndpoint, Unicode}
use pinetime_dev_tools.Hardware.Contract.{CharacteristicContract}
use pinetime_dev_tools.Hardware.Ble.{Bleak}
use pinetime_dev_tools.Hardware.Observation.{Scanner, Sample}
use pinetime_dev_tools.Hardware.Soak.{
  passed, failed, SoakResult, Session, fresh, save, conclude, with_delta, finished, measure,
  soak_body, recovered, guarded, check_watches, begin_soak, run_soak, delta_of,
}
use pinetime_dev_tools.Hardware.Soak.Measured.{
  SameCount, Measured, BothRead, save_keeps, measure-Measured,
}

-- What a checkpoint leaves of the world.
abbrev pub saved :
    {W : Type 0} → Option (SoakResult → Exec W Outside (Unit {0})) → SoakResult → W → W
saved none r w = w
saved (some callback) r w = (callback r w).1

module _ {W D C : Type 0} (bleak : Bleak W D C) (unicode : Unicode)
    (contract : CharacteristicContract) (timeout : ℕ) (candidate baseline : BleEndpoint)
    (callback : Option (SoakResult → Exec W Outside (Unit {0}))) where
  -- A report of a soak that was completed from `before` to `after`: the two watches were read right
  -- behind the first checkpoint, and again right in front of the last; each watch's delta is its last
  -- reading less its first, there are as many samples of the one watch as of the other, and the soak
  -- passed just when the watch was visible in every sample.
  pub record SoakFits (before after : W) (r : SoakResult) : Type 0 where
    pub first : ℕ × ℕ
    pub last : ℕ × ℕ
    pub begun : W
    pub resumed : W
    pub ended : W
    pub first_read :
        BothRead bleak unicode contract timeout candidate baseline first
          (saved callback fresh before)
          begun
    pub last_read : BothRead bleak unicode contract timeout candidate baseline last resumed ended
    pub closed : after ≡ saved callback r ended
    pub candidate_delta : r.candidate.battery_delta ≡ some (sub_ℕ last.0 first.0)
    pub baseline_delta : r.baseline.battery_delta ≡ some (sub_ℕ last.1 first.1)
    pub candidate_read :
        (r.candidate.battery_start ≡ some first.0) × (r.candidate.battery_end ≡ some last.0)
    pub baseline_read :
        (r.baseline.battery_start ≡ some first.1) × (r.baseline.battery_end ≡ some last.1)
    pub same_count : SameCount r
    pub verdict :
        (r.status ≡ passed)
        ↔ All
            (λ x. x.visible ≡ true)
            (r.candidate.advertising_samples ++ r.baseline.advertising_samples)

unequal : failed ≡ passed → ⊥
unequal e = cc

verdict_lem :
    (xs : List Sample)
    → ((if all (λ x. x.visible) xs then passed else failed) ≡ passed)
      ↔ All (λ x. x.visible ≡ true) xs
verdict_lem xs = (forth xs, back xs)
  where
    forth :
        (ys : List Sample)
        → (if all (λ x. x.visible) ys then passed else failed) ≡ passed
        → All (λ x. x.visible ≡ true) ys
    forth [] h = tt
    forth (y ∷ ys) h = elim (Bool-cases y.visible) [
      | inl v ↦ (v, forth ys (simp v at h))
      | inr v ↦ absurd (unequal (simp v at h))
    ]

    back :
        (ys : List Sample)
        → All (λ x. x.visible ≡ true) ys
        → (if all (λ x. x.visible) ys then passed else failed) ≡ passed
    back [] h = refl
    back (y ∷ ys) (h, hs) = rw h (back ys hs)

abbrev conclusion : SoakResult → SoakResult
conclusion r =
    finished (record r { candidate = with_delta r.candidate; baseline = with_delta r.baseline })

module _ {W D C : Type 0} (bleak : Bleak W D C) (scanner : Scanner W) (unicode : Unicode)
    (contract : CharacteristicContract) (timeout : ℕ) (candidate baseline : BleEndpoint)
    (callback : Option (SoakResult → Exec W Outside (Unit {0}))) where
  abbrev Fits : W → W → SoakResult → Type 0
  Fits = SoakFits bleak unicode contract timeout candidate baseline callback

  closing :
      (before from to : W) (r : SoakResult)
      → from ≡ saved callback fresh before
      → Measured bleak unicode contract timeout candidate baseline from to r
      → Fits before (saved callback (conclusion r) to) (conclusion r)
  closing before from to r start m = record {
    first = m.first;
    last = m.last;
    begun = m.begun;
    resumed = m.resumed;
    ended = to;
    first_read =
        subst (λ w. BothRead bleak unicode contract timeout candidate baseline m.first w m.begun)
          start m.first_read;
    last_read = m.last_read;
    closed = refl;
    candidate_delta = ap₂ delta_of m.ends.0 m.starts.0;
    baseline_delta = ap₂ delta_of m.ends.1 m.starts.1;
    candidate_read = (m.starts.0, m.ends.0);
    baseline_read = (m.starts.1, m.ends.1);
    same_count = m.starts.2;
    verdict = verdict_lem (r.candidate.advertising_samples ++ r.baseline.advertising_samples);
  }

  save-saved :
      (cb : Option (SoakResult → Exec W Outside (Unit {0}))) (s : Session W)
      → (save cb s).1.world ≡ saved cb s.result s.world
  save-saved none s = refl
  save-saved (some c) s = refl

  concluded :
      (s t : Session W) (r : SoakResult)
      → conclude bleak scanner unicode contract timeout candidate baseline callback s ≡ (ok r, t)
      → (conclusion s.result ≡ r) × (t.world ≡ saved callback (conclusion s.result) s.world)
  unfolding conclude
  concluded s t r h =
      let (same, moved) =
        on_saved (save callback after_change).0 (save callback after_change).1 h in
      (
        save_keeps (λ x. conclusion s.result ≡ x) callback after_change refl ∙ same,
        moved ∙ save-saved callback after_change,
      )
    where
      after_change : Session W
      after_change = record s { result = conclusion s.result }

      on_saved :
          (q : Result Failure (Unit {0})) (v : Session W)
          → continue q (λ _. gets (λ x. x.result)) v ≡ (ok r, t)
          → (v.result ≡ r) × (t.world ≡ v.world)
      on_saved (ok u) v k = (
        pair_value v.result r v t k,
        ap (λ (x : Result Failure SoakResult × Session W). x.1.world) (sym k),
      )
      on_saved (err x) v k = cc

  begun :
      (s t : Session W) (u : Unit {0})
      → begin_soak bleak scanner unicode contract timeout candidate baseline callback s ≡ (ok u, t)
      → (t.result ≡ fresh) × (t.world ≡ saved callback fresh s.world)
  unfolding begin_soak
  begun s t u h = (
    subst (λ x. x.1.result ≡ fresh) h
        (save_keeps (λ x. x ≡ fresh) callback (record s { result = fresh }) refl),
    subst (λ x. x.1.world ≡ saved callback fresh s.world) h
        (save-saved callback (record s { result = fresh })),
  )

  guarded_ran :
      (m : Exec (Session W) Failure SoakResult) (s t : Session W) (r : SoakResult)
      → guarded bleak scanner unicode contract timeout candidate baseline callback m s ≡ (ok r, t)
      → m s ≡ (ok r, t)
  guarded_ran m s t r h = go (m s).0 (m s).1 refl h
    where
      on_saved :
          (e : Failure) (q : Result Failure (Unit {0})) (v : Session W)
          → continue q (λ _. raise e) v ≡ (ok r, t)
          → m s ≡ (ok r, t)
      on_saved e (ok u) v k = cc
      on_saved e (err x) v k = cc

      go :
          (q : Result Failure SoakResult) (v : Session W)
          → m s ≡ (q, v)
          → recovered bleak scanner unicode contract timeout candidate baseline callback q v
            ≡ (ok r, t)
          → m s ≡ (ok r, t)
      go (ok x) v e k = e ∙ k
      go (err x) v e k =
          on_saved x
            (save callback
              (record v { result = record v.result { status = failed; error = some x } })).0
            _ k

  body-SoakFits :
      (duration interval scan_window : ℕ) (before : W) (s t : Session W) (r : SoakResult)
      → soak_body bleak scanner unicode contract timeout candidate baseline callback duration
          interval scan_window s
        ≡ (ok r, t)
      → (s.result ≡ fresh) × (s.world ≡ saved callback fresh before)
      → Fits before t.world r
  unfolding soak_body
  body-SoakFits duration interval scan_window before s t r h (is_fresh, start) =
      let (u, s₁, h₁, k₁) =
        bind_ran
          (measure bleak scanner unicode contract timeout candidate baseline callback duration
            interval scan_window)
          _ s h in
      let m =
        measure-Measured bleak scanner unicode contract timeout candidate baseline callback duration
          interval scan_window s s₁ u h₁ is_fresh in
      let (same, moved) = concluded s₁ t r k₁ in
      subst (Fits before t.world) same (
        subst (λ w. Fits before w (conclusion s₁.result)) (sym moved)
          (closing before s.world s₁.world s₁.result start m))

-- A soak that returns reports what `SoakFits` says: the batteries of the candidate and the baseline
-- were read, in this order, right behind the first checkpoint and again right in front of the last;
-- each watch's delta is its last reading less its first; there are as many samples of the one watch
-- as of the other; and it passed just when the watch was visible in every sample.
pub run_soak-SoakFits :
    {W D C : Type 0} (bleak : Bleak W D C) (scanner : Scanner W) (unicode : Unicode)
    (contract : CharacteristicContract) (timeout : ℕ) (candidate baseline : BleEndpoint)
    (callback : Option (SoakResult → Exec W Outside (Unit {0}))) (duration interval scan_window : ℕ)
    (s t : Session W) (r : SoakResult)
    → run_soak bleak scanner unicode contract timeout candidate baseline callback duration interval
        scan_window s
      ≡ (ok r, t)
    → SoakFits bleak unicode contract timeout candidate baseline callback s.world t.world r
unfolding run_soak
run_soak-SoakFits {W = W} bleak scanner unicode contract timeout candidate baseline callback
      duration interval scan_window s t r h =
    let body =
      soak_body bleak scanner unicode contract timeout candidate baseline callback duration interval
        scan_window in
    let (u, s₁, h₁, k₁) =
      bind_ran
        (lift (
          map_err value
            (check_watches bleak scanner unicode contract timeout candidate baseline callback)))
        _ s h in
    let (u, s₂, h₂, k₂) =
      bind_ran (begin_soak bleak scanner unicode contract timeout candidate baseline callback) _ s₁
        k₁ in
    let (is_fresh, start) =
      begun bleak scanner unicode contract timeout candidate baseline callback s₁ s₂ tt h₂ in
    body-SoakFits bleak scanner unicode contract timeout candidate baseline callback duration
      interval scan_window s.world s₂ t r
      (guarded_ran bleak scanner unicode contract timeout candidate baseline callback body s₂ t r
        k₂)
      (
        is_fresh,
        start
            ∙ ap (λ (x : Result Failure (Unit {0}) × Session W). saved callback fresh x.1.world)
                (sym h₁),
      )
