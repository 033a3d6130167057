-- ===== src/Hardware/Acceptance/Verdict.antt =====
-- The verdict of a run of an acceptance plan, and the battery that it starts with.
use mathlib.Core.Option
use pinetime_dev_tools.Prelude.{
  ℕ, ◌≤◌, List, [], ◌∷◌, ◌++◌, map, Option, none, some, true, if◌then◌else◌, All, ◌≡◌, ◌↔◌, refl,
  sym, ap, subst, Bool-cases, inl, inr, arith,
}
use pinetime_dev_tools.Prelude.Int.{ℤ, pos}
use pinetime_dev_tools.Prelude.Result.{Result, ok}
use pinetime_dev_tools.Prelude.State.{lift, bind_ran, pair_value}
use pinetime_dev_tools.Hardware.{Failure}
use pinetime_dev_tools.Hardware.Contract.{CharacteristicContract}
use pinetime_dev_tools.Hardware.Plan.{CapacityCheck, AcceptancePlan}
use pinetime_dev_tools.Hardware.Acceptance.{
  Preflight, acceptance_battery_preflight, Status, pass, fail, skip, Step, Overall, running, failed,
  incomplete, passed, CapacityResult, Report, at_capacity, has_status, overall_of, capacity_status,
  Bench, report, checkpoint, ask, run_steps, check_capacity_peers, run_plan, run_acceptance_plan,
}
use pinetime_dev_tools.Hardware.Acceptance.Recorded.{Recorded, run_steps-Recorded}

abbrev pub statuses_of : List Step → Option CapacityResult → List Status
statuses_of steps capacity = map (λ s. s.status) steps ++ capacity_status capacity

verdict_of : List Status → Overall
verdict_of statuses =
    if has_status fail statuses
    then failed
    else if has_status skip statuses
    then incomplete
    else passed

verdict_of-passed : (ss : List Status) → verdict_of ss ≡ passed → All (λ s. s ≡ pass) ss
unfolding verdict_of
verdict_of-passed [] h = tt
verdict_of-passed (pass ∷ ss) h = (refl, verdict_of-passed ss h)
verdict_of-passed (fail ∷ ss) h = cc
verdict_of-passed (skip ∷ ss) h = elim (Bool-cases (has_status fail ss)) [
  | inl f ↦ absurd (never (rw f at h))
  | inr n ↦ absurd (unfinished (rw n at h))
]
  where
    never : failed ≡ passed → ⊥
    never e = cc

    unfinished : incomplete ≡ passed → ⊥
    unfinished e = cc

passes : (ss : List Status) → All (λ s. s ≡ pass) ss → verdict_of ss ≡ passed
unfolding verdict_of
passes [] h = refl
passes (pass ∷ ss) (h, hs) = passes ss hs
passes (fail ∷ ss) (h, hs) = cc
passes (skip ∷ ss) (h, hs) = cc

-- What a report says of the plan that was run: one step for each of the plan's, the capacity check
-- if the plan has one, and passed just when each of these passed.
pub record RunFits (plan : AcceptancePlan) (r : Report) : Type 0 where
  pub recorded : Recorded plan.peers true 1 plan.sequence r.steps
  pub capacity_asked : Option.map (λ c. c.asked) r.capacity ≡ plan.capacity_check
  pub verdict : (r.status ≡ passed) ↔ All (λ s. s ≡ pass) (statuses_of r.steps r.capacity)

module _ {W D C : Type 0} (bench : Bench W D C) (contract : CharacteristicContract)
    (plan : AcceptancePlan) (preflight : Preflight) where
  capacity_asked_ran :
      (steps : List Step) (c : Option CapacityCheck) (w v : W) (r : Option CapacityResult)
      → check_capacity_peers bench contract plan preflight steps c w ≡ (ok r, v)
      → Option.map (λ x. x.asked) r ≡ c
  unfolding check_capacity_peers
  capacity_asked_ran steps none w v r h =
      ap (Option.map (λ x. x.asked)) (sym (pair_value none r w v h))
  capacity_asked_ran steps (some c) w v r h =
      let (status, w₁, h₁, k₁) =
        bind_ran (ask bench contract plan preflight (at_capacity c)) _ w h in
      let capacity : CapacityResult = record { asked = c; status = status } in
      let (u, w₂, h₂, k₂) =
        bind_ran
          (checkpoint bench contract plan preflight
            (report bench contract plan preflight running steps (some capacity)))
          _ w₁ k₁ in
      ap (Option.map (λ x. x.asked)) (sym (pair_value (some capacity) r w₂ v k₂))

  run_plan-RunFits :
      (w v : W) (r : Report) → run_plan bench contract plan preflight w ≡ (ok r, v) → RunFits plan r
  unfolding run_plan overall_of verdict_of
  run_plan-RunFits w v r h =
      let (u, w₁, h₁, k₁) =
        bind_ran
          (checkpoint bench contract plan preflight
            (report bench contract plan preflight running [] none))
          _ w h in
      let (steps, w₂, h₂, k₂) =
        bind_ran (run_steps bench contract plan preflight plan.sequence 1 true []) _ w₁ k₁ in
      let (capacity, w₃, h₃, k₃) =
        bind_ran (check_capacity_peers bench contract plan preflight steps plan.capacity_check) _ w₂
          k₂ in
      let final = report bench contract plan preflight (overall_of steps capacity) steps capacity in
      let (u, w₄, h₄, k₄) = bind_ran (checkpoint bench contract plan preflight final) _ w₃ k₃ in
      let (ss, e, recorded) =
        run_steps-Recorded bench contract plan preflight plan.sequence 1 true [] steps w₁ w₂ h₂ in
      let fits : RunFits plan final = record {
        recorded = subst (Recorded plan.peers true 1 plan.sequence) (sym e) recorded;
        capacity_asked = capacity_asked_ran steps plan.capacity_check w₂ w₃ capacity h₃;
        verdict =
            (verdict_of-passed (statuses_of steps capacity), passes (statuses_of steps capacity));
      } in
      subst (RunFits plan) (pair_value final r w₄ v k₄) fits

-- A run that returns a report had a battery in range, at least at the minimum, and the report fits
-- the plan: it has one step for each of the sequence, numbered from 1 in its order, at the peer
-- that has the label; a Linux step passed only by a checked probe, which had to see the unpaired
-- read rejected until a Linux probe had passed; a step that raised failed; the capacity check was
-- asked just when the plan has one; and the report is passed just when all of these passed.
pub run_acceptance-RunFits :
    {W D C : Type 0} (bench : Bench W D C) (contract : Result Failure CharacteristicContract)
    (plan : AcceptancePlan) (percent voltage minimum : ℤ) (w v : W) (r : Report)
    → run_acceptance_plan bench contract plan percent voltage minimum w ≡ (ok r, v)
    → (p : Preflight) × (acceptance_battery_preflight percent voltage minimum ≡ ok p)
      × RunFits plan r
unfolding run_acceptance_plan
run_acceptance-RunFits bench contract plan percent voltage minimum w v r h =
    let (p, w₁, h₁, k₁) =
      bind_ran (lift (acceptance_battery_preflight percent voltage minimum)) _ w h in
    let (c, w₂, h₂, k₂) = bind_ran (lift contract) _ w₁ k₁ in
    (p, ap (λ x. x.0) h₁, run_plan-RunFits bench c plan p w₂ v r k₂)

-- The preflight passes just when the percentage is in 0..100, the voltage in 2500..5000 mV, the
-- minimum in 1..100, and the percentage at least the minimum.
pub preflight_accepts :
    (percent voltage minimum : ℕ)
    → (acceptance_battery_preflight (pos percent) (pos voltage) (pos minimum)
        ≡ ok (record {
          reported_percent = pos percent;
          reported_voltage_mv = pos voltage;
          minimum_percent = pos minimum;
        }))
      ↔ ((percent ≤ 100)
          × (2500 ≤ voltage)
          × (voltage ≤ 5000)
          × (1 ≤ minimum)
          × (minimum ≤ percent))
unfolding acceptance_battery_preflight
preflight_accepts percent voltage minimum = ((λ h. ground arith), (λ h. ground arith))
