-- ===== src/Scenario/Reported.antt =====
-- What a run of a scenario reports.
use pinetime_dev_tools.Prelude.{
  ℕ, List, [], ◌∷◌, ◌++◌, Option, none, some, true, false, String, length, all, ◌≡◌, ◌≢◌, ◌↔◌, ◌⊎◌,
  inl, inr, refl, sym, ap, subst, ◌∙◌, Bool-cases, arith,
}
use pinetime_dev_tools.Prelude.Int.{ℤ}
use pinetime_dev_tools.Prelude.Result.{Result, ok, err}
use pinetime_dev_tools.Prelude.State.{bind_ran, pair_value}
use pinetime_dev_tools.Scenario.{
  Status, running, passed, failed, skipped, timed_out, Raised, scenario_skip, scenario_timeout,
  assertion_error, other_exception, Assertion, Context, RunResult, Services, in_world,
  ScenarioDefinition, count_failed, verdict, run_started, simulator_started, chosen,
  scenario_deadline, run_body, outcome_of, outcome_events, result_of, finish, exit_code, closing,
  run_scenario,
}

-- The outcomes that a status stands for: passed and failed may stand for a scenario that returned.
abbrev pub StatusFits : Status → Option Raised → ℕ → Type 0
StatusFits running e failures = ⊥
StatusFits passed e failures = (e ≡ none) × (failures ≡ 0)
StatusFits failed none failures = failures ≢ 0
StatusFits failed (some (assertion_error name)) failures = Unit
StatusFits failed (some (other_exception x)) failures = Unit
StatusFits failed (some (scenario_skip reason)) failures = ⊥
StatusFits failed (some scenario_timeout) failures = ⊥
StatusFits skipped e failures = (reason : String) × (e ≡ some (scenario_skip reason))
StatusFits timed_out e failures = e ≡ some scenario_timeout

pub record Reported (code : ℕ) (r : RunResult) : Type 0 where
  pub code_is : (code ≡ 0) ↔ ((r.status ≡ passed) ⊎ (r.status ≡ skipped))
  pub status_fits : StatusFits r.status r.error r.failure_count
  pub counts :
      (made : List Assertion) × (r.check_count ≡ length made)
      × (r.failure_count ≡ count_failed made)

never_true : false ≡ true → ⊥
never_true e = cc

all-count_failed :
    (made : List Assertion) → all (λ a. a.is_passed) made ≡ true → count_failed made ≡ 0
unfolding count_failed
all-count_failed [] h = refl
all-count_failed (a ∷ made) h = elim (Bool-cases a.is_passed) [
  | inl held ↦ simp held (all-count_failed made (simp held at h))
  | inr broken ↦ absurd (never_true (simp broken at h))
]

some-count_failed :
    (made : List Assertion) → all (λ a. a.is_passed) made ≡ false → count_failed made ≢ 0
unfolding count_failed
some-count_failed [] h = cc
some-count_failed (a ∷ made) h = elim (Bool-cases a.is_passed) [
  | inl held ↦ simp held (some-count_failed made (simp held at h))
  | inr broken ↦ simp broken (λ e. absurd (omega (arith, e)))
]

verdict-StatusFits : (made : List Assertion) → StatusFits (verdict made) none (count_failed made)
verdict-StatusFits made = elim (Bool-cases (all (λ a. a.is_passed) made)) [
  | inl held ↦ rw held (refl, all-count_failed made held)
  | inr broken ↦ rw broken (some-count_failed made broken)
]

code_lem : (s : Status) → (exit_code s ≡ 0) ↔ ((s ≡ passed) ⊎ (s ≡ skipped))
code_lem running = ((λ h. cc), (λ h. elim h [ inl e ↦ cc | inr e ↦ cc ]))
code_lem passed = ((λ h. inl refl), (λ h. refl))
code_lem failed = ((λ h. cc), (λ h. elim h [ inl e ↦ cc | inr e ↦ cc ]))
code_lem skipped = ((λ h. inr refl), (λ h. refl))
code_lem timed_out = ((λ h. cc), (λ h. elim h [ inl e ↦ cc | inr e ↦ cc ]))

module _ {W : Type 0} (services : Services W) where
  run_body-verdict :
      (definition : ScenarioDefinition W) (timeout : Option ℤ) (c d : Context W) (s : Status)
      → run_body services definition timeout c ≡ (ok s, d)
      → verdict d.assertions ≡ s
  unfolding run_body
  run_body-verdict definition timeout c d s h =
      let (u, c₁, h₁, k₁) = bind_ran (in_world (services.start definition.headless)) _ c h in
      let noted = record c₁ { events = c₁.events ++ simulator_started ∷ [] } in
      let (u, c₂, h₂, k₂) =
        bind_ran
          (scenario_deadline services (chosen timeout definition.timeout) definition.function) _
          noted k₁ in
      sym (ap (λ x. verdict x.1.assertions) k₂) ∙ pair_value (verdict c₂.assertions) s c₂ d k₂

  -- What the outcome of the body, in a context, stands for.
  outcome_fits :
      (r : Result Raised Status) (made : List Assertion)
      → ((s : Status) → r ≡ ok s → verdict made ≡ s)
      → StatusFits (outcome_of r).0 (outcome_of r).1 (count_failed made)
  outcome_fits (ok s) made h =
      subst (λ x. StatusFits x none (count_failed made)) (h s refl) (verdict-StatusFits made)
  outcome_fits (err (scenario_skip reason)) made h = (reason, refl)
  outcome_fits (err scenario_timeout) made h = refl
  outcome_fits (err (assertion_error name)) made h = tt
  outcome_fits (err (other_exception e)) made h = tt

  closing-Reported :
      (r : Result Raised Status) (d t : Context W) (o : ℕ × RunResult)
      → ((s : Status) → r ≡ ok s → verdict d.assertions ≡ s)
      → closing services r d ≡ (ok o, t)
      → Reported o.0 o.1
  closing-Reported r d t o h e =
      let (u, c₁, h₁, k₁) =
        bind_ran (finish services (result_of (outcome_of r) d.assertions) d.assertions) _
          (record d { events = d.events ++ outcome_events r }) e in
      let report = result_of (outcome_of r) d.assertions in
      let fits : Reported (exit_code (outcome_of r).0) report = record {
        code_is = code_lem (outcome_of r).0;
        status_fits = outcome_fits r d.assertions h;
        counts = (d.assertions, refl, refl);
      } in
      subst (λ x. Reported x.0 x.1) (pair_value (exit_code (outcome_of r).0, report) o c₁ t k₁) fits

-- A run that returns reports an exit code of 0 just when its status is passed or skipped; it has
-- left the status running; its counts are those of one list of assertions, of which none failed
-- when it passed and some failed when it failed without an exception; it is skipped just for a
-- ScenarioSkip, and timed out just for a ScenarioTimeout.
pub run_scenario-Reported :
    {W : Type 0} (services : Services W) (definition : ScenarioDefinition W) (timeout : Option ℤ)
    (w : W) (t : Context W) (o : ℕ × RunResult)
    → run_scenario services definition timeout w ≡ (ok o, t)
    → Reported o.0 o.1
unfolding run_scenario
run_scenario-Reported services definition timeout w t o h =
    let (u, c₁, h₁, k₁) =
      bind_ran (in_world (services.write_result (result_of (running, none) []))) _
        (record { world = w; assertions = []; events = [] }) h in
    let c₂ = record c₁ { events = c₁.events ++ run_started ∷ [] } in
    let (r, d) = run_body services definition timeout c₂ in
    closing-Reported services r d t o
      (λ s e. run_body-verdict services definition timeout c₂ d s (ap (λ x. (x, d)) e)) k₁
