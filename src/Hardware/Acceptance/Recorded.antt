-- ===== src/Hardware/Acceptance/Recorded.antt =====
-- What a run of an acceptance plan records.
use pinetime_dev_tools.Prelude.{
  ℕ, ◌+◌, List, [], ◌∷◌, ◌++◌, append-nil, append_assoc, Option, none, some, Bool, true, false, not,
  ◌&&◌, if◌then◌else◌, String, str_eq, ◌≡◌, refl, sym, ap, subst, ◌∙◌, Bool-cases, inl, inr,
}
use pinetime_dev_tools.Prelude.Result.{Result, ok, err, map_err}
use pinetime_dev_tools.Prelude.State.{lift, bind_ran, pair_value, pair_result}
use pinetime_dev_tools.Hardware.{Failure, value, make_endpoint}
use pinetime_dev_tools.Hardware.Contract.{CharacteristicContract}
use pinetime_dev_tools.Hardware.Ble.{probe}
use pinetime_dev_tools.Hardware.Ble.Probe.{Verified, probe-Verified}
use pinetime_dev_tools.Hardware.Plan.{AcceptancePeer, AcceptancePlan}
use pinetime_dev_tools.Hardware.Adb.{Snapshot, make_adb, launch_app, snapshot}
use pinetime_dev_tools.Hardware.Acceptance.{
  Preflight, Status, pass, fail, skip, Evidence, probed, seen, failed_with, Step, running, at_step,
  peer_of, is_caught, Bench, report, checkpoint, ask, linux_step, android_step, is_linux, step_body,
  caught, guarded, is_pass, next_first, run_steps, serial_or_empty, address_text, looked_up,
}

-- What the evidence of a step must be. A Linux peer passes only by a probe that was checked, and
-- that had to see the unpaired read rejected as long as no Linux probe had passed. An Android
-- peer's status is the operator's, beside a snapshot. A step that raised fails.
abbrev pub EvidenceFits : Bool → AcceptancePeer → Status → Evidence → Type 0
EvidenceFits first peer pass (probed r) =
    (is_linux peer ≡ true) × Verified true first peer.allow_eviction r
EvidenceFits first peer fail (probed r) = ⊥
EvidenceFits first peer skip (probed r) = ⊥
EvidenceFits first peer status (seen s) = is_linux peer ≡ false
EvidenceFits first peer fail (failed_with e) = is_caught e ≡ true
EvidenceFits first peer pass (failed_with e) = ⊥
EvidenceFits first peer skip (failed_with e) = ⊥

pub record StepFits (peers : List AcceptancePeer) (first : Bool) (index : ℕ) (label : String)
    (s : Step) : Type 0 where
  pub peer : AcceptancePeer
  pub is_peer : peer_of label peers ≡ some peer
  pub index_is : s.index ≡ index
  pub label_is : s.peer ≡ label
  pub kind_is : s.kind ≡ peer.kind
  pub evidence_fits : EvidenceFits first peer s.status s.evidence

ok_inj : {A : Type 0} (a b : A) → ◌≡◌ {A = Result Failure A} (ok a) (ok b) → a ≡ b
ok_inj a b e = cc

looked_up_ran :
    {W : Type 0} (label : String) (o : Option AcceptancePeer) (w v : W) (p : AcceptancePeer)
    → looked_up label o w ≡ (ok p, v)
    → o ≡ some p
looked_up_ran label none w v p h = cc
looked_up_ran label (some q) w v p h = ap some (pair_value q p w v h)

abbrev first_behind : Bool → Step → Bool
first_behind first s = first && not (str_eq s.kind "linux" && is_pass s.status)

-- One step for each label of a sequence, in its order, numbered from an index on.
abbrev pub Recorded : List AcceptancePeer → Bool → ℕ → List String → List Step → Type 0
Recorded peers first index [] [] = Unit
Recorded peers first index [] (s ∷ ss) = ⊥
Recorded peers first index (l ∷ ls) [] = ⊥
Recorded peers first index (l ∷ ls) (s ∷ ss) =
    StepFits peers first index l s × Recorded peers (first_behind first s) (index + 1) ls ss

module _ {W D C : Type 0} (bench : Bench W D C) (contract : CharacteristicContract)
    (plan : AcceptancePlan) (preflight : Preflight) where
  linux_fits :
      (peer : AcceptancePeer) (first : Bool) (w v : W) (r : Status × Evidence)
      → is_linux peer ≡ true
      → linux_step bench contract plan preflight peer first w ≡ (ok r, v)
      → EvidenceFits first peer r.0 r.1
  unfolding linux_step
  linux_fits peer first w v r on_linux h =
      let (endpoint, w₁, h₁, k₁) =
        bind_ran (lift (map_err value (make_endpoint peer.address peer.name peer.adapter))) _ w h in
      let (p, w₂, h₂, k₂) =
        bind_ran
          (probe bench.bleak bench.unicode contract 30000 endpoint true first peer.allow_eviction) _
          w₁ k₁ in
      let verified =
        probe-Verified bench.bleak bench.unicode contract 30000 endpoint true first
          peer.allow_eviction w₁ w₂ p h₂ in
      subst (λ x. EvidenceFits first peer x.0 x.1) (pair_value (pass, probed p) r w₂ v k₂)
        (on_linux, verified.0)

  seen_fits :
      (peer : AcceptancePeer) (first : Bool) (status : Status) (s : Snapshot)
      → is_linux peer ≡ false
      → EvidenceFits first peer status (seen s)
  seen_fits peer first pass s h = h
  seen_fits peer first fail s h = h
  seen_fits peer first skip s h = h

  android_fits :
      (index : ℕ) (label : String) (peer : AcceptancePeer) (first : Bool) (w v : W)
      (r : Status × Evidence)
      → is_linux peer ≡ false
      → android_step bench contract plan preflight index label peer w ≡ (ok r, v)
      → EvidenceFits first peer r.0 r.1
  unfolding android_step
  android_fits index label peer first w v r other h =
      let (adb, w₁, h₁, k₁) =
        bind_ran (lift (map_err value (make_adb (serial_or_empty peer.serial)))) _ w h in
      let (u, w₂, h₂, k₂) = bind_ran (launch_app bench.runner bench.unicode adb) _ w₁ k₁ in
      let (s, w₃, h₃, k₃) =
        bind_ran (snapshot bench.runner bench.unicode adb (address_text peer.address)) _ w₂ k₂ in
      let (status, w₄, h₄, k₄) =
        bind_ran (ask bench contract plan preflight (at_step index label plan.watch_label)) _ w₃
          k₃ in
      subst (λ x. EvidenceFits first peer x.0 x.1) (pair_value (status, seen s) r w₄ v k₄)
        (seen_fits peer first status s other)

  body_fits :
      (index : ℕ) (label : String) (peer : AcceptancePeer) (first : Bool) (w v : W)
      (r : Status × Evidence)
      → step_body bench contract plan preflight index label peer first w ≡ (ok r, v)
      → EvidenceFits first peer r.0 r.1
  body_fits index label peer first w v r h = elim (Bool-cases (is_linux peer)) [
    | inl on_linux ↦ linux_fits peer first w v r on_linux (rw on_linux at h)
    | inr other ↦ android_fits index label peer first w v r other (rw other at h)
  ]

  guarded_fits :
      (index : ℕ) (label : String) (peer : AcceptancePeer) (first : Bool) (w v : W)
      (r : Status × Evidence)
      → guarded (step_body bench contract plan preflight index label peer first) w ≡ (ok r, v)
      → EvidenceFits first peer r.0 r.1
  guarded_fits index label peer first w v r h =
      let body = step_body bench contract plan preflight index label peer first w in
      go body.0 refl (pair_result (caught body.0) (ok r) body.1 v h)
    where
      on_error :
          (e : Failure) (b : Bool)
          → is_caught e ≡ b
          → (if b then ok (fail, failed_with e) else err e) ≡ ok r
          → EvidenceFits first peer r.0 r.1
      on_error e true is h =
          subst (λ x. EvidenceFits first peer x.0 x.1) (ok_inj (fail, failed_with e) r h) is
      on_error e false is h = cc

      go :
          (q : Result Failure (Status × Evidence))
          → (step_body bench contract plan preflight index label peer first w).0 ≡ q
          → caught q ≡ ok r
          → EvidenceFits first peer r.0 r.1
      go (ok x) e k =
          subst (λ x. EvidenceFits first peer x.0 x.1) (ok_inj x r k)
            (body_fits index label peer first w _ x (
              ap (λ t. (t, (step_body bench contract plan preflight index label peer first w).1))
                e))
      go (err x) e k = on_error x (is_caught x) refl k

  -- What the loop appends to the steps that it was given.
  pub run_steps-Recorded :
      (labels : List String) (index : ℕ) (first : Bool) (steps out : List Step) (w v : W)
      → run_steps bench contract plan preflight labels index first steps w ≡ (ok out, v)
      → (ss : List Step) × (out ≡ steps ++ ss) × Recorded plan.peers first index labels ss
  unfolding run_steps
  run_steps-Recorded [] index first steps out w v h =
      ([], sym (pair_value steps out w v h) ∙ sym (append-nil steps), tt)
  run_steps-Recorded (l ∷ ls) index first steps out w v h =
      let (peer, w₁, h₁, k₁) = bind_ran (looked_up l (peer_of l plan.peers)) _ w h in
      let (o, w₂, h₂, k₂) =
        bind_ran (guarded (step_body bench contract plan preflight index l peer first)) _ w₁ k₁ in
      let s : Step = record {
        index = index;
        peer = l;
        kind = peer.kind;
        status = o.0;
        evidence = o.1;
      } in
      let next = steps ++ s ∷ [] in
      let (u, w₃, h₃, k₃) =
        bind_ran
          (checkpoint bench contract plan preflight
            (report bench contract plan preflight running next none))
          _ w₂ k₂ in
      let (ss, e, r) =
        run_steps-Recorded ls (index + 1) (next_first peer first o.0) next out w₃ v k₃ in
      let fits : StepFits plan.peers first index l s = record {
        peer = peer;
        is_peer = looked_up_ran l (peer_of l plan.peers) w w₁ peer h₁;
        index_is = refl;
        label_is = refl;
        kind_is = refl;
        evidence_fits = guarded_fits index l peer first w₁ w₂ o h₂;
      } in
      (s ∷ ss, e ∙ append_assoc steps (s ∷ []) ss, (fits, r))
