-- ===== src/Sim/Launched.antt =====
-- How far a `Simulator.start` of src/ptlab/sim.py that returned has come: past its checks, its
-- display and its process.
use pinetime_dev_tools.Prelude.{
  ℕ, Option, ◌++◌, none, some, Bool, true, false, not, ◌||◌, ◌≡◌, refl, ◌∙◌,
}
use pinetime_dev_tools.Prelude.Int.{ℤ, is_positive}
use pinetime_dev_tools.Prelude.Result.{Result, ok, err}
use pinetime_dev_tools.Prelude.State.{bind_ran}
use pinetime_dev_tools.Processes.{terminate_process_groups, same_ℤ}
use pinetime_dev_tools.Sim.{
  SimState, SimError, not_built, zoom_too_small, bad_bridge_port, bad_control_port, same_ports,
  display_of_headless, Failure,
}
use pinetime_dev_tools.Sim.Machine.{Machine, Simulator, Desk, Action, binary, terminates}
use pinetime_dev_tools.Sim.Launch.{guarded, try_except}
use pinetime_dev_tools.Sim.Start.{
  StartOptions, require, port_or, control_port, create_layout, clean_up, Display, show, spawn,
  environment, pid_of, ref_of, settle, launch, is_none, is_port, start_with_ports, start_fresh,
}

module _ {W A : Type 0} (m : Machine W) where
  clean_up-raises :
      (sim xvfb : Option ℤ) (e : Failure) (s t : Desk W) (a : A)
      → clean_up m sim xvfb e s ≡ (ok a, t)
      → ⊥
  clean_up-raises sim xvfb e s t a h =
      let (x, u, ended, k) =
        bind_ran
          (terminates
            (terminate_process_groups m.system (ref_of "sim" sim ++ ref_of "xvfb" xvfb) 1000))
          _ s h in
      cc

  -- A body whose handler always raises returned only if it did so itself.
  try-ran :
      (body : Action W A) (sim xvfb : Option ℤ) (s t : Desk W) (a : A)
      → try_except m body (clean_up m sim xvfb) s ≡ (ok a, t)
      → body s ≡ (ok a, t)
  try-ran body sim xvfb s t a h = go (body s).0 (body s).1 refl h
    where
      go :
          (r : Result Failure A) (u : Desk W)
          → body s ≡ (r, u)
          → guarded m r (clean_up m sim xvfb) u ≡ (ok a, t)
          → body s ≡ (ok a, t)
      go (ok b) u e k = e ∙ k
      go (err x) u e k = absurd (clean_up-raises sim xvfb x u t a k)

module _ {W : Type 0} (m : Machine W) where
  require-ran :
      (b : Bool) (e : SimError) (s t : Desk W) (x : Unit {0})
      → require m b e s ≡ (ok x, t)
      → b ≡ true
  require-ran true e s t x h = refl
  require-ran false e s t x h = cc

  not-true : (b : Bool) → not b ≡ true → b ≡ false
  not-true true h = cc
  not-true false h = refl

  -- The display was shown and the simulator settled, behind ports that are valid and differ.
  pub record Launched (sim : Simulator) (options : StartOptions) (state : SimState) (after : Desk W)
      : Type 0 where
    pub bridge_port : ℤ
    pub control_port : ℤ
    pub shown : Display
    pub pid : ℤ
    pub at_show : Desk W
    pub from_show : Desk W
    pub at_settle : Desk W
    pub shows : show m sim options at_show ≡ (ok shown, from_show)
    pub settles :
        settle m sim options bridge_port control_port shown pid at_settle ≡ (ok state, after)
    pub bridge_valid : is_port bridge_port ≡ true
    pub control_valid : is_port control_port ≡ true
    pub differ : same_ℤ control_port bridge_port ≡ false

  launch-Launched :
      (sim : Simulator) (options : StartOptions) (bridge_port port : ℤ) (state : SimState)
      (s t : Desk W)
      → is_port bridge_port ≡ true
      → is_port port ≡ true
      → same_ℤ port bridge_port ≡ false
      → launch m sim options bridge_port port s ≡ (ok state, t)
      → Launched sim options state t
  unfolding launch
  launch-Launched sim options bridge_port port state s t bridge_valid control_valid differ h =
      let (shown, s₁, h₁, k₁) =
        bind_ran (try_except m (show m sim options) (clean_up m none none)) _ s h in
      let (pid, s₂, h₂, k₂) =
        bind_ran
          (try_except m (spawn m sim (environment shown) bridge_port port)
            (clean_up m none (pid_of shown)))
          _ s₁ k₁ in
      record {
        bridge_port = bridge_port;
        control_port = port;
        shown = shown;
        pid = pid;
        at_show = s;
        from_show = s₁;
        at_settle = s₂;
        shows = try-ran m (show m sim options) none none s s₁ shown h₁;
        settles =
            try-ran m (settle m sim options bridge_port port shown pid) (some pid) (pid_of shown) s₂
              t state k₂;
        bridge_valid = bridge_valid;
        control_valid = control_valid;
        differ = differ;
      }

  ports-Launched :
      (sim : Simulator) (options : StartOptions) (bridge_port port : ℤ) (state : SimState)
      (s t : Desk W)
      → is_port bridge_port ≡ true
      → start_with_ports m sim options bridge_port port s ≡ (ok state, t)
      → Launched sim options state t
  ports-Launched sim options bridge_port port state s t valid h =
      let (x₁, s₁, h₁, k₁) = bind_ran (require m (is_port port) bad_control_port) _ s h in
      let (x₂, s₂, h₂, k₂) =
        bind_ran (require m (not (same_ℤ port bridge_port)) same_ports) _ s₁ k₁ in
      let (x₃, s₃, h₃, k₃) =
        bind_ran (require m (not options.headless || is_none options.display) display_of_headless) _
          s₂ k₂ in
      let (y, u, hu, ku) = bind_ran (create_layout m sim.layout) _ s₃ k₃ in
      let differ = require-ran (not (same_ℤ port bridge_port)) _ s₁ s₂ x₂ h₂ in
      launch-Launched sim options bridge_port port state u t valid
        (require-ran (is_port port) _ s s₁ x₁ h₁) (not-true (same_ℤ port bridge_port) differ) ku

  pub start_fresh-Launched :
      (fuel : ℕ) (sim : Simulator) (options : StartOptions) (state : SimState) (s t : Desk W)
      → start_fresh m fuel sim options s ≡ (ok state, t)
      → Launched sim options state t
  unfolding start_fresh
  start_fresh-Launched fuel sim options state s t h =
      let (x₁, s₁, h₁, k₁) = bind_ran (require m (m.exists (binary sim) s.world) not_built) _ s h in
      let (x₂, s₂, h₂, k₂) =
        bind_ran (require m (is_positive options.zoom) zoom_too_small) _ s₁ k₁ in
      let (bridge_port, s₃, h₃, k₃) = bind_ran (port_or m options.bridge_port) _ s₂ k₂ in
      let (x₄, s₄, h₄, k₄) = bind_ran (require m (is_port bridge_port) bad_bridge_port) _ s₃ k₃ in
      let (port, s₅, h₅, k₅) =
        bind_ran (control_port m fuel options.ble_control_port bridge_port) _ s₄ k₄ in
      ports-Launched sim options bridge_port port state s₅ t
        (require-ran (is_port bridge_port) _ s₃ s₄ x₄ h₄) k₅
