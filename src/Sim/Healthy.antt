-- ===== src/Sim/Healthy.antt =====
-- What the state that `build_sim_state` of src/ptlab/sim.py builds tells those who read it later.
use pinetime_dev_tools.Prelude.{
  ℕ, ◌∷◌, ◌++◌, Option, none, some, Bool, true, false, ◌&&◌, String, ◌≡◌, refl, sym, ap, ◌∙◌,
  Bool-cases, inl, inr, if◌then◌else◌,
}
use pinetime_dev_tools.Prelude.Int.{ℤ, is_nonzero}
use pinetime_dev_tools.Prelude.Result.{Result, ok, err}
use pinetime_dev_tools.Prelude.State.{continue, pure, bind_ran, pair_value}
use pinetime_dev_tools.Prelude.Texts.{Text}
use pinetime_dev_tools.Control.Response.{parse_int}
use pinetime_dev_tools.Sim.{
  SimLayout, given, SimState, Failure, type_error, process_refs, state_pid, group_of, refs_named,
  before_dot, existing_state_is_healthy, build_sim_state,
}
use pinetime_dev_tools.Sim.Machine.{Machine, Simulator, Desk, Action}
use pinetime_dev_tools.Sim.Launch.{wait_for_tcp_listener}
use pinetime_dev_tools.Sim.Start.{
  StartOptions, ref_of, Display, show, pid_of, name_of, window_of, focus, settle, start_fresh,
  is_healthy, start, start_beside, start_over,
}
use pinetime_dev_tools.Sim.Launched.{start_fresh-Launched}

state_pid-given : (pid : ℤ) → state_pid (given (group_of pid)) (given pid) ≡ ok pid
state_pid-given pid = elim (Bool-cases (is_nonzero pid)) [
  | inl real ↦ rw real refl
  | inr zero_pid ↦ rw zero_pid refl
]

refs_named-given :
    (name : String) (pid : ℤ)
    → is_nonzero pid ≡ true
    → refs_named name (given (group_of pid)) ≡ ref_of name (some pid)
refs_named-given name pid e = rw e refl

abbrev IsReal : Option ℤ → Type 0
IsReal none = Unit
IsReal (some pid) = is_nonzero pid ≡ true

-- From a state that `build_sim_state` built of process identifiers that are not 0, `stop` and `kill`
-- get back the process groups that the clean-up of a failed start would have ended: the simulator's,
-- and that of Xvfb if it was started.
pub process_refs-build_sim_state :
    (display window : Option Text) (bridge_port zoom sim_pid : ℤ) (xvfb_pid : Option ℤ)
    (layout : SimLayout) (control_port : Option ℤ) (headless : Bool)
    → is_nonzero sim_pid ≡ true
    → IsReal xvfb_pid
    → process_refs (
        build_sim_state display bridge_port window zoom sim_pid xvfb_pid layout control_port
          headless)
      ≡ ref_of "sim" (some sim_pid) ++ ref_of "xvfb" xvfb_pid
unfolding build_sim_state
process_refs-build_sim_state display window bridge_port zoom sim_pid none layout port headless e r =
    rw e refl
process_refs-build_sim_state display window bridge_port zoom sim_pid (some pid) layout port headless
      e r =
    rw (e, r) refl

-- A state that was built for an X display ":n" is healthy exactly if both processes are alive and
-- the display responds; one that was built with no Xvfb process is neither healthy nor not: to ask
-- raises TypeError, since int() is given the null under "xvfb_pid".
pub existing_state_is_healthy-build_sim_state :
    (digit : ℕ → Option ℕ) (alive responsive : ℤ → Bool) (name : Text) (window : Option Text)
    (bridge_port zoom sim_pid xvfb_pid n : ℤ) (layout : SimLayout) (control_port : Option ℤ)
    (display : Option Text) (headless : Bool)
    → is_nonzero sim_pid ≡ true
    → is_nonzero xvfb_pid ≡ true
    → parse_int digit (before_dot name) ≡ some n
    → (existing_state_is_healthy digit alive responsive (
          build_sim_state
            (some (b':' ∷ name))
            bridge_port
            window
            zoom
            sim_pid
            (some xvfb_pid)
            layout
            control_port
            false)
        ≡ ok (alive sim_pid && (alive xvfb_pid && responsive n)))
      × (existing_state_is_healthy digit alive responsive (
            build_sim_state display bridge_port window zoom sim_pid none layout control_port
              headless)
          ≡ err type_error)
unfolding existing_state_is_healthy build_sim_state
existing_state_is_healthy-build_sim_state digit alive responsive name window bridge_port zoom
      sim_pid xvfb_pid n layout port display headless sim_real xvfb_real number =
    (rw (sim_real, xvfb_real, number) (rw (sim_real, xvfb_real) refl), rw sim_real refl)

module _ {W : Type 0} (m : Machine W) where
  -- What a headless start leaves.
  record Headless (state : SimState) (after : Desk W) : Type 0 where
    bridge_port : ℤ
    port : ℤ
    zoom : ℤ
    pid : ℤ
    layout : SimLayout
    display : Option Text
    window : Option Text
    kept : after.file ≡ some state
    built : build_sim_state display bridge_port window zoom pid none layout (some port) true ≡ state

  show-Headless :
      (sim : Simulator) (options : StartOptions) (shown : Display) (s t : Desk W)
      → options.headless ≡ true
      → show m sim options s ≡ (ok shown, t)
      → shown ≡ none
  show-Headless sim options shown s t e h = go options.headless _ e h
    where
      go :
          (b : Bool) (x : Action W Display)
          → b ≡ true
          → (if b then pure none else x) s ≡ (ok shown, t)
          → shown ≡ none
      go true x k j = sym (pair_value none shown s t j)
      go false x k j = cc

  settle-Headless :
      (sim : Simulator) (options : StartOptions) (bridge_port port : ℤ) (shown : Display) (pid : ℤ)
      (state : SimState) (s t : Desk W)
      → options.headless ≡ true
      → shown ≡ none
      → settle m sim options bridge_port port shown pid s ≡ (ok state, t)
      → Headless state t
  settle-Headless sim options bridge_port port shown pid state s t e gone h =
      let (window, s₁, h₁, k₁) = bind_ran (window_of m shown pid) _ s h in
      let (x₂, s₂, h₂, k₂) = bind_ran (focus m shown window) _ s₁ k₁ in
      let (x₃, s₃, h₃, k₃) = bind_ran (wait_for_tcp_listener m 5000 port pid) _ s₂ k₂ in
      let same = pair_value _ state _ t k₃ in
      record {
        bridge_port = bridge_port;
        port = port;
        zoom = options.zoom;
        pid = pid;
        layout = sim.layout;
        display = name_of shown;
        window = window;
        kept = ap (λ (p : Result Failure SimState × Desk W). p.1.file) (sym k₃) ∙ ap some same;
        built =
            ap
              (λ (o : Display).
                build_sim_state (name_of shown) bridge_port window options.zoom pid (pid_of o)
                  sim.layout (some port) true)
              (sym gone)
            ∙ ap
                (λ (b : Bool).
                  build_sim_state (name_of shown) bridge_port window options.zoom pid (pid_of shown)
                    sim.layout (some port) b)
                (sym e)
            ∙ same;
      }

  fresh-Headless :
      (fuel : ℕ) (sim : Simulator) (options : StartOptions) (state : SimState) (s t : Desk W)
      → options.headless ≡ true
      → start_fresh m fuel sim options s ≡ (ok state, t)
      → Headless state t
  fresh-Headless fuel sim options state s t e h =
      let l = start_fresh-Launched m fuel sim options state s t h in
      let gone = show-Headless sim options l.shown l.at_show l.from_show e l.shows in
      settle-Headless sim options l.bridge_port l.control_port l.shown l.pid state l.at_settle t e
        gone l.settles

  is_healthy-Headless :
      (state : SimState) (t : Desk W) (w : W)
      → Headless state t
      → is_healthy m state w ≡ err type_error
  unfolding existing_state_is_healthy build_sim_state
  is_healthy-Headless state t w h = rw (← h.built, state_pid-given h.pid) refl

-- A start that launches a headless simulator makes each start behind it that reads the same state
-- file, with whatever options, raise TypeError and do nothing: the state has a null under
-- "xvfb_pid".
pub start-headless_twice :
    {W : Type 0} (m : Machine W) (fuel : ℕ) (sim : Simulator) (options : StartOptions)
    (state : SimState) (s t : Desk W)
    → s.file ≡ none
    → options.headless ≡ true
    → start m fuel sim options s ≡ (ok state, t)
    → (fuel' : ℕ) (sim' : Simulator) (options' : StartOptions)
    → start m fuel' sim' options' t ≡ (err type_error, t)
unfolding start
start-headless_twice m fuel sim options state s t e headless h fuel' sim' options' =
    let fresh =
      fresh-Headless m fuel sim options state s t headless
        (sym (ap (λ o. start_beside m fuel sim options o s) e) ∙ h) in
    ap (λ o. start_beside m fuel' sim' options' o t) fresh.kept
    ∙ ap (λ r. continue r (start_over m fuel' sim' options' state) t)
        (is_healthy-Headless m state t t.world fresh)
