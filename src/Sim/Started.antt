-- ===== src/Sim/Started.antt =====
-- What `Simulator.start` of src/ptlab/sim.py has seen to when it returns a simulator that it
-- started.
use pinetime_dev_tools.Prelude.{ℕ, ◌+◌, subst, none, some, true, false, ◌≡◌, sym, ap, ◌∙◌}
use pinetime_dev_tools.Prelude.Int.{ℤ}
use pinetime_dev_tools.Prelude.Result.{Result, ok}
use pinetime_dev_tools.Prelude.State.{bind_ran, pair_value}
use pinetime_dev_tools.Processes.{same_ℤ}
use pinetime_dev_tools.Sim.{given, SimState, Failure, group_of, build_sim_state}
use pinetime_dev_tools.Sim.Machine.{Machine, Simulator, Desk}
use pinetime_dev_tools.Sim.Launch.{wait_for_tcp_listener}
use pinetime_dev_tools.Sim.Start.{
  StartOptions, Display, window_of, focus, settle, await_listener, is_port, start_beside, start,
}
use pinetime_dev_tools.Sim.Ready.{Passes, Accepted, Awaited, wait_for_tcp_listener-Awaited}
use pinetime_dev_tools.Sim.Launched.{Launched, start_fresh-Launched}

module _ {W : Type 0} (m : Machine W) where
  -- The simulator's process was seen to run once its BLE-control port had accepted a connection,
  -- 50 ms before the end; the state names both, and the ports are valid and differ.
  pub record Started (state : SimState) (after : Desk W) : Type 0 where
    pub bridge_port : ℤ
    pub control_port : ℤ
    pub pid : ℤ
    pub seen : W
    pub accepted : Accepted m control_port pid seen
    pub slept : after.world ≡ m.system.sleep 50 seen
    pub kept : after.file ≡ some state
    pub names_process : state.sim ≡ given (group_of pid)
    pub names_bridge : state.bridge_port ≡ given bridge_port
    pub names_control : state.ble_control_port ≡ given control_port
    pub bridge_valid : is_port bridge_port ≡ true
    pub control_valid : is_port control_port ≡ true
    pub differ : same_ℤ control_port bridge_port ≡ false

  record Settled (state : SimState) (bridge_port port : ℤ) (after : Desk W) : Type 0 where
    pid : ℤ
    seen : W
    accepted : Accepted m port pid seen
    slept : after.world ≡ m.system.sleep 50 seen
    kept : after.file ≡ some state
    names_process : state.sim ≡ given (group_of pid)
    names_bridge : state.bridge_port ≡ given bridge_port
    names_control : state.ble_control_port ≡ given port

  await_listener-ran :
      (port pid : ℤ) (state given_state : SimState) (s t : Desk W)
      → Passes m
      → await_listener m port pid given_state s ≡ (ok state, t)
      → (given_state ≡ state)
        × (seen : W) × Accepted m port pid seen
        × (t.world ≡ m.system.sleep 50 seen)
        × (t.file ≡ some given_state)
  await_listener-ran port pid state given_state s t passes h =
      let (x, u, e, k) = bind_ran (wait_for_tcp_listener m 5000 port pid) _ s h in
      (
        pair_value given_state state _ t k,
        u.world,
        subst (Awaited m port pid (m.system.now s.world + 5000)) e
            (wait_for_tcp_listener-Awaited m 5000 port pid s passes),
        ap (λ (p : Result Failure SimState × Desk W). p.1.world) (sym k),
        ap (λ (p : Result Failure SimState × Desk W). p.1.file) (sym k),
      )

  settle-ran :
      (sim : Simulator) (options : StartOptions) (bridge_port port : ℤ) (shown : Display) (pid : ℤ)
      (state : SimState) (s t : Desk W)
      → Passes m
      → settle m sim options bridge_port port shown pid s ≡ (ok state, t)
      → Settled state bridge_port port t
  unfolding build_sim_state
  settle-ran sim options bridge_port port shown pid state s t passes h =
      let (window, s₁, h₁, k₁) = bind_ran (window_of m shown pid) _ s h in
      let (x, s₂, h₂, k₂) = bind_ran (focus m shown window) _ s₁ k₁ in
      let (same, seen, accepted, slept, kept) =
        await_listener-ran port pid state _ s₂ t passes k₂ in
      record {
        pid = pid;
        seen = seen;
        accepted = accepted;
        slept = slept;
        kept = kept ∙ ap some same;
        names_process = ap (λ (st : SimState). st.sim) (sym same);
        names_bridge = ap (λ (st : SimState). st.bridge_port) (sym same);
        names_control = ap (λ (st : SimState). st.ble_control_port) (sym same);
      }

  Launched-Started :
      (sim : Simulator) (options : StartOptions) (state : SimState) (t : Desk W)
      → Passes m
      → Launched m sim options state t
      → Started state t
  Launched-Started sim options state t passes l =
      let settled =
        settle-ran sim options l.bridge_port l.control_port l.shown l.pid state l.at_settle t passes
          l.settles in
      record {
        bridge_port = l.bridge_port;
        control_port = l.control_port;
        pid = settled.pid;
        seen = settled.seen;
        accepted = settled.accepted;
        slept = settled.slept;
        kept = settled.kept;
        names_process = settled.names_process;
        names_bridge = settled.names_bridge;
        names_control = settled.names_control;
        bridge_valid = l.bridge_valid;
        control_valid = l.control_valid;
        differ = l.differ;
      }

-- Where time passes and there is no state file, a start that returns has seen the simulator's
-- process run after its BLE-control port had accepted a connection, and slept 50 ms since; the
-- state that it returns is in the state file and names this process, this port and the bridge's,
-- and the two ports are valid and differ.
pub start-Started :
    {W : Type 0} (m : Machine W) (fuel : ℕ) (sim : Simulator) (options : StartOptions)
    (state : SimState) (s t : Desk W)
    → Passes m
    → s.file ≡ none
    → start m fuel sim options s ≡ (ok state, t)
    → Started m state t
unfolding start
start-Started m fuel sim options state s t passes e h =
    Launched-Started m sim options state t passes (
      start_fresh-Launched m fuel sim options state s t
        (sym (ap (λ o. start_beside m fuel sim options o s) e) ∙ h))
