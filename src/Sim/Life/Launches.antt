-- ===== src/Sim/Life/Launches.antt =====
-- `Simulator.start` of src/ptlab/sim.py, from the X server to the state file.
use pinetime_dev_tools.Prelude.{Option, none, some, inr, refl}
use pinetime_dev_tools.Prelude.Int.{ℤ}
use pinetime_dev_tools.Prelude.State.{◌>>◌}
use pinetime_dev_tools.Prelude.Texts.{Text}
use pinetime_dev_tools.Sim.{SimLayout, SimState}
use pinetime_dev_tools.Sim.Machine.{Environment, Machine, Simulator, sleeps}
use pinetime_dev_tools.Sim.Launch.{wait_for_tcp_listener, try_except}
use pinetime_dev_tools.Sim.Start.{
  StartOptions, name_of, clean_up, Display, show, spawn, window_of, focus, settle, save,
  await_listener, launch, environment, open_logs, pid_of,
}
use pinetime_dev_tools.Sim.Files.{
  Keeps, keeping, pure-Keeps, sleeps-Keeps, wait-Keeps, start_xvfb-Keeps, seed_flash-Keeps,
  link_flash-Keeps, find_window-Keeps,
}
use pinetime_dev_tools.Sim.Life.{
  Ends, Same, Saved, IsBuilt, Keeps-Ends, bind-Ends, behind-Ends, try-Ends, clean_up-Undoes,
}

module _ {W : Type 0} (m : Machine W) where
  show-Keeps : (sim : Simulator) (options : StartOptions) → Keeps (show m sim options)
  show-Keeps sim options = search (keeping, start_xvfb-Keeps m)

  open_logs-Keeps : (l : SimLayout) → Keeps (open_logs m l)
  open_logs-Keeps l = search keeping

  spawn-Keeps :
      (sim : Simulator) (env : Environment) (bridge_port port : ℤ)
      → Keeps (spawn m sim env bridge_port port)
  spawn-Keeps sim env bridge_port port =
      search (keeping, seed_flash-Keeps m, link_flash-Keeps m, open_logs-Keeps)

  window_of-Keeps : (shown : Display) (pid : ℤ) → Keeps (window_of m shown pid)
  window_of-Keeps none pid = pure-Keeps none
  window_of-Keeps (some (xvfb, name)) pid = search (keeping, find_window-Keeps m)

  focus-Keeps : (shown : Display) (window : Option Text) → Keeps (focus m shown window)
  focus-Keeps none window = pure-Keeps tt
  focus-Keeps (some (xvfb, name)) none = pure-Keeps tt
  focus-Keeps (some (xvfb, name)) (some window) = search (keeping, sleeps-Keeps m)

  await_listener-Ends :
      (port pid : ℤ) (state : SimState)
      → IsBuilt state
      → Ends Saved (await_listener m port pid state)
  await_listener-Ends port pid state new =
      behind-Ends Saved (wait_for_tcp_listener m 5000 port pid) (λ x. sleeps m 50 >> save m state)
        (wait-Keeps m 5000 port pid)
        λ x.
          behind-Ends Saved (sleeps m 50) (λ y. save m state) (sleeps-Keeps m 50)
            λ y. record { ended = λ s. (refl, inr new) }

  settle-Ends :
      (sim : Simulator) (options : StartOptions) (bridge_port port : ℤ) (shown : Display) (pid : ℤ)
      → Ends Saved (settle m sim options bridge_port port shown pid)
  settle-Ends sim options bridge_port port shown pid =
      behind-Ends Saved (window_of m shown pid) _ (window_of-Keeps shown pid) λ window.
        behind-Ends Saved (focus m shown window) _ (focus-Keeps shown window) λ x.
          await_listener-Ends port pid _ (record {
            display = name_of shown;
            window = window;
            xvfb = pid_of shown;
            zoom = options.zoom;
            bridge_port = bridge_port;
            control_port = port;
            pid = pid;
            layout = sim.layout;
            headless = options.headless;
            built = refl;
          })

  pub launch-Ends :
      (sim : Simulator) (options : StartOptions) (bridge_port port : ℤ)
      → Ends Saved (launch m sim options bridge_port port)
  unfolding launch
  launch-Ends sim options bridge_port port =
      bind-Ends Saved (try_except m (show m sim options) (clean_up m none none)) _
        (try-Ends m Same _ _ (Keeps-Ends _ (show-Keeps sim options)) (clean_up-Undoes m none none))
        λ shown.
          bind-Ends Saved
            (try_except m (spawn m sim (environment shown) bridge_port port)
              (clean_up m none (pid_of shown)))
            _
            (try-Ends m Same _ _ (Keeps-Ends _ (spawn-Keeps sim _ bridge_port port))
              (clean_up-Undoes m none (pid_of shown)))
            λ pid.
              try-Ends m Saved _ _ (settle-Ends sim options bridge_port port shown pid)
                (clean_up-Undoes m (some pid) (pid_of shown))
