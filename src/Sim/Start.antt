-- ===== src/Sim/Start.antt =====
-- `Simulator.start` of src/ptlab/sim.py, `restart` and `rebuild`.
use pinetime_dev_tools.Prelude.{
  ℕ, zero, suc, List, [], ◌∷◌, ◌++◌, any, Option, none, some, Bool, true, false, not, ◌||◌, String,
  if◌then◌else◌,
}
use pinetime_dev_tools.Prelude.Int.{ℤ, pos, between, is_positive}
use pinetime_dev_tools.Prelude.Result.{Result, ok, err}
use pinetime_dev_tools.Prelude.State.{pure, raise, lift, ◌>>=◌, ◌>>◌}
use pinetime_dev_tools.Prelude.Texts.{Text}
use pinetime_dev_tools.Processes.{ProcessRef, same_ℤ, terminate_process_groups}
use pinetime_dev_tools.Hardware.Adb.{Completed}
use pinetime_dev_tools.Sim.{
  FilePath, SimLayout, SimState, SimError, not_built, zoom_too_small, bad_bridge_port,
  bad_control_port, same_ports, display_of_headless, build_failed, Failure, no_fuel, same_path,
  existing_state_is_healthy, build_sim_state,
}
use pinetime_dev_tools.Sim.Machine.{
  Word, word, path, number, jobs, Environment, display, dummy, inherited, Machine, Simulator,
  build_folder, binary, Action, sees, calls, terminates, fails, display_is_active, sleeps,
  allocate_tcp_port, run_checked,
}
use pinetime_dev_tools.Sim.Launch.{
  canvas_of, try_except, start_xvfb, seed_flash, link_flash, find_window, wait_for_tcp_listener,
}
use pinetime_dev_tools.Sim.Session.{remove_state, dump_state, stop}

pub record StartOptions : Type 0 where
  pub display : Option Text
  pub zoom : ℤ
  pub bridge_port : Option ℤ
  pub ble_control_port : Option ℤ
  pub headless : Bool

-- The paths of a set, in some order.
abbrev pub distinct : List FilePath → List FilePath
distinct [] = []
distinct (p ∷ ps) = if any (same_path p) ps then distinct ps else p ∷ distinct ps

abbrev pub ref_of : String → Option ℤ → List ProcessRef
ref_of name none = []
ref_of name (some pid) = record { pid = pid; pgid = pid; name = name } ∷ []

abbrev pub is_port : ℤ → Bool
is_port port = between 1 65535 port

-- xvfb and chosen_display.
abbrev pub Display : Type 0
Display = Option (ℤ × Text)

abbrev pub environment : Display → Environment
environment none = dummy
environment (some (pid, name)) = display name

abbrev pub pid_of : Display → Option ℤ
pid_of none = none
pid_of (some (pid, name)) = some pid

abbrev pub name_of : Display → Option Text
name_of none = none
name_of (some (pid, name)) = some name

abbrev pub is_none : Option Text → Bool
is_none none = true
is_none (some t) = false

module _ {W : Type 0} (m : Machine W) where
  abbrev pub require : Bool → SimError → Action W (Unit {0})
  require b e = if b then pure tt else fails e

  -- `while ble_control_port == bridge_port: allocate`, on fuel.
  unfoldable pub allocate_other : ℕ → ℤ → ℤ → Action W ℤ
  allocate_other zero bridge_port port s = (err no_fuel, s)
  allocate_other (suc fuel) bridge_port port s =
      let again = (do other ← allocate_tcp_port m; allocate_other fuel bridge_port other) in
      if same_ℤ port bridge_port then again s else (ok port, s)

  abbrev pub port_or : Option ℤ → Action W ℤ
  port_or none = allocate_tcp_port m
  port_or (some port) = pure port

  abbrev pub control_port : ℕ → Option ℤ → ℤ → Action W ℤ
  control_port fuel none bridge_port = do
    port ← allocate_tcp_port m
    allocate_other fuel bridge_port port
  control_port fuel (some port) bridge_port = pure port

  unfoldable pub make_folders : List FilePath → Action W (Unit {0})
  make_folders [] = pure tt
  make_folders (p ∷ ps) = do calls (m.mkdir p); make_folders ps

  -- layout.create()
  abbrev pub create_layout : SimLayout → Action W (Unit {0})
  create_layout l = make_folders (distinct (l.root ∷ l.run ∷ l.flash ∷ l.shots ∷ l.logs ∷ []))

  -- The `except` clause of `start`, for the processes that were started.
  abbrev pub clean_up : {A : Type 0} → Option ℤ → Option ℤ → Failure → Action W A
  clean_up sim xvfb e = do
    terminates (terminate_process_groups m.system (ref_of "sim" sim ++ ref_of "xvfb" xvfb) 1000)
    remove_state m
    raise e

  abbrev pub show : Simulator → StartOptions → Action W Display
  show sim options =
      if options.headless
      then pure none
      else (do shown ← start_xvfb m sim (canvas_of options.zoom) options.display; pure (some shown))

  abbrev pub open_logs : SimLayout → Action W (Unit {0})
  open_logs l = do
    calls (m.open_log l.stdout)
    if same_path l.stderr l.stdout then pure tt else calls (m.open_log l.stderr)

  -- Starts the simulator, and returns its process.
  abbrev pub spawn : Simulator → Environment → ℤ → ℤ → Action W ℤ
  spawn sim env bridge_port ble_control_port = do
    seed_flash m sim
    link_flash m sim
    open_logs sim.layout
    calls (
        m.popen env (
          word "stdbuf"
          ∷ word "-oL"
          ∷ path (binary sim)
          ∷ word "--hide-status"
          ∷ word "--gatt-bridge"
          ∷ number bridge_port
          ∷ word "--ble-control"
          ∷ number ble_control_port
          ∷ []))

  abbrev pub window_of : Display → ℤ → Action W (Option Text)
  window_of none pid = pure none
  window_of (some (xvfb, name)) pid = do
    window ← find_window m 200 (display name) pid
    pure (some window)

  -- self.xdo(state, "windowfocus", "--sync", window), and a second's sleep.
  abbrev pub focus : Display → Option Text → Action W (Unit {0})
  focus none window = pure tt
  focus (some (xvfb, name)) none = pure tt
  focus (some (xvfb, name)) (some window) = do
    done ←
        run_checked m (display name)
          (word "xdotool" ∷ word "windowfocus" ∷ word "--sync" ∷ Word.text window ∷ [])
    sleeps m 1000

  abbrev pub save : SimState → Action W SimState
  save state = do dump_state m state; pure state

  abbrev pub await_listener : ℤ → ℤ → SimState → Action W SimState
  await_listener port pid state = do wait_for_tcp_listener m 5000 port pid; sleeps m 50; save state

  -- What is left once the simulator runs: its window, its listener, and the state file.
  abbrev pub settle : Simulator → StartOptions → ℤ → ℤ → Display → ℤ → Action W SimState
  settle sim options bridge_port ble_control_port shown pid = do
    window ← window_of shown pid
    let state =
        build_sim_state (name_of shown) bridge_port window options.zoom pid (pid_of shown)
          sim.layout (some ble_control_port) options.headless
    focus shown window
    await_listener ble_control_port pid state

  -- The `try` of `start`, in three parts: which processes the `except` clause ends depends on how
  -- far it came.
  unfoldable pub launch : Simulator → StartOptions → ℤ → ℤ → Action W SimState
  launch sim options bridge_port ble_control_port = do
    shown ← try_except m (show sim options) (clean_up none none)
    pid ←
        try_except m (spawn sim (environment shown) bridge_port ble_control_port)
          (clean_up none (pid_of shown))
    try_except m (settle sim options bridge_port ble_control_port shown pid)
        (clean_up (some pid) (pid_of shown))

  -- `start` from where both ports are known.
  abbrev pub start_with_ports : Simulator → StartOptions → ℤ → ℤ → Action W SimState
  start_with_ports sim options bridge_port ble_control_port = do
    require (is_port ble_control_port) bad_control_port
    require (not (same_ℤ ble_control_port bridge_port)) same_ports
    require (not options.headless || is_none options.display) display_of_headless
    create_layout sim.layout
    launch sim options bridge_port ble_control_port

  abbrev pub choose_ports : ℕ → Simulator → StartOptions → Action W SimState
  choose_ports fuel sim options = do
    bridge_port ← port_or options.bridge_port
    require (is_port bridge_port) bad_bridge_port
    ble_control_port ← control_port fuel options.ble_control_port bridge_port
    start_with_ports sim options bridge_port ble_control_port

  -- `start` where no simulator runs.
  unfoldable pub start_fresh : ℕ → Simulator → StartOptions → Action W SimState
  unfolding make_folders allocate_other launch
  start_fresh fuel sim options = do
    built ← sees (m.exists (binary sim))
    require built not_built
    require (is_positive options.zoom) zoom_too_small
    choose_ports fuel sim options

  abbrev pub is_healthy : SimState → W → Result Failure Bool
  is_healthy state w =
      existing_state_is_healthy m.digit (λ pid. m.system.alive pid w) (display_is_active m w) state

  abbrev pub start_over : ℕ → Simulator → StartOptions → SimState → Bool → Action W SimState
  start_over fuel sim options state true = pure state
  start_over fuel sim options state false = do stopped ← stop m; start_fresh fuel sim options

  abbrev pub start_beside : ℕ → Simulator → StartOptions → Option SimState → Action W SimState
  start_beside fuel sim options none s = start_fresh fuel sim options s
  start_beside fuel sim options (some state) s =
      (lift (is_healthy state s.world) >>= start_over fuel sim options state) s

  -- The fuel is for the ports that are allocated until one differs from the bridge's.
  unfoldable pub start : ℕ → Simulator → StartOptions → Action W SimState
  unfolding start_fresh stop
  start fuel sim options s = start_beside fuel sim options s.file s

  unfoldable pub restart : ℕ → Simulator → StartOptions → Action W SimState
  unfolding start stop
  restart fuel sim options = do stopped ← stop m; start fuel sim options

  abbrev pub built : Completed → Action W (Unit {0})
  built done = if same_ℤ done.returncode (pos 0) then pure tt else fails build_failed

  unfoldable pub rebuild : ℕ → Simulator → StartOptions → Action W SimState
  unfolding restart
  rebuild fuel sim options = do
    done ←
        calls
          (m.run inherited (word "cmake" ∷ word "--build" ∷ path (build_folder sim) ∷ jobs ∷ []))
    built done
    restart fuel sim options
