-- ===== src/Sim/Command.antt =====
-- `execute_legacy` and `legacy_main` of src/ptlab/sim.py: the commands of simctl.py. A command is
-- what argparse parsed; of a printed line there is what is put into it.
use pinetime_dev_tools.Prelude.{ℕ, List, [], Option, none, some, Bool, true, false, if◌then◌else◌}
use pinetime_dev_tools.Prelude.Int.{ℤ, pos}
use pinetime_dev_tools.Prelude.Result.{Result, ok, err}
use pinetime_dev_tools.Prelude.State.{pure, lift, ◌>>=◌, ◌>>◌}
use pinetime_dev_tools.Prelude.Texts.{Text}
use pinetime_dev_tools.Hardware.{
  Kind, os_error, subprocess_error, value_error, bleak_error, other_error,
}
use pinetime_dev_tools.Workspace.{
  WorkspaceError, Workspace, FileSystem, infinisim, devtools, discover_workspace,
}
use pinetime_dev_tools.Sim.{
  FilePath, SimLayout, legacy_layout, Entry, missing, null, given, Process, SimState, Failure,
  sim_error, process_error, outside, type_error, key_error, no_fuel,
}
use pinetime_dev_tools.Sim.Machine.{Machine, Desktop, Simulator, Desk, Action}
use pinetime_dev_tools.Sim.Session.{stop, kill, status}
use pinetime_dev_tools.Sim.Start.{StartOptions, start, restart, rebuild}
use pinetime_dev_tools.Sim.Gestures.{Direction, awake, tap, drag, swipe, button, key, logs}
use pinetime_dev_tools.Sim.Shot.{shot}

pub data Command : Type 0 where
  starts restarts rebuilds : Option Text → ℤ → ℤ → Command
  stops kills asks_status wakes : Command
  reads_logs : ℤ → Command
  shoots : Option Text → Command
  taps : ℤ → ℤ → Command
  drags : ℤ → ℤ → ℤ → ℤ → ℤ → Command
  swipes : Direction → Command
  presses : Option ℤ → Command
  types : Text → Command

pub data Printed : Type 0 where
  started restarted rebuilt : Entry Text → ℤ → Printed
  stopped killed not_running already_awake woke : Printed
  state_of : SimState → SimLayout → Printed
  log_lines : List Text → Printed
  shot_at : Text → Printed
  tapped : ℤ → ℤ → Printed
  dragged : ℤ → ℤ → ℤ → ℤ → Printed
  swiped : Direction → Printed
  pressed : Option ℤ → Printed
  typed : Text → Text → Printed

-- state[key]
abbrev pub present {ℓ} : {A : Type ℓ} → Entry A → Result Failure (Entry A)
present missing = err key_error
present null = ok null
present (given a) = ok (given a)

-- state["sim"]["pid"]
abbrev pub pid_in : Entry Process → Result Failure ℤ
pid_in missing = err key_error
pid_in null = err type_error
pid_in (given p) = pid_at p.pid
  where
    pid_at : Entry ℤ → Result Failure ℤ
    pid_at missing = err key_error
    pid_at null = ok (pos 0)
    pid_at (given z) = ok z

abbrev pub legacy_options : Option Text → ℤ → ℤ → StartOptions
legacy_options display zoom bridge_port = record {
  display = display;
  zoom = zoom;
  bridge_port = some bridge_port;
  ble_control_port = none;
  headless = false;
}

module _ {W : Type 0} (m : Machine W) (desktop : Desktop W) (fuel : ℕ) (sim : Simulator)
    (settle : ℤ) where
  abbrev pub told :
      (Entry Text → ℤ → Printed) → Result Failure (Entry Text) → SimState → Action W Printed
  told line window state = do
    display ← lift (present state.display)
    pid ← lift (pid_in state.sim)
    shown ← lift window
    pure (line display pid)

  abbrev pub told_or : Printed → Printed → Bool → Action W Printed
  told_or yes_line no_line b = pure (if b then yes_line else no_line)

  -- _print_state, which reads state["zoom"].
  abbrev pub print_state : Option SimState → Action W Printed
  print_state none = pure not_running
  print_state (some state) = do zoom ← lift (present state.zoom); pure (state_of state sim.layout)

  unfoldable pub execute_legacy : Command → Action W Printed
  execute_legacy (starts display zoom port) = do
    state ← start m fuel sim (legacy_options display zoom port)
    told started (present state.window) state
  execute_legacy stops = do done ← stop m; told_or stopped not_running done
  execute_legacy kills = do done ← kill m; told_or killed not_running done
  execute_legacy (restarts display zoom port) = do
    state ← restart m fuel sim (legacy_options display zoom port)
    told restarted (ok null) state
  execute_legacy (rebuilds display zoom port) = do
    state ← rebuild m fuel sim (legacy_options display zoom port)
    told rebuilt (ok null) state
  execute_legacy asks_status = do state ← status m; print_state state
  execute_legacy (reads_logs lines) = do read ← logs m sim lines; pure (log_lines read)
  execute_legacy (shoots name) = do file ← shot m desktop fuel sim name; pure (shot_at file)
  execute_legacy wakes = do done ← awake m sim settle; told_or woke already_awake done
  execute_legacy (taps x y) = do tap m x y settle; pure (tapped x y)
  execute_legacy (drags x1 y1 x2 y2 steps) = do
    drag m desktop x1 y1 x2 y2 steps settle
    pure (dragged x1 y1 x2 y2)
  execute_legacy (swipes direction) = do swipe m direction settle; pure (swiped direction)
  execute_legacy (presses hold) = do button m hold settle; pure (pressed hold)
  execute_legacy (types name) = do sent ← key m name settle; pure (typed name sent)

-- What a run of the tool ends with: its exit code, or an exception that nothing catches.
pub data Exit : Type 0 where
  exited : ℕ → Exit
  raised : Failure → Exit

abbrev pub is_caught_kind : Kind → Bool
is_caught_kind os_error = true
is_caught_kind subprocess_error = true
is_caught_kind value_error = false
is_caught_kind bleak_error = false
is_caught_kind other_error = false

-- The classes that `except` names.
abbrev pub is_caught : Failure → Bool
is_caught (sim_error e) = true
is_caught (process_error e) = true
is_caught (outside e) = is_caught_kind e.kind
is_caught type_error = false
is_caught Failure.value_error = false
is_caught key_error = false
is_caught no_fuel = false

abbrev pub exit_of : Result Failure Printed → Exit
exit_of (ok line) = exited 0
exit_of (err e) = if is_caught e then exited 1 else raised e

module _ {W : Type 0} (m : Machine W) (desktop : Desktop W) (fuel : ℕ) (files : FileSystem)
    (default : List FilePath) where
  abbrev legacy_simulator : Workspace → Simulator
  legacy_simulator workspace = record {
    infinisim = infinisim workspace;
    layout = legacy_layout (devtools workspace);
  }

  abbrev in_workspace : Result WorkspaceError Workspace → ℤ → Command → Desk W → Exit × Desk W
  in_workspace (err e) settle command s = (exited 1, s)
  in_workspace (ok workspace) settle command s =
      let (r, t) = execute_legacy m desktop fuel (legacy_simulator workspace) settle command s in
      (exit_of r, t)

  -- For parsed arguments.
  unfoldable pub legacy_main : Option FilePath → ℤ → Command → Desk W → Exit × Desk W
  unfolding execute_legacy
  legacy_main root settle command s =
      in_workspace (discover_workspace files root [] default) settle command s
