-- ===== src/Sim/Session.antt =====
-- The operations of `Simulator` in src/ptlab/sim.py that end the simulator, and `status`.
use pinetime_dev_tools.Prelude.{
  List, [], ◌∷◌, Option, none, some, Bool, true, false, ◌&&◌, str_eq, if◌then◌else◌,
}
use pinetime_dev_tools.Prelude.Int.{ℤ, is_nonzero}
use pinetime_dev_tools.Prelude.Result.{Result, ok}
use pinetime_dev_tools.Prelude.State.{pure, lift, modify, ◌>>=◌, ◌>>◌}
use pinetime_dev_tools.Processes.{
  ProcessRef, sigkill, send_to, terminate_process_groups, terminate_pids,
}
use pinetime_dev_tools.Sim.{
  given, SimState, not_running, Failure, process_refs, legacy_pids, int_of,
}
use pinetime_dev_tools.Sim.Machine.{Machine, Action, sees, terminates, fails, pid_system}

abbrev pub find_sim : List ProcessRef → Option ProcessRef
find_sim [] = none
find_sim (r ∷ rs) = if str_eq r.name "sim" then some r else find_sim rs

abbrev pub pid_or_legacy : Option ProcessRef → SimState → Result Failure ℤ
pid_or_legacy none state = int_of state.sim_pid
pid_or_legacy (some r) state = ok r.pid

module _ {W : Type 0} (m : Machine W) where
  abbrev pub loaded : Option SimState → Action W SimState
  loaded none = fails not_running
  loaded (some state) = pure state

  unfoldable pub load_state : Action W SimState
  load_state s = loaded s.file s

  abbrev pub remove_state : Action W (Unit {0})
  remove_state = modify (λ s. record s { file = none })

  abbrev pub dump_state : SimState → Action W (Unit {0})
  dump_state state = modify (λ s. record s { file = some state })

  abbrev pub end_processes : List ProcessRef → List ℤ → Action W (Unit {0})
  end_processes [] pids = terminates (terminate_pids (pid_system m) pids 3000)
  end_processes (r ∷ rs) pids = terminates (terminate_process_groups m.system (r ∷ rs) 3000)

  abbrev pub stop_state : Option SimState → Action W Bool
  stop_state none = pure false
  stop_state (some state) = do
    end_processes (process_refs state) (legacy_pids state)
    remove_state
    pure true

  unfoldable pub stop : Action W Bool
  stop s = stop_state s.file s

  abbrev pub kill_group : ProcessRef → Action W (Unit {0})
  kill_group r s =
      if m.system.alive r.pid s.world
      then terminates (send_to m.system r.pgid sigkill) s
      else (ok tt, s)

  abbrev pub kill_pid : ℤ → Action W (Unit {0})
  kill_pid pid s =
      if m.system.alive pid s.world
      then terminates (send_to (pid_system m) pid sigkill) s
      else (ok tt, s)

  unfoldable pub kill_groups : List ProcessRef → Action W (Unit {0})
  kill_groups [] = pure tt
  kill_groups (r ∷ rs) = do kill_group r; kill_groups rs

  unfoldable pub kill_pids : List ℤ → Action W (Unit {0})
  kill_pids [] = pure tt
  kill_pids (pid ∷ pids) = do kill_pid pid; kill_pids pids

  abbrev pub kill_processes : List ProcessRef → List ℤ → Action W (Unit {0})
  kill_processes [] pids = kill_pids pids
  kill_processes (r ∷ rs) pids = kill_groups (r ∷ rs)

  abbrev pub kill_state : Option SimState → Action W Bool
  kill_state none = pure false
  kill_state (some state) = do
    kill_processes (process_refs state) (legacy_pids state)
    remove_state
    pure true

  unfoldable pub kill : Action W Bool
  unfolding kill_groups kill_pids
  kill s = kill_state s.file s

  abbrev pub status_of : Option SimState → Action W (Option SimState)
  status_of none = pure none
  status_of (some state) = do
    pid ← lift (pid_or_legacy (find_sim (process_refs state)) state)
    alive ← sees (λ w. is_nonzero pid && m.system.alive pid w)
    pure (some (record state { alive = given alive }))

  unfoldable pub status : Action W (Option SimState)
  status s = status_of s.file s
