-- ===== src/Tests/Processes.antt =====
-- Terminations of src/ptlab/processes.py, on a system of three processes that obey no SIGTERM.
use pinetime_dev_tools.Prelude.{◌&&◌, ℕ, ◌+◌, List, [], ◌∷◌, ◌++◌, true, ◌≡◌, ◌≢◌, refl, arith}
use pinetime_dev_tools.Prelude.Int.{ℤ, pos, negsuc}
use pinetime_dev_tools.Prelude.Result.{err}
use pinetime_dev_tools.Processes.{
  filter_pids, ProcessRef, Signal, delivered, no_fuel, System, above_one, hits_own_group,
  terminate_process_groups, terminate_pids,
}
use pinetime_dev_tools.Processes.Signals.{Watched, Spared, IsForeign, terminate_groups-Spared}
use pinetime_dev_tools.Processes.Kills.{TermFirst, terminate_pids-TermFirst}
use pinetime_dev_tools.Processes.Ends.{terminations_end}

record Machine : Type 0 where
  time : ℕ
  signals : List (ℤ × Signal)

abbrev machine : System Machine
machine = record {
  alive = λ p s. true;
  send = λ t signal s. (delivered, record s { signals = s.signals ++ (t, signal) ∷ [] });
  own_group = pos 9;
  now = λ s. s.time;
  sleep = λ n s. record s { time = s.time + n };
}

abbrev watched : Watched machine
watched = record { log = λ s. s.signals; send_logs = λ t signal s. refl; sleep_logs = λ n s. refl }

abbrev booted : Machine
booted = record { time = 0; signals = [] }

abbrev refs : List ProcessRef
refs =
    record { pid = pos 20; pgid = pos 20; name = "sim" }
    ∷ record { pid = pos 21; pgid = pos 20; name = "xvfb" }
    ∷ record { pid = pos 0; pgid = negsuc 0; name = "stale" }
    ∷ []

terminate_groups-Spared_example :
    Spared machine watched
      (IsForeign machine)
      []
      (terminate_process_groups machine refs 3000 booted).1
    × (hits_own_group machine refs ≡ true
        → (terminate_process_groups machine refs 3000 booted).1 ≡ booted)
terminate_groups-Spared_example = terminate_groups-Spared machine watched refs 3000 booted

terminations_end_example :
    ((terminate_process_groups machine refs 3000 booted).0 ≢ err no_fuel)
    × ((terminate_pids machine (pos 20 ∷ pos 1 ∷ []) 3000 booted).0 ≢ err no_fuel)
terminations_end_example =
    terminations_end machine refs (pos 20 ∷ pos 1 ∷ []) 3000 booted (λ n u. omega arith)

terminate_pids-TermFirst_example :
    TermFirst machine watched
      (filter_pids (λ p. above_one p && true) (pos 20 ∷ pos 1 ∷ []))
      []
      (terminate_pids machine (pos 20 ∷ pos 1 ∷ []) 3000 booted).1
terminate_pids-TermFirst_example =
    terminate_pids-TermFirst machine watched (pos 20 ∷ pos 1 ∷ []) 3000 booted
