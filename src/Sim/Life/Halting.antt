-- ===== src/Sim/Life/Halting.antt =====
-- `Simulator.stop` and `Simulator.kill` of src/ptlab/sim.py.
use pinetime_dev_tools.Prelude.{List, [], ◌∷◌, none, some, Bool, true, false, ◌≡◌, refl, sym}
use pinetime_dev_tools.Prelude.Int.{ℤ}
use pinetime_dev_tools.Prelude.Result.{Result, ok, err}
use pinetime_dev_tools.Prelude.State.{continue, pure, ◌>>◌}
use pinetime_dev_tools.Processes.{ProcessRef}
use pinetime_dev_tools.Sim.{Failure, process_refs, legacy_pids}
use pinetime_dev_tools.Sim.Machine.{Machine, Desk, Action}
use pinetime_dev_tools.Sim.Session.{
  remove_state, end_processes, stop_state, stop, kill_group, kill_pid, kill_groups, kill_pids,
  kill_processes, kill_state, kill,
}
use pinetime_dev_tools.Sim.Files.{Keeps, pure-Keeps, terminates-Keeps, if_at-Keeps, then-Keeps}
use pinetime_dev_tools.Sim.Life.{File}

abbrev pub is_some : File → Bool
is_some none = false
is_some (some state) = true

-- What ending the simulator makes of the state file: it is gone, and the answer says whether there
-- was one; if it raises, there was one and it is left.
abbrev pub Halted : File → File → Result Failure Bool → Type 0
Halted before after (ok b) = (after ≡ none) × (b ≡ is_some before)
Halted before after (err e) = (after ≡ before) × (is_some before ≡ true)

pub record Halts {W : Type 0} (m : Action W Bool) : Type 0 where
  pub halted : (s : Desk W) → Halted s.file (m s).1.file (m s).0

module _ {W : Type 0} (m : Machine W) where
  end_processes-Keeps : (refs : List ProcessRef) (pids : List ℤ) → Keeps (end_processes m refs pids)
  end_processes-Keeps [] pids = terminates-Keeps _
  end_processes-Keeps (r ∷ rs) pids = terminates-Keeps _

  kill_group-Keeps : (r : ProcessRef) → Keeps (kill_group m r)
  kill_group-Keeps r =
      if_at-Keeps (λ s. m.system.alive r.pid s.world) _ (pure tt) (terminates-Keeps _)
        (pure-Keeps tt)

  kill_pid-Keeps : (pid : ℤ) → Keeps (kill_pid m pid)
  kill_pid-Keeps pid =
      if_at-Keeps (λ s. m.system.alive pid s.world) _ (pure tt) (terminates-Keeps _) (pure-Keeps tt)

  kill_groups-Keeps : (rs : List ProcessRef) → Keeps (kill_groups m rs)
  unfolding kill_groups
  kill_groups-Keeps [] = pure-Keeps tt
  kill_groups-Keeps (r ∷ rs) =
      then-Keeps (kill_group m r) (kill_groups m rs) (kill_group-Keeps r) (kill_groups-Keeps rs)

  kill_pids-Keeps : (pids : List ℤ) → Keeps (kill_pids m pids)
  unfolding kill_pids
  kill_pids-Keeps [] = pure-Keeps tt
  kill_pids-Keeps (p ∷ ps) =
      then-Keeps (kill_pid m p) (kill_pids m ps) (kill_pid-Keeps p) (kill_pids-Keeps ps)

  kill_processes-Keeps :
      (refs : List ProcessRef) (pids : List ℤ) → Keeps (kill_processes m refs pids)
  kill_processes-Keeps [] pids = kill_pids-Keeps pids
  kill_processes-Keeps (r ∷ rs) pids = kill_groups-Keeps (r ∷ rs)

  -- Both operations end the processes, and then remove the file.
  halts :
      (n : Action W (Unit {0})) (s : Desk W)
      → Keeps n
      → is_some s.file ≡ true
      → let after = (n >> (remove_state m >> pure true)) s in Halted s.file after.1.file after.0
  halts n s h e = go (n s).0 (n s).1 (h.kept s)
    where
      go :
          (r : Result Failure (Unit {0})) (t : Desk W)
          → t.file ≡ s.file
          → Halted s.file
              (continue r (λ x. remove_state m >> pure true) t).1.file
              (continue r (λ x. remove_state m >> pure true) t).0
      go (ok x) t k = (refl, sym e)
      go (err x) t k = (k, e)

  pub stop-Halts : Halts (stop m)
  unfolding stop
  stop-Halts = record { halted = λ s. go s.file s refl }
    where
      go :
          (o : File) (s : Desk W)
          → s.file ≡ o
          → Halted s.file (stop_state m o s).1.file (stop_state m o s).0
      go none s e = (e, rw e refl)
      go (some state) s e =
          halts (end_processes m (process_refs state) (legacy_pids state)) s
            (end_processes-Keeps _ _) (rw e refl)

  pub kill-Halts : Halts (kill m)
  unfolding kill
  kill-Halts = record { halted = λ s. go s.file s refl }
    where
      go :
          (o : File) (s : Desk W)
          → s.file ≡ o
          → Halted s.file (kill_state m o s).1.file (kill_state m o s).0
      go none s e = (e, rw e refl)
      go (some state) s e =
          halts (kill_processes m (process_refs state) (legacy_pids state)) s
            (kill_processes-Keeps _ _) (rw e refl)
