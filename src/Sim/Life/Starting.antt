-- ===== src/Sim/Life/Starting.antt =====
-- `Simulator.start`, `restart`, `rebuild` and `status` of src/ptlab/sim.py.
use pinetime_dev_tools.Prelude.{
  ℕ, zero, suc, List, [], ◌∷◌, Option, none, some, Bool, true, false, ◌≡◌, inl, inr, refl, ◌∙◌,
}
use pinetime_dev_tools.Prelude.Int.{ℤ}
use pinetime_dev_tools.Prelude.Result.{Result, ok, err}
use pinetime_dev_tools.Prelude.State.{continue, pure, ◌>>=◌}
use pinetime_dev_tools.Processes.{same_ℤ}
use pinetime_dev_tools.Sim.{FilePath, SimState, SimError, Failure}
use pinetime_dev_tools.Sim.Machine.{Machine, Simulator, Desk, Action, allocate_tcp_port}
use pinetime_dev_tools.Sim.Session.{stop, status_of, status}
use pinetime_dev_tools.Sim.Start.{
  StartOptions, require, allocate_other, port_or, control_port, make_folders, start_fresh,
  is_healthy, start_over, start_beside, start, restart, rebuild,
}
use pinetime_dev_tools.Sim.Files.{Keeps, keeping, pure-Keeps, sees-Keeps, if_at-Keeps, bind-Keeps}
use pinetime_dev_tools.Sim.Life.{File, Ended, Ends, Saved, behind-Ends}
use pinetime_dev_tools.Sim.Life.Launches.{launch-Ends}
use pinetime_dev_tools.Sim.Life.Halting.{Halted, stop-Halts}

module _ {W : Type 0} (m : Machine W) where
  require-Keeps : (b : Bool) (e : SimError) → Keeps (require m b e)
  require-Keeps b e = search keeping

  allocate_other-Keeps :
      (fuel : ℕ) (bridge_port port : ℤ) → Keeps (allocate_other m fuel bridge_port port)
  unfolding allocate_other
  allocate_other-Keeps zero bridge_port port = record { kept = λ s. refl }
  allocate_other-Keeps (suc fuel) bridge_port port =
      if_at-Keeps (λ s. same_ℤ port bridge_port)
        (allocate_tcp_port m >>= allocate_other m fuel bridge_port) (pure port)
        (bind-Keeps (allocate_tcp_port m) (allocate_other m fuel bridge_port) (search keeping)
          (allocate_other-Keeps fuel bridge_port))
        (pure-Keeps port)

  port_or-Keeps : (port : Option ℤ) → Keeps (port_or m port)
  port_or-Keeps none = search keeping
  port_or-Keeps (some port) = pure-Keeps port

  control_port-Keeps :
      (fuel : ℕ) (port : Option ℤ) (bridge_port : ℤ) → Keeps (control_port m fuel port bridge_port)
  control_port-Keeps fuel none bridge_port = search (keeping, allocate_other-Keeps)
  control_port-Keeps fuel (some port) bridge_port = pure-Keeps port

  make_folders-Keeps : (ps : List FilePath) → Keeps (make_folders m ps)
  unfolding make_folders
  make_folders-Keeps [] = pure-Keeps tt
  make_folders-Keeps (p ∷ ps) =
      bind-Keeps _ (λ x. make_folders m ps) (search keeping) (λ x. make_folders-Keeps ps)

  start_fresh-Ends :
      (fuel : ℕ) (sim : Simulator) (options : StartOptions)
      → Ends Saved (start_fresh m fuel sim options)
  unfolding start_fresh
  start_fresh-Ends fuel sim options =
      search
        (
          behind-Ends Saved,
          sees-Keeps,
          require-Keeps,
          port_or-Keeps,
          control_port-Keeps,
          make_folders-Keeps,
          launch-Ends,
        )
        depth 25

  -- Behind a stop that returned there is no state file.
  stop-then :
      (f : Bool → Action W SimState) → ((b : Bool) → Ends Saved (f b)) → Ends Saved (stop m >>= f)
  stop-then f h = record { ended = λ s. go s (stop m s).0 (stop m s).1 ((stop-Halts m).halted s) }
    where
      gone :
          (before mid after : File) (r : Result Failure SimState)
          → mid ≡ none
          → Ended Saved mid after r
          → Ended Saved before after r
      gone before mid after (ok state) e (k, inl old) = cc
      gone before mid after (ok state) e (k, inr new) = (k, inr new)
      gone before mid after (err x) e (inl k) = inr (k ∙ e)
      gone before mid after (err x) e (inr k) = inr k

      go :
          (s : Desk W) (r : Result Failure Bool) (t : Desk W)
          → Halted s.file t.file r
          → Ended Saved s.file (continue r f t).1.file (continue r f t).0
      go s (ok b) t (e, k) = gone s.file t.file (f b t).1.file (f b t).0 e ((h b).ended t)
      go s (err x) t (e, k) = inl e

  pub start-Ends :
      (fuel : ℕ) (sim : Simulator) (options : StartOptions) → Ends Saved (start m fuel sim options)
  unfolding start
  start-Ends fuel sim options = record { ended = λ s. go s.file s refl }
    where
      decided :
          (state : SimState) (s : Desk W) (r : Result Failure Bool)
          → s.file ≡ some state
          → Ended Saved s.file
              (continue r (start_over m fuel sim options state) s).1.file
              (continue r (start_over m fuel sim options state) s).0
      decided state s (ok true) e = (e, inl e)
      decided state s (ok false) e =
          (stop-then (λ b. start_fresh m fuel sim options)
              (λ b. start_fresh-Ends fuel sim options)).ended
            s
      decided state s (err x) e = inl refl

      go :
          (o : File) (s : Desk W)
          → s.file ≡ o
          → Ended Saved s.file
              (start_beside m fuel sim options o s).1.file
              (start_beside m fuel sim options o s).0
      go none s e = (start_fresh-Ends fuel sim options).ended s
      go (some state) s e = decided state s (is_healthy m state s.world) e

  pub restart-Ends :
      (fuel : ℕ) (sim : Simulator) (options : StartOptions)
      → Ends Saved (restart m fuel sim options)
  unfolding restart
  restart-Ends fuel sim options =
      stop-then (λ b. start m fuel sim options) (λ b. start-Ends fuel sim options)

  pub rebuild-Ends :
      (fuel : ℕ) (sim : Simulator) (options : StartOptions)
      → Ends Saved (rebuild m fuel sim options)
  unfolding rebuild
  rebuild-Ends fuel sim options = search (behind-Ends Saved, keeping, restart-Ends)

  pub status-Keeps : Keeps (status m)
  unfolding status
  status-Keeps = record { kept = λ s. (go s.file).kept s }
    where
      go : (o : File) → Keeps (status_of m o)
      go none = pure-Keeps none
      go (some state) = search keeping
