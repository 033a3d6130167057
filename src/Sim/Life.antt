-- ===== src/Sim/Life.antt =====
-- The simulator session of src/ptlab/sim.py: what its operations make of the state file.
pub mod Launches
pub mod Halting
pub mod Starting
pub mod Promise
pub mod Commands
use pinetime_dev_tools.Prelude.{
  ℕ, zero, suc, List, [], ◌∷◌, ◌++◌, Option, none, some, Bool, true, false, not, ◌&&◌, ◌||◌, ◌≡◌,
  ◌≢◌, ◌⊎◌, inl, inr, refl, sym, ◌∙◌, subst, String, if◌then◌else◌,
}
use pinetime_dev_tools.Prelude.Int.{ℤ, pos, negsuc}
use pinetime_dev_tools.Prelude.Result.{Result, ok, err}
use pinetime_dev_tools.Prelude.State.{Exec, continue, pure, raise, lift, ◌>>=◌, ◌>>◌}
use pinetime_dev_tools.Prelude.Texts.{Text}
use pinetime_dev_tools.Processes.{ProcessRef, same_ℤ}
use pinetime_dev_tools.Sim.{FilePath, SimLayout, SimState, SimError, Failure, build_sim_state}
use pinetime_dev_tools.Sim.Machine.{
  Word, Environment, Machine, Simulator, Desk, Action, sleeps, allocate_tcp_port, run_checked,
}
use pinetime_dev_tools.Sim.Launch.{wait_for_tcp_listener, guarded, try_except}
use pinetime_dev_tools.Sim.Session.{
  remove_state, dump_state, end_processes, stop_state, stop, kill_group, kill_pid, kill_groups,
  kill_pids, kill_processes, kill_state, kill, status_of, status,
}
use pinetime_dev_tools.Sim.Start.{
  StartOptions, require, allocate_other, port_or, control_port, make_folders, create_layout,
  clean_up, Display, show, spawn, window_of, focus, settle, save, await_listener, launch,
  environment, open_logs, pid_of, start_fresh, is_healthy, start_over, start_beside, start, restart,
  rebuild, built,
}
use pinetime_dev_tools.Sim.Files.{
  Keeps, keeping, pure-Keeps, raise-Keeps, sees-Keeps, terminates-Keeps, if-Keeps, if_at-Keeps,
  bind-Keeps, then-Keeps, sleeps-Keeps, wait-Keeps, start_xvfb-Keeps, seed_flash-Keeps,
  link_flash-Keeps, find_window-Keeps,
}

abbrev pub File : Type 0
File = Option SimState

-- What an action makes of the state file: `Q` if it returns; if it raises, the file is as it was,
-- or removed.
abbrev pub Ended :
    {A : Type 0} → (A → File → File → Type 0) → File → File → Result Failure A → Type 0
Ended Q before after (ok a) = Q a before after
Ended Q before after (err e) = (after ≡ before) ⊎ (after ≡ none)

pub record Ends {W A : Type 0} (Q : A → File → File → Type 0) (m : Action W A) : Type 0 where
  pub ended : (s : Desk W) → Ended Q s.file (m s).1.file (m s).0

abbrev pub Same : {A : Type 0} → A → File → File → Type 0
Same a before after = after ≡ before

-- A state that `start` writes.
pub record IsBuilt (state : SimState) : Type 0 where
  pub display : Option Text
  pub window : Option Text
  pub xvfb : Option ℤ
  pub zoom : ℤ
  pub bridge_port : ℤ
  pub control_port : ℤ
  pub pid : ℤ
  pub layout : SimLayout
  pub headless : Bool
  pub built :
      state
      ≡ build_sim_state display bridge_port window zoom pid xvfb layout (some control_port) headless

-- The state that was returned is the one in the file: the one that was there, or a new one.
abbrev pub Saved : SimState → File → File → Type 0
Saved state before after = (after ≡ some state) × ((before ≡ some state) ⊎ IsBuilt state)

module _ {W A : Type 0} where
  pub Keeps-Ends : (m : Action W A) → Keeps m → Ends Same m
  Keeps-Ends m h = record { ended = λ s. go s (m s).0 (m s).1 (h.kept s) }
    where
      go :
          (s : Desk W) (r : Result Failure A) (t : Desk W)
          → t.file ≡ s.file
          → Ended Same s.file t.file r
      go s (ok a) t e = e
      go s (err x) t e = inl e

module _ {W A B : Type 0} (Q : B → File → File → Type 0) where
  pub bind-Ends :
      (m : Action W A) (f : A → Action W B)
      → Ends Same m
      → ((a : A) → Ends Q (f a))
      → Ends Q (m >>= f)
  bind-Ends m f hm hf = record { ended = λ s. go s (m s).0 (m s).1 (hm.ended s) }
    where
      go :
          (s : Desk W) (r : Result Failure A) (t : Desk W)
          → Ended Same s.file t.file r
          → Ended Q s.file (continue r f t).1.file (continue r f t).0
      go s (ok a) t e = subst (λ x. Ended Q x (f a t).1.file (f a t).0) e ((hf a).ended t)
      go s (err x) t h = h

  pub behind-Ends :
      (m : Action W A) (f : A → Action W B) → Keeps m → ((a : A) → Ends Q (f a)) → Ends Q (m >>= f)
  behind-Ends m f hm hf = bind-Ends m f (Keeps-Ends m hm) hf

-- An action that raises whatever happens, and leaves the state file or removes it.
pub record Undoes {W A : Type 0} (m : Action W A) : Type 0 where
  pub undone :
      (s : Desk W)
      → (e : Failure) × ((m s).0 ≡ err e) × (((m s).1.file ≡ s.file) ⊎ ((m s).1.file ≡ none))

either_way :
    {before mid after : File}
    → (mid ≡ before) ⊎ (mid ≡ none)
    → (after ≡ mid) ⊎ (after ≡ none)
    → (after ≡ before) ⊎ (after ≡ none)
either_way (inl a) (inl b) = inl (b ∙ a)
either_way (inr a) (inl b) = inr (b ∙ a)
either_way h (inr b) = inr b

module _ {W A : Type 0} (m : Machine W) where
  pub try-Ends :
      (Q : A → File → File → Type 0) (body : Action W A) (handler : Failure → Action W A)
      → Ends Q body
      → ((e : Failure) → Undoes (handler e))
      → Ends Q (try_except m body handler)
  try-Ends Q body handler hb hh = record { ended = λ s. go s (body s).0 (body s).1 (hb.ended s) }
    where
      go :
          (s : Desk W) (r : Result Failure A) (t : Desk W)
          → Ended Q s.file t.file r
          → Ended Q s.file (guarded m r handler t).1.file (guarded m r handler t).0
      go s (ok a) t h = h
      go s (err x) t h = let (e, raised, k) = (hh x).undone t in rw raised (either_way h k)

  pub clean_up-Undoes : (sim xvfb : Option ℤ) (e : Failure) → Undoes {A = A} (clean_up m sim xvfb e)
  clean_up-Undoes sim xvfb e = record { undone = λ s. go s _ _ }
    where
      go :
          (s : Desk W) (r : Result Failure (Unit {0})) (w : W)
          → (x : Failure) × ((continue r
                (λ y. remove_state m >> raise {A = A} e)
                (record s { world = w })).0
              ≡ err x)
            × (((continue r
                    (λ y. remove_state m >> raise {A = A} e)
                    (record s { world = w })).1.file
                  ≡ s.file)
                ⊎ ((continue r
                      (λ y. remove_state m >> raise {A = A} e)
                      (record s { world = w })).1.file
                    ≡ none))
      go s (ok y) w = (e, refl, inr refl)
      go s (err x) w = (x, refl, inl refl)
