-- ===== src/Sim/Files/Driving.antt =====
-- The operations of src/ptlab/sim.py that drive the simulator, or only look, leave the state file
-- as it is; those that drive it need one.
use pinetime_dev_tools.Prelude.{
  ℕ, zero, suc, ◌+◌, List, [], ◌∷◌, Option, none, some, Bool, true, false, ◌≡◌, refl, String,
}
use pinetime_dev_tools.Prelude.Int.{ℤ, pos, negsuc}
use pinetime_dev_tools.Prelude.Result.{ok, err}
use pinetime_dev_tools.Prelude.State.{pure, ◌>>=◌}
use pinetime_dev_tools.Prelude.Texts.{Text}
use pinetime_dev_tools.Sim.{FilePath, SimState, not_running, sim_error}
use pinetime_dev_tools.Sim.Machine.{
  Word, Environment, Machine, Desktop, Screenshot, Simulator, Desk, Action, sees, sleeps,
  run_checked,
}
use pinetime_dev_tools.Sim.Session.{load_state, loaded}
use pinetime_dev_tools.Sim.Input.{xdo, window_origin, to_screen, press_key, press_mouse, move_to}
use pinetime_dev_tools.Sim.Gestures.{
  Direction, wake, awake, tap, drag_moves, drag, swipe, hold_button, button, press_keys, key, logs,
  sleeps_ms,
}
use pinetime_dev_tools.Sim.Shot.{
  candidates, newest, wait_for_size, size_round, take_shot, shot_round, look_for_shot, given_name,
  keep_shot, shot, same_size,
}
use pinetime_dev_tools.Sim.Files.{
  Keeps, keeping, pure-Keeps, raise-Keeps, fails-Keeps, sees-Keeps, if_at-Keeps, bind-Keeps,
  then-Keeps, sleeps-Keeps,
}

module _ {W : Type 0} (m : Machine W) where
  pub load_state-Keeps : Keeps (load_state m)
  unfolding load_state
  load_state-Keeps = record { kept = λ s. go s.file s }
    where
      go : (o : Option SimState) (s : Desk W) → (loaded m o s).1.file ≡ s.file
      go none s = refl
      go (some state) s = refl

  sleeps_ms-Keeps : (n : ℤ) → Keeps (sleeps_ms m n)
  sleeps_ms-Keeps (pos n) = sleeps-Keeps m n
  sleeps_ms-Keeps (negsuc n) = raise-Keeps _

  run_checked-Keeps : (env : Environment) (words : List Word) → Keeps (run_checked m env words)
  run_checked-Keeps env words = search keeping

  xdo-Keeps : (state : SimState) (words : List Word) → Keeps (xdo m state words)
  unfolding xdo
  xdo-Keeps state words = search (keeping, run_checked-Keeps)

  window_origin-Keeps : (state : SimState) → Keeps (window_origin m state)
  unfolding window_origin
  window_origin-Keeps state = search (keeping, xdo-Keeps) depth 12

  to_screen-Keeps : (state : SimState) (x y : ℤ) → Keeps (to_screen m state x y)
  unfolding to_screen
  to_screen-Keeps state x y = search (keeping, window_origin-Keeps)

  press_key-Keeps : (state : SimState) (name : Text) → Keeps (press_key m state name)
  unfolding press_key
  press_key-Keeps state name = search (keeping, xdo-Keeps, sleeps-Keeps) depth 9

  press_mouse-Keeps : (state : SimState) (name : String) → Keeps (press_mouse m state name)
  unfolding press_mouse
  press_mouse-Keeps state name = search (keeping, xdo-Keeps, sleeps-Keeps) depth 9

  -- What drives the simulator leaves the state file as it is, and is refused where there is none.
  pub record Drives {A : Type 0} (op : Action W A) : Type 0 where
    pub keeps : Keeps op
    pub needs : (s : Desk W) → s.file ≡ none → op s ≡ (err (sim_error not_running), s)

  pub bind-Drives :
      {A : Type 0} (f : SimState → Action W A)
      → ((state : SimState) → Keeps (f state))
      → Drives (load_state m >>= f)
  unfolding load_state
  bind-Drives f h = record {
    keeps = bind-Keeps (load_state m) f load_state-Keeps h;
    needs = λ s e. rw e refl;
  }

  wake-Keeps : (state : SimState) (settle : ℤ) (off : Bool) → Keeps (wake m state settle off)
  wake-Keeps state settle false = pure-Keeps false
  wake-Keeps state settle true =
      search (keeping, to_screen-Keeps, xdo-Keeps, press_mouse-Keeps, sleeps_ms-Keeps) depth 12

  pub awake-Drives : (sim : Simulator) (settle : ℤ) → Drives (awake m sim settle)
  unfolding awake
  awake-Drives sim settle = bind-Drives _ (λ state. search (keeping, wake-Keeps))

  pub tap-Drives : (x y settle : ℤ) → Drives (tap m x y settle)
  unfolding tap
  tap-Drives x y settle = bind-Drives _ λ state.
      search (keeping, to_screen-Keeps, xdo-Keeps, press_mouse-Keeps, sleeps_ms-Keeps) depth 12

  pub swipe-Drives : (direction : Direction) (settle : ℤ) → Drives (swipe m direction settle)
  unfolding swipe
  swipe-Drives direction settle =
      bind-Drives _ (λ state. search (keeping, press_key-Keeps, sleeps_ms-Keeps))

  hold_button-Keeps : (state : SimState) (hold : Option ℤ) → Keeps (hold_button m state hold)
  hold_button-Keeps state none = press_mouse-Keeps state "3"
  hold_button-Keeps state (some hold) =
      search (keeping, xdo-Keeps, press_mouse-Keeps, sleeps_ms-Keeps) depth 12

  pub button-Drives : (hold : Option ℤ) (settle : ℤ) → Drives (button m hold settle)
  unfolding button
  button-Drives hold settle = bind-Drives _ λ state.
      search (keeping, to_screen-Keeps, xdo-Keeps, hold_button-Keeps, sleeps_ms-Keeps) depth 12

  press_keys-Keeps : (state : SimState) (name : Text) → Keeps (press_keys m state name)
  unfolding press_keys
  press_keys-Keeps state [] = pure-Keeps tt
  press_keys-Keeps state (c ∷ cs) =
      bind-Keeps (press_key m state _) _ (press_key-Keeps state _)
        λ x. then-Keeps (sleeps m 50) _ (sleeps-Keeps m 50) (press_keys-Keeps state cs)

  pub key-Drives : (name : Text) (settle : ℤ) → Drives (key m name settle)
  unfolding key
  key-Drives name settle =
      bind-Drives _ (λ state. search (keeping, press_keys-Keeps, sleeps_ms-Keeps))

  pub logs-Keeps : (sim : Simulator) (lines : ℤ) → Keeps (logs m sim lines)
  unfolding logs
  logs-Keeps sim lines =
      if_at-Keeps _ (λ s. (ok _, s)) (pure []) (record { kept = λ s. refl }) (pure-Keeps [])

module _ {W : Type 0} (m : Machine W) (desktop : Desktop W) where
  drag_moves-Keeps :
      (state : SimState) (from to : ℤ × ℤ) (steps index n : ℕ)
      → Keeps (drag_moves m desktop state from to steps index n)
  unfolding drag_moves
  drag_moves-Keeps state from to steps index zero = pure-Keeps tt
  drag_moves-Keeps state from to steps index (suc n) =
      bind-Keeps (move_to m state _ _) _ (search (keeping, xdo-Keeps m)) λ x.
        then-Keeps (sleeps m 40) _ (sleeps-Keeps m 40)
          (drag_moves-Keeps state from to steps (index + 1) n)

  pub drag-Drives :
      (x1 y1 x2 y2 steps settle : ℤ) → Drives m (drag m desktop x1 y1 x2 y2 steps settle)
  unfolding drag
  drag-Drives x1 y1 x2 y2 steps settle = bind-Drives m _ λ state.
      search
        (
          keeping,
          to_screen-Keeps m,
          xdo-Keeps m,
          sleeps-Keeps m,
          drag_moves-Keeps,
          sleeps_ms-Keeps m,
        )
        depth 16

  size_round-Keeps :
      (path : FilePath) (again : Option ℕ → Action W (Unit {0}))
      → ((n : Option ℕ) → Keeps (again n))
      → Keeps (size_round m desktop path again)
  size_round-Keeps path again h = search (keeping, sleeps-Keeps m)

  wait_for_size-Keeps :
      (fuel : ℕ) (path : FilePath) (size : Option ℕ)
      → Keeps (wait_for_size m desktop fuel path size)
  unfolding wait_for_size
  wait_for_size-Keeps zero path size = record { kept = λ s. refl }
  wait_for_size-Keeps (suc fuel) path size =
      if_at-Keeps (λ s. same_size m desktop size (desktop.size_of path s.world)) (pure tt)
        (size_round m desktop path (wait_for_size m desktop fuel path)) (pure-Keeps tt)
        (size_round-Keeps path _ (wait_for_size-Keeps fuel path))

  take_shot-Keeps :
      (fuel : ℕ) (again : Action W (Option FilePath)) (c : Screenshot)
      → Keeps again
      → Keeps (take_shot m desktop fuel again c)
  take_shot-Keeps fuel again c h = search (keeping, wait_for_size-Keeps, sleeps-Keeps m)

  shot_round-Keeps :
      (fuel : ℕ) (found : Option FilePath) (again : Option FilePath → Action W (Option FilePath))
      (cs : List Screenshot)
      → ((p : Option FilePath) → Keeps (again p))
      → Keeps (shot_round m desktop fuel found again cs)
  shot_round-Keeps fuel found again [] h =
      then-Keeps (sleeps m 50) (again found) (sleeps-Keeps m 50) (h found)
  shot_round-Keeps fuel found again (c ∷ cs) h = take_shot-Keeps fuel _ (newest c cs) (h _)

  look_for_shot-Keeps :
      (fuel rounds : ℕ) (sim : Simulator) (before : List FilePath) (mark : ℕ)
      (found : Option FilePath)
      → Keeps (look_for_shot m desktop fuel rounds sim before mark found)
  unfolding look_for_shot
  look_for_shot-Keeps fuel zero sim before mark found = pure-Keeps found
  look_for_shot-Keeps fuel (suc rounds) sim before mark found =
      let again = look_for_shot m desktop fuel rounds sim before mark in
      bind-Keeps (sees (λ w. candidates before mark (desktop.screenshots sim.layout.run w)))
        (shot_round m desktop fuel found again) (sees-Keeps _)
        (λ cs.
          shot_round-Keeps fuel found again cs (look_for_shot-Keeps fuel rounds sim before mark))

  given_name-Keeps : (name : Option Text) → Keeps (given_name m desktop name)
  given_name-Keeps none = sees-Keeps desktop.shot_name
  given_name-Keeps (some name) = search keeping

  keep_shot-Keeps :
      (sim : Simulator) (name : Option Text) (found : Option FilePath)
      → Keeps (keep_shot m desktop sim name found)
  keep_shot-Keeps sim name none = fails-Keeps _
  keep_shot-Keeps sim name (some path) = search (keeping, given_name-Keeps)

  pub shot-Drives :
      (fuel : ℕ) (sim : Simulator) (name : Option Text) → Drives m (shot m desktop fuel sim name)
  unfolding shot
  shot-Drives fuel sim name =
      bind-Drives m _
        λ state. search (keeping, press_key-Keeps m, look_for_shot-Keeps, keep_shot-Keeps) depth 14
