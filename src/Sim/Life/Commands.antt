-- ===== src/Sim/Life/Commands.antt =====
-- The commands of simctl.py, in src/ptlab/sim.py, do what the machine of two states allows.
use pinetime_dev_tools.Prelude.{
  ℕ, List, [], ◌∷◌, Option, none, some, Bool, true, ◌≡◌, ◌≢◌, inl, inr, ◌↔◌, refl, ap,
  if◌then◌else◌,
}
use pinetime_dev_tools.Prelude.Int.{ℤ}
use pinetime_dev_tools.Prelude.Result.{Result, ok, err}
use pinetime_dev_tools.Prelude.State.{continue, pure, ◌>>=◌}
use pinetime_dev_tools.Prelude.Texts.{Text}
use pinetime_dev_tools.Sim.{Entry, null, given, text_or_null, SimState, Failure, build_sim_state}
use pinetime_dev_tools.Sim.Machine.{Machine, Desktop, Simulator, Desk, Action}
use pinetime_dev_tools.Sim.Session.{stop, kill, status}
use pinetime_dev_tools.Sim.Start.{start, restart, rebuild}
use pinetime_dev_tools.Sim.Command.{
  Command, starts, restarts, rebuilds, stops, kills, asks_status, wakes, reads_logs, shoots, taps,
  drags, swipes, presses, types, Printed, told, told_or, print_state, present, pid_in,
  legacy_options, execute_legacy,
}
use pinetime_dev_tools.Sim.Files.{Keeps, keeping, pure-Keeps, bind-Keeps}
use pinetime_dev_tools.Sim.Files.Driving.{
  Drives, awake-Drives, tap-Drives, swipe-Drives, button-Drives, key-Drives, logs-Keeps,
  drag-Drives, shot-Drives,
}
use pinetime_dev_tools.Sim.Gestures.{awake, tap, drag, swipe, button, key, logs}
use pinetime_dev_tools.Sim.Shot.{shot}
use pinetime_dev_tools.Sim.Life.{File, Ended, Ends, Saved, IsBuilt}
use pinetime_dev_tools.Sim.Life.Halting.{is_some, Halted, Halts, stop-Halts, kill-Halts}
use pinetime_dev_tools.Sim.Life.Starting.{start-Ends, restart-Ends, rebuild-Ends, status-Keeps}
use pinetime_dev_tools.Sim.Life.Promise.{
  down, up, Class, starting, halting, driving, looking, class_of, Reply, Follows, LifeRun, done,
  next, life_of,
}

abbrev FollowsAt : Class → File → File → Reply → Type 0
FollowsAt c before after reply = Follows c (life_of before) (life_of after) reply

module _ (state : SimState) where
  display-IsBuilt : IsBuilt state → (d : Entry Text) × (present state.display ≡ ok d)
  unfolding build_sim_state
  display-IsBuilt new = rw new.built (go new.display)
    where
      go : (o : Option Text) → (d : Entry Text) × (present (text_or_null o) ≡ ok d)
      go none = (null, refl)
      go (some t) = (given t, refl)

  window-IsBuilt : IsBuilt state → (w : Entry Text) × (present state.window ≡ ok w)
  unfolding build_sim_state
  window-IsBuilt new = rw new.built (go new.window)
    where
      go : (o : Option Text) → (d : Entry Text) × (present (text_or_null o) ≡ ok d)
      go none = (null, refl)
      go (some t) = (given t, refl)

  pid-IsBuilt : (new : IsBuilt state) → pid_in state.sim ≡ ok new.pid
  unfolding build_sim_state
  pid-IsBuilt new = ap (λ (t : SimState). pid_in t.sim) new.built

module _ {W : Type 0} (m : Machine W) (desktop : Desktop W) (fuel : ℕ) (sim : Simulator)
    (settle : ℤ) where
  driving-Follows :
      {A : Type 0} (op : Action W A) (f : A → Action W Printed) (s : Desk W)
      → Drives m op
      → ((a : A) → (line : Printed) × (f a ≡ pure line))
      → FollowsAt driving s.file ((op >>= f) s).1.file ((op >>= f) s).0
  driving-Follows {A} op f s h prints = go s.file refl
    where
      returned :
          (r : Result Failure A) (t : Desk W) (state : SimState)
          → s.file ≡ some state
          → t.file ≡ s.file
          → FollowsAt driving s.file (continue r f t).1.file (continue r f t).0
      returned (ok a) t state e k =
          let (line, printed) = prints a in rw printed (rw (k, e) refl, rw e refl)
      returned (err x) t state e k = (ap life_of k, rw e (λ never. cc))

      go : (o : File) → s.file ≡ o → FollowsAt driving s.file ((op >>= f) s).1.file ((op >>= f) s).0
      go none e = rw (h.needs s e) (refl, λ x. refl)
      go (some state) e = returned (op s).0 (op s).1 state e (h.keeps.kept s)

  looking-Follows :
      (op : Action W Printed) (s : Desk W)
      → Keeps op
      → FollowsAt looking s.file (op s).1.file (op s).0
  looking-Follows op s h = ap life_of (h.kept s)

  halting-Follows :
      (op : Action W Bool) (line : Printed) (s : Desk W)
      → Halts op
      → line ≢ Printed.not_running
      → let f = told_or m desktop fuel sim settle line Printed.not_running in
        FollowsAt halting s.file ((op >>= f) s).1.file ((op >>= f) s).0
  halting-Follows op line s h other = go (op s).0 (op s).1 (h.halted s)
    where
      says :
          (o : File)
          → ((if is_some o then line else Printed.not_running) ≡ Printed.not_running)
            ↔ (life_of o ≡ down)
      says none = ((λ e. refl), (λ e. refl))
      says (some state) = ((λ e. absurd (other e)), (λ e. cc))

      go :
          (r : Result Failure Bool) (t : Desk W)
          → Halted s.file t.file r
          → let f = told_or m desktop fuel sim settle line Printed.not_running in
            FollowsAt halting s.file (continue r f t).1.file (continue r f t).0
      go (ok b) t (e, k) = rw k (ap life_of e, says s.file)
      go (err x) t (e, k) = (rw e (up_of s.file k), up_of s.file k)
        where
          up_of : (o : File) → is_some o ≡ true → life_of o ≡ up
          up_of none j = cc
          up_of (some state) j = refl

  abbrev tells :
      (Entry Text → ℤ → Printed)
      → (SimState → Result Failure (Entry Text))
      → SimState
      → Action W Printed
  tells line window state = told m desktop fuel sim settle line (window state) state

  -- A line that is put together from a state that `start` wrote lacks nothing.
  tells-IsBuilt :
      (line : Entry Text → ℤ → Printed) (window : SimState → Result Failure (Entry Text))
      (state : SimState) (s : Desk W)
      → ((new : IsBuilt state) → (w : Entry Text) × (window state ≡ ok w))
      → (new : IsBuilt state) → (p : Printed) × ((tells line window state s).0 ≡ ok p)
  tells-IsBuilt line window state s shows new =
      let (w, shown) = shows new in
      let (d, display) = display-IsBuilt state new in
      (line d new.pid, rw (display, pid-IsBuilt state new, shown) refl)

  starting-Follows :
      (op : Action W SimState) (line : Entry Text → ℤ → Printed)
      (window : SimState → Result Failure (Entry Text)) (s : Desk W)
      → Ends Saved op
      → ((state : SimState) (new : IsBuilt state) → (w : Entry Text) × (window state ≡ ok w))
      → FollowsAt starting s.file
          ((op >>= tells line window) s).1.file
          ((op >>= tells line window) s).0
  starting-Follows op line window s h shows = go (op s).0 (op s).1 (h.ended s)
    where
      printed :
          (state : SimState) (t u : Desk W) (r : Reply)
          → u.file ≡ t.file
          → Saved state s.file t.file
          → (IsBuilt state → (p : Printed) × (r ≡ ok p))
          → FollowsAt starting s.file u.file r
      printed state t u (ok p) k (e, origin) new = rw (k, e) refl
      printed state t u (err x) k (e, inl old) new = inl (rw (k, e, old) refl)
      printed state t u (err x) k (e, inr built) new = absurd (never (new built))
        where
          never : ((p : Printed) × (◌≡◌ {A = Reply} (err x) (ok p))) → ⊥
          never (p, q) = cc

      go :
          (r : Result Failure SimState) (t : Desk W)
          → Ended Saved s.file t.file r
          → FollowsAt starting s.file
              (continue r (tells line window) t).1.file
              (continue r (tells line window) t).0
      go (ok state) t saved =
          printed state t (tells line window state t).1 (tells line window state t).0
            (tells-Keeps.kept t) saved (tells-IsBuilt line window state t (shows state))
        where
          tells-Keeps : Keeps (tells line window state)
          tells-Keeps = search keeping
      go (err x) t (inl e) = inl (ap life_of e)
      go (err x) t (inr e) = inr (ap life_of e)

  -- A command does what its class allows.
  execute-Follows :
      (c : Command) (s : Desk W)
      → let after = execute_legacy m desktop fuel sim settle c s in
        FollowsAt (class_of c) s.file after.1.file after.0
  unfolding execute_legacy
  execute-Follows (starts display zoom port) s =
      starting-Follows (start m fuel sim (legacy_options display zoom port)) Printed.started
        (λ state. present state.window) s (start-Ends m fuel sim _) window-IsBuilt
  execute-Follows (restarts display zoom port) s =
      starting-Follows (restart m fuel sim (legacy_options display zoom port)) Printed.restarted
        (λ state. ok null) s (restart-Ends m fuel sim _) (λ state new. (null, refl))
  execute-Follows (rebuilds display zoom port) s =
      starting-Follows (rebuild m fuel sim (legacy_options display zoom port)) Printed.rebuilt
        (λ state. ok null) s (rebuild-Ends m fuel sim _) (λ state new. (null, refl))
  execute-Follows stops s = halting-Follows (stop m) Printed.stopped s (stop-Halts m) (λ e. cc)
  execute-Follows kills s = halting-Follows (kill m) Printed.killed s (kill-Halts m) (λ e. cc)
  execute-Follows asks_status s =
      looking-Follows (status m >>= print_state m desktop fuel sim settle) s
        (bind-Keeps (status m) (print_state m desktop fuel sim settle) (status-Keeps m) printing)
    where
      printing : (o : Option SimState) → Keeps (print_state m desktop fuel sim settle o)
      printing none = pure-Keeps Printed.not_running
      printing (some state) = search keeping
  execute-Follows (reads_logs lines) s =
      looking-Follows (logs m sim lines >>= λ read. pure (Printed.log_lines read)) s
        (search (keeping, logs-Keeps m))
  execute-Follows (shoots name) s =
      driving-Follows (shot m desktop fuel sim name) (λ file. pure (Printed.shot_at file)) s
        (shot-Drives m desktop fuel sim name) (λ file. (Printed.shot_at file, refl))
  execute-Follows wakes s =
      driving-Follows (awake m sim settle)
        (told_or m desktop fuel sim settle Printed.woke Printed.already_awake) s
        (awake-Drives m sim settle)
        (λ b. ((if b then Printed.woke else Printed.already_awake), refl))
  execute-Follows (taps x y) s =
      driving-Follows (tap m x y settle) (λ u. pure (Printed.tapped x y)) s
        (tap-Drives m x y settle) (λ u. (Printed.tapped x y, refl))
  execute-Follows (drags x1 y1 x2 y2 steps) s =
      driving-Follows (drag m desktop x1 y1 x2 y2 steps settle)
        (λ u. pure (Printed.dragged x1 y1 x2 y2)) s (drag-Drives m desktop x1 y1 x2 y2 steps settle)
        (λ u. (Printed.dragged x1 y1 x2 y2, refl))
  execute-Follows (swipes direction) s =
      driving-Follows (swipe m direction settle) (λ u. pure (Printed.swiped direction)) s
        (swipe-Drives m direction settle) (λ u. (Printed.swiped direction, refl))
  execute-Follows (presses hold) s =
      driving-Follows (button m hold settle) (λ u. pure (Printed.pressed hold)) s
        (button-Drives m hold settle) (λ u. (Printed.pressed hold, refl))
  execute-Follows (types name) s =
      driving-Follows (key m name settle) (λ sent. pure (Printed.typed name sent)) s
        (key-Drives m name settle) (λ sent. (Printed.typed name sent, refl))

  -- The commands one after another, with their replies, and where they end.
  unfoldable pub execute_all : List Command → Desk W → List (Command × Reply) × Desk W
  execute_all [] s = ([], s)
  execute_all (c ∷ cs) s =
      let (reply, t) = execute_legacy m desktop fuel sim settle c s in
      let (rest, u) = execute_all cs t in ((c, reply) ∷ rest, u)

-- Whatever commands are given one after another, and whatever the machine does, the replies and the
-- state file are those of a run of the machine of two states: a start that returns leaves a state
-- file, one that raises leaves the file as it was or none; a stop or kill that returns leaves none,
-- and says "not running" exactly where there was none; the commands that drive the simulator are
-- refused where there is none; and all others leave the file there or not there as it was.
pub execute_all-LifeRun :
    {W : Type 0} (m : Machine W) (desktop : Desktop W) (fuel : ℕ) (sim : Simulator) (settle : ℤ)
    (cs : List Command) (s : Desk W)
    → LifeRun
        (life_of s.file)
        (execute_all m desktop fuel sim settle cs s).0
        (life_of (execute_all m desktop fuel sim settle cs s).1.file)
unfolding execute_all
execute_all-LifeRun m desktop fuel sim settle [] s = done
execute_all-LifeRun m desktop fuel sim settle (c ∷ cs) s =
    next (execute-Follows m desktop fuel sim settle c s) (
      execute_all-LifeRun m desktop fuel sim settle cs
        (execute_legacy m desktop fuel sim settle c s).1)
