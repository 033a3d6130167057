-- ===== src/Sim/Life/Promise.antt =====
-- What the commands of simctl.py promise, as a machine of two states: the simulator is down or up.
use pinetime_dev_tools.Prelude.{List, [], ◌∷◌, Option, none, some, ◌≡◌, ◌⊎◌, ◌↔◌}
use pinetime_dev_tools.Prelude.Result.{Result, ok, err}
use pinetime_dev_tools.Sim.{SimState, SimError, Failure, sim_error}
use pinetime_dev_tools.Sim.Command.{
  Command, starts, restarts, rebuilds, stops, kills, asks_status, wakes, reads_logs, shoots, taps,
  drags, swipes, presses, types, Printed,
}

pub data Life : Type 0 where
  down up : Life

pub data Class : Type 0 where
  starting halting driving looking : Class

abbrev pub class_of : Command → Class
class_of (starts display zoom port) = starting
class_of (restarts display zoom port) = starting
class_of (rebuilds display zoom port) = starting
class_of stops = halting
class_of kills = halting
class_of asks_status = looking
class_of (reads_logs lines) = looking
class_of wakes = driving
class_of (shoots name) = driving
class_of (taps x y) = driving
class_of (drags x1 y1 x2 y2 steps) = driving
class_of (swipes direction) = driving
class_of (presses hold) = driving
class_of (types name) = driving

abbrev pub Reply : Type 0
Reply = Result Failure Printed

-- What a command may do. A start that returns leaves the simulator up, and one that raises leaves
-- it as it was or down. A stop that returns leaves it down, and says that it was not running exactly
-- where it was down; one that raises leaves it up. Driving and looking change nothing, and driving
-- is refused where it is down.
abbrev pub Follows : Class → Life → Life → Reply → Type 0
Follows starting before after (ok line) = after ≡ up
Follows starting before after (err e) = (after ≡ before) ⊎ (after ≡ down)
Follows halting before after (ok line) =
    (after ≡ down) × ((line ≡ Printed.not_running) ↔ (before ≡ down))
Follows halting before after (err e) = (after ≡ up) × (before ≡ up)
Follows driving before after (ok line) = (after ≡ up) × (before ≡ up)
Follows driving before after (err e) =
    (after ≡ before) × (before ≡ down → e ≡ sim_error SimError.not_running)
Follows looking before after reply = after ≡ before

pub data LifeRun : Life → List (Command × Reply) → Life → Type 0 where
  done : {life : Life} → LifeRun life [] life
  next :
      {before mid after : Life} {c : Command} {reply : Reply} {rest : List (Command × Reply)}
      → Follows (class_of c) before mid reply
      → LifeRun mid rest after
      → LifeRun before ((c, reply) ∷ rest) after

abbrev pub life_of : Option SimState → Life
life_of none = down
life_of (some state) = up
