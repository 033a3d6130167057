-- ===== src/Tests/Sim.antt =====
-- A simulator session of src/ptlab/sim.py on a machine that does all that it is asked.
use pinetime_dev_tools.Prelude.{
  ℕ, suc, ◌+◌, ◌-◌, leb, ◌&&◌, if◌then◌else◌, List, [], ◌∷◌, Option, none, some, Bool, true, false,
  ◌≡◌, ◌↔◌, refl, arith,
}
use pinetime_dev_tools.Prelude.Int.{ℤ, pos}
use pinetime_dev_tools.Prelude.Result.{ok, err}
use pinetime_dev_tools.Prelude.Texts.{codes}
use pinetime_dev_tools.Processes.{System, delivered}
use pinetime_dev_tools.Hardware.Adb.{Completed, splitlines, lines_from}
use pinetime_dev_tools.Control.Response.{split_pair, parse_digits}
use mathlib.Core.Option.{bind}
use pinetime_dev_tools.Sim.{SimLayout, legacy_layout, given, SimState, type_error, build_sim_state}
use pinetime_dev_tools.Sim.Machine.{Machine, Desktop, Simulator, Desk, returned}
use pinetime_dev_tools.Sim.Launch.{
  seed_flash, link_flash, tcp_listener_accepting, wait_for_tcp_listener,
}
use pinetime_dev_tools.Sim.Start.{StartOptions, start}
use pinetime_dev_tools.Sim.Input.{screen_is_off, window_origin, to_screen}
use pinetime_dev_tools.Sim.Command.{Command, stops, kills, asks_status, taps, starts}
use pinetime_dev_tools.Sim.Ready.{Passes, Awaited, wait_for_tcp_listener-Awaited}
use pinetime_dev_tools.Sim.Started.{Started, start-Started}
use pinetime_dev_tools.Sim.Healthy.{start-headless_twice}
use pinetime_dev_tools.Sim.Life.Promise.{LifeRun, life_of}
use pinetime_dev_tools.Sim.Life.Commands.{execute_all, execute_all-LifeRun}
use pinetime_dev_tools.Sim.Wakes.{SleepsLast, screen_is_off-SleepsLast}
use pinetime_dev_tools.Sim.Pixels.{InPixel, to_screen-InPixel}

record Clock : Type 0 where
  time : ℕ
  port : ℕ

abbrev box : System Clock
box = record {
  alive = λ p w. true;
  send = λ t signal w. (delivered, w);
  own_group = pos 9;
  now = λ w. w.time;
  sleep = λ n w. record w { time = w.time + n };
}

abbrev printed : Completed
printed = record { returncode = pos 0; stdout = codes "X=10\nY=20\n"; stderr = [] }

abbrev digit : ℕ → Option ℕ
digit c = if leb b'0' c && leb c b'9' then some (c - b'0') else none

abbrev machine : Machine Clock
machine = record {
  system = box;
  bind_any = λ w. (ok (pos w.port), record w { port = suc w.port });
  connect = λ port n w. (ok tt, w);
  popen = λ env words w. (ok (pos 20), w);
  run = λ env words w. (ok printed, w);
  running = λ pid w. (true, w);
  geometry = λ n w. returned (pos 0);
  kill = λ pid signal w. (delivered, w);
  read_line = λ pid n w. (some (codes "99"), w);
  exists = λ path w. true;
  is_symlink = λ path w. false;
  resolves_to = λ path target w. false;
  mkdir = λ path w. (ok tt, w);
  unlink = λ path w. (ok tt, w);
  symlink_to = λ path target w. (ok tt, w);
  open_log = λ path w. (ok tt, w);
  last_resources = λ path w. none;
  read_text = λ path w. codes "[LCD] Wakeup\n[LCD] Sleep\n";
  isupper = λ c. false;
  lower = λ c. c ∷ [];
  isdigit = λ t. true;
  digit = digit;
}

abbrev desktop : Desktop Clock
desktop = record {
  blend = λ a b i n. b;
  time = λ w. w.time;
  screenshots = λ path w. [];
  size_of = λ path w. 0;
  shot_name = λ w. codes "shot";
  move = λ path folder name w. (ok tt, w);
}

abbrev layout : SimLayout
layout = legacy_layout ("devtools" ∷ [])

abbrev sim : Simulator
sim = record { infinisim = "InfiniSim" ∷ []; layout = layout }

abbrev options : StartOptions
options = record {
  display = none;
  zoom = pos 1;
  bridge_port = none;
  ble_control_port = none;
  headless = true;
}

abbrev booted : Desk Clock
booted = record { file = none; world = record { time = 0; port = 18000 } }

passes : Passes machine
unfolding tcp_listener_accepting
passes = record {
  sleep_lasts = λ n w. omega arith;
  connect_lasts = λ port n w. omega arith;
  running_lasts = λ pid w. omega arith;
}

abbrev launched : SimState
unfolding build_sim_state
launched =
    build_sim_state none (pos 18000) none (pos 1) (pos 20) none layout (some (pos 18001)) true

abbrev ended : Desk Clock
unfolding build_sim_state
ended = record { file = some launched; world = record { time = 50; port = 18002 } }

start_run : start machine 2 sim options booted ≡ (ok launched, ended)
unfolding start seed_flash link_flash wait_for_tcp_listener launched build_sim_state ended
start_run = refl

wait_for_tcp_listener-Awaited_example :
    Awaited machine
      (pos 18001)
      (pos 20)
      5000
      (wait_for_tcp_listener machine 5000 (pos 18001) (pos 20) booted)
wait_for_tcp_listener-Awaited_example =
    wait_for_tcp_listener-Awaited machine 5000 (pos 18001) (pos 20) booted passes

start-Started_example : Started machine launched ended
start-Started_example =
    start-Started machine 2 sim options launched booted ended passes refl start_run

start-headless_twice_example : start machine 3 sim options ended ≡ (err type_error, ended)
start-headless_twice_example =
    start-headless_twice machine 2 sim options launched booted ended refl refl start_run 3 sim
      options

abbrev commands : List Command
commands = stops ∷ starts none (pos 1) (pos 18632) ∷ asks_status ∷ taps (pos 3) (pos 4) ∷ kills ∷ []

execute_all-LifeRun_example :
    LifeRun
      (life_of ended.file)
      (execute_all machine desktop 2 sim (pos 450) commands ended).0
      (life_of (execute_all machine desktop 2 sim (pos 450) commands ended).1.file)
execute_all-LifeRun_example = execute_all-LifeRun machine desktop 2 sim (pos 450) commands ended

screen_is_off-SleepsLast_example :
    (screen_is_off machine sim booted.world ≡ true)
    ↔ (◌≡◌ {A = Bool} true true × SleepsLast (splitlines (codes "[LCD] Wakeup\n[LCD] Sleep\n")))
screen_is_off-SleepsLast_example = screen_is_off-SleepsLast machine sim booted.world

abbrev shown : SimState
unfolding build_sim_state
shown =
    build_sim_state (some (codes ":99")) (pos 18000) (some (codes "77")) (pos 2) (pos 20)
      (some (pos 21)) layout (some (pos 18001)) false

place_run : to_screen machine shown (pos 3) (pos 4) booted ≡ (ok (pos 17, pos 29), booted)
unfolding to_screen shown build_sim_state lines_from split_pair parse_digits bind
place_run = refl

shown_zoom : shown.zoom ≡ given (pos 2)
unfolding shown build_sim_state
shown_zoom = refl

to_screen-InPixel_example :
    (origin : ℤ × ℤ) × (window_origin machine shown booted ≡ (ok origin, booted))
    × InPixel origin.0 2 3 (pos 17)
    × InPixel origin.1 2 4 (pos 29)
to_screen-InPixel_example =
    to_screen-InPixel machine shown 2 3 4 (pos 17) (pos 29) booted booted shown_zoom (omega arith)
      place_run
