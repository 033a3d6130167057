-- ===== src/Sim.antt =====
-- src/ptlab/sim.py: the simulator session. The state file and what is read from it are here; the
-- machine is a parameter, in Machine; Launch starts the processes, Session has the operations of
-- `Simulator` that start and end them, Input those that press and drag, and Command the dispatch.
pub mod Machine
pub mod Launch
pub mod Session
pub mod Start
pub mod Files
pub mod Ready
pub mod Launched
pub mod Started
pub mod Healthy
pub mod Life
pub mod Input
pub mod Gestures
pub mod Shot
pub mod Wakes
pub mod Pixels
pub mod Command
use mathlib.Core.Option
use pinetime_dev_tools.Prelude.{
  ℕ, List, [], ◌∷◌, ◌++◌, Option, none, some, Bool, true, false, not, ◌&&◌, ◌||◌, ◌==◌,
  if◌then◌else◌, String, str_eq,
}
use pinetime_dev_tools.Prelude.Int.{ℤ, pos, negsuc, is_nonzero}
use pinetime_dev_tools.Prelude.Result.{Result, ok, err, ◌>>=◌}
use pinetime_dev_tools.Prelude.Texts.{Text}
use pinetime_dev_tools.Control.Response.{parse_int}
use pinetime_dev_tools.Processes.{ProcessRef, ProcessError}
use pinetime_dev_tools.Hardware.{Outside}

-- The parts of a path.
abbrev pub FilePath : Type 0
FilePath = List String

pub record SimLayout : Type 0 where
  pub root : FilePath
  pub run : FilePath
  pub flash : FilePath
  pub shots : FilePath
  pub logs : FilePath
  pub state : FilePath
  pub stdout : FilePath
  pub stderr : FilePath

infixl 40 ◌/+◌
abbrev pub ◌/+◌ : FilePath → String → FilePath
path /+ name = path ++ name ∷ []

abbrev pub modern_layout : FilePath → SimLayout
modern_layout devtools =
    let root = devtools /+ ".ptlab" /+ "sim" in
    record {
      root = root;
      run = root /+ "run";
      flash = root /+ "flash";
      shots = root /+ "shots";
      logs = root /+ "logs";
      state = root /+ "state.json";
      stdout = root /+ "logs" /+ "sim.stdout.log";
      stderr = root /+ "logs" /+ "sim.stderr.log";
    }

abbrev pub legacy_layout : FilePath → SimLayout
legacy_layout devtools =
    let run = devtools /+ "run" in
    record {
      root = devtools;
      run = run;
      flash = run;
      shots = devtools /+ "shots";
      logs = run;
      state = run /+ "state.json";
      stdout = run /+ "sim.log";
      stderr = run /+ "sim.log";
    }

abbrev pub same_path : FilePath → FilePath → Bool
same_path [] [] = true
same_path [] (d ∷ ds) = false
same_path (c ∷ cs) [] = false
same_path (c ∷ cs) (d ∷ ds) = str_eq c d && same_path cs ds

-- An entry of a JSON object: its key is missing, its value is null, or it has a value.
pub data Entry {ℓ} (A : Type ℓ) : Type ℓ where
  missing null : Entry A
  given : A → Entry A

-- The object under "sim" or "xvfb".
pub record Process : Type 0 where
  pub pid : Entry ℤ
  pub pgid : Entry ℤ

pub record Paths : Type 0 where
  pub run : FilePath
  pub flash : FilePath
  pub shots : FilePath
  pub stdout : FilePath
  pub stderr : FilePath

-- The state file, with the types of the values that the tools write.
pub record SimState : Type 0 where
  pub display : Entry Text
  pub bridge_port : Entry ℤ
  pub gatt_port : Entry ℤ
  pub ble_control_port : Entry ℤ
  pub headless : Entry Bool
  pub window : Entry Text
  pub zoom : Entry ℤ
  pub sim_pid : Entry ℤ
  pub xvfb_pid : Entry ℤ
  pub sim : Entry Process
  pub xvfb : Entry Process
  pub paths : Entry Paths
  pub alive : Entry Bool

-- The SimErrors.
pub data SimError : Type 0 where
  not_running not_built zoom_too_small bad_bridge_port bad_control_port same_ports : SimError
  display_of_headless xvfb_exited display_not_ready no_display_number bad_display_number : SimError
  exited_before_ready exited_while_starting not_accepting exited_immediately no_window : SimError
  no_screenshot build_failed : SimError

-- `no_fuel` is the model's own.
pub data Failure : Type 0 where
  sim_error : SimError → Failure
  process_error : ProcessError → Failure
  outside : Outside → Failure
  type_error value_error key_error no_fuel : Failure

abbrev pub truthy : Entry ℤ → Option ℤ
truthy missing = none
truthy null = none
truthy (given z) = if is_nonzero z then some z else none

abbrev refs_with : String → Option ℤ → Option ℤ → List ProcessRef
refs_with name (some pid) (some pgid) = record { pid = pid; pgid = pgid; name = name } ∷ []
refs_with name (some pid) none = []
refs_with name none pgid = []

abbrev pub refs_named : String → Entry Process → List ProcessRef
refs_named name missing = []
refs_named name null = []
refs_named name (given p) = refs_with name (truthy p.pid) (truthy p.pgid)

abbrev pub process_refs : SimState → List ProcessRef
process_refs state = refs_named "sim" state.sim ++ refs_named "xvfb" state.xvfb

abbrev pids_of : Option ℤ → List ℤ
pids_of none = []
pids_of (some z) = z ∷ []

abbrev pub legacy_pids : SimState → List ℤ
legacy_pids state = pids_of (truthy state.sim_pid) ++ pids_of (truthy state.xvfb_pid)

-- int(state.get(key, 0)): a null is the TypeError of int(None).
abbrev pub int_of : Entry ℤ → Result Failure ℤ
int_of missing = ok (pos 0)
int_of null = err type_error
int_of (given z) = ok z

abbrev pid_or : Option ℤ → Entry ℤ → Result Failure ℤ
pid_or (some pid) legacy = ok pid
pid_or none legacy = int_of legacy

-- _state_pid, for the two entries that it looks up.
abbrev pub state_pid : Entry Process → Entry ℤ → Result Failure ℤ
state_pid missing legacy = int_of legacy
state_pid null legacy = int_of legacy
state_pid (given p) legacy = pid_or (truthy p.pid) legacy

abbrev pub is_true : Entry Bool → Bool
is_true missing = false
is_true null = false
is_true (given b) = b

-- text.split(".", 1)[0]
abbrev pub before_dot : Text → Text
before_dot [] = []
before_dot (c ∷ cs) = if c == b'.' then [] else c ∷ before_dot cs

-- The number of a display such as ":99.0"; `none` where the text does not begin with a colon.
abbrev pub display_digits : Entry Text → Option Text
display_digits missing = none
display_digits null = none
display_digits (given []) = none
display_digits (given (c ∷ cs)) = if c == b':' then some (before_dot cs) else none

module _ (digit : ℕ → Option ℕ) (alive : ℤ → Bool) (display_responsive : ℤ → Bool) where
  abbrev responds : ℤ → ℤ → Option ℤ → Bool
  responds sim_pid xvfb_pid none = false
  responds sim_pid xvfb_pid (some number) =
      alive sim_pid && (alive xvfb_pid && display_responsive number)

  abbrev shows : ℤ → ℤ → Option Text → Bool
  shows sim_pid xvfb_pid none = false
  shows sim_pid xvfb_pid (some digits) =
      (is_nonzero sim_pid && is_nonzero xvfb_pid)
      && responds sim_pid xvfb_pid (parse_int digit digits)

  unfoldable pub existing_state_is_healthy : SimState → Result Failure Bool
  existing_state_is_healthy state = do
    sim_pid ← state_pid state.sim state.sim_pid
    xvfb_pid ← state_pid state.xvfb state.xvfb_pid
    if is_true state.headless
        then ok (is_nonzero sim_pid && alive sim_pid)
        else ok (shows sim_pid xvfb_pid (display_digits state.display))

abbrev text_or_null : Option Text → Entry Text
text_or_null none = null
text_or_null (some t) = given t

abbrev pid_or_null : Option ℤ → Entry ℤ
pid_or_null none = null
pid_or_null (some pid) = given pid

abbrev group_of : ℤ → Process
group_of pid = record { pid = given pid; pgid = given pid }

abbrev xvfb_entry : Option ℤ → Entry Process
xvfb_entry none = missing
xvfb_entry (some pid) = given (group_of pid)

unfoldable pub build_sim_state :
    Option Text → ℤ → Option Text → ℤ → ℤ → Option ℤ → SimLayout → Option ℤ → Bool → SimState
build_sim_state display bridge_port window zoom sim_pid xvfb_pid layout ble_control_port headless =
    record {
      display = text_or_null display;
      bridge_port = given bridge_port;
      gatt_port = given bridge_port;
      ble_control_port = pid_or_null ble_control_port;
      headless = given headless;
      window = text_or_null window;
      zoom = given zoom;
      sim_pid = given sim_pid;
      xvfb_pid = pid_or_null xvfb_pid;
      sim = given (group_of sim_pid);
      xvfb = xvfb_entry xvfb_pid;
      paths = given (record {
        run = layout.run;
        flash = layout.flash;
        shots = layout.shots;
        stdout = layout.stdout;
        stderr = layout.stderr;
      });
      alive = missing;
    }
