-- ===== src/Sim/Machine.antt =====
-- The machine that the simulator session runs on: its processes, ports, files and X displays. The
-- state file is a field beside it; reading, writing and removing that file succeed.
use pinetime_dev_tools.Prelude.{ℕ, List, Option, Bool, false, String, if◌then◌else◌}
use pinetime_dev_tools.Prelude.Int.{ℤ, pos}
use pinetime_dev_tools.Prelude.Result.{ok, map_err}
use pinetime_dev_tools.Prelude.State.{Exec, pure, raise, ◌>>=◌}
use pinetime_dev_tools.Prelude.Texts.{Text, codes}
use pinetime_dev_tools.Processes.{
  ProcessError, System, same_ℤ, Signal, sigkill, SignalOutcome, delivered, lookup_error,
  permission_error,
}
use pinetime_dev_tools.Hardware.{Outside, os_error, subprocess_error}
use pinetime_dev_tools.Hardware.Adb.{Completed}
use pinetime_dev_tools.Sim.{
  FilePath, ◌/+◌, SimLayout, SimState, SimError, Failure, sim_error, outside, process_error,
}

-- A word of a command line: a text, or the text of a number, of a path, or of a square screen.
pub data Word : Type 0 where
  word : String → Word
  text : Text → Word
  number : ℤ → Word
  path : FilePath → Word
  square : ℤ → Word
  jobs : Word

-- DISPLAY set; or SDL_VIDEODRIVER=dummy and no DISPLAY; or what the tools were started with.
pub data Environment : Type 0 where
  display : Text → Environment
  dummy inherited : Environment

-- What `xdotool getdisplaygeometry` does within half a second.
pub data Geometry : Type 0 where
  returned : ℤ → Geometry
  file_not_found timeout_expired : Geometry

-- Times are milliseconds. `system` sends its signals with os.killpg, `kill` is os.kill. `running` is `poll() is None`; `read_line` is `select` with a time-out
-- and then `readline`; `bind_any` is the port of a socket that was bound to port 0.
pub record Machine (W : Type 0) : Type 0 where
  pub system : System W
  pub bind_any : Exec W Outside ℤ
  pub connect : ℤ → ℕ → Exec W Outside (Unit {0})
  pub popen : Environment → List Word → Exec W Outside ℤ
  pub run : Environment → List Word → Exec W Outside Completed
  pub running : ℤ → W → Bool × W
  pub geometry : ℤ → W → Geometry
  pub kill : ℤ → Signal → W → SignalOutcome × W
  pub read_line : ℤ → ℕ → W → Option Text × W
  pub exists : FilePath → W → Bool
  pub is_symlink : FilePath → W → Bool
  pub resolves_to : FilePath → FilePath → W → Bool
  pub mkdir : FilePath → Exec W Outside (Unit {0})
  pub unlink : FilePath → Exec W Outside (Unit {0})
  pub symlink_to : FilePath → FilePath → Exec W Outside (Unit {0})
  pub open_log : FilePath → Exec W Outside (Unit {0})
  pub last_resources : FilePath → W → Option FilePath
  pub read_text : FilePath → W → Text
  pub isupper : ℕ → Bool
  pub lower : ℕ → Text
  pub isdigit : Text → Bool
  pub digit : ℕ → Option ℕ

-- A file that a glob found: its modification time is in nanoseconds.
pub record Screenshot : Type 0 where
  pub path : FilePath
  pub mtime : ℕ
  pub size : ℕ

-- What the input operations need beside that. `blend a b i n` is int(a + (b - a) * (i / n)), in
-- floating-point numbers.
pub record Desktop (W : Type 0) : Type 0 where
  pub blend : ℤ → ℤ → ℕ → ℕ → ℤ
  pub time : W → ℕ
  pub screenshots : FilePath → W → List Screenshot
  pub size_of : FilePath → W → ℕ
  pub shot_name : W → Text
  pub move : FilePath → FilePath → Text → Exec W Outside (Unit {0})

-- Simulator(workspace, layout): `infinisim` is workspace.infinisim.
pub record Simulator : Type 0 where
  pub infinisim : FilePath
  pub layout : SimLayout

abbrev pub build_folder : Simulator → FilePath
build_folder sim = sim.infinisim /+ "build"

abbrev pub binary : Simulator → FilePath
binary sim = build_folder sim /+ "infinisim"

abbrev pub littlefs_do : Simulator → FilePath
littlefs_do sim = build_folder sim /+ "littlefs-do"

abbrev pub resources : Simulator → FilePath
resources sim = build_folder sim /+ "resources"

pub record Desk (W : Type 0) : Type 0 where
  pub file : Option SimState
  pub world : W

abbrev pub Action : Type 0 → Type 0 → Type 0
Action W A = Exec (Desk W) Failure A

module _ {W A : Type 0} where
  abbrev pub asks : (W → A × W) → Action W A
  asks f s = let (a, w) = f s.world in (ok a, record s { world = w })

  abbrev pub sees : (W → A) → Action W A
  sees f s = (ok (f s.world), s)

  -- A call of outside code.
  abbrev pub calls : Exec W Outside A → Action W A
  calls m s = let (r, w) = m s.world in (map_err outside r, record s { world = w })

  abbrev pub terminates : Exec W ProcessError A → Action W A
  terminates m s = let (r, w) = m s.world in (map_err process_error r, record s { world = w })

  abbrev pub fails : SimError → Action W A
  fails e = raise (sim_error e)

module _ {W : Type 0} (m : Machine W) where
  abbrev pub sleeps : ℕ → Action W (Unit {0})
  sleeps n s = (ok tt, record s { world = m.system.sleep n s.world })

  -- What processes.py works with where it signals processes instead of groups.
  abbrev pub pid_system : System W
  pid_system = record m.system { send = m.kill }

  abbrev pub killed : SignalOutcome → Action W (Unit {0})
  killed delivered = pure tt
  killed lookup_error = raise (outside (record { kind = os_error; message = codes "no process" }))
  killed permission_error =
      raise (outside (record { kind = os_error; message = codes "not permitted" }))

  -- os.killpg(pid, SIGKILL), with what it raises.
  abbrev pub killpg : ℤ → Action W (Unit {0})
  killpg pid = do sent ← asks (m.system.send pid sigkill); killed sent

  abbrev is_active : Geometry → Bool
  is_active (returned code) = same_ℤ code (pos 0)
  is_active file_not_found = false
  is_active timeout_expired = false

  abbrev pub display_is_active : W → ℤ → Bool
  display_is_active w screen = is_active (m.geometry screen w)

  abbrev check_returned : Completed → Action W Completed
  check_returned done =
      if same_ℤ done.returncode (pos 0)
      then pure done
      else raise (outside (record { kind = subprocess_error; message = done.stderr }))

  -- subprocess.run(words, check=True)
  abbrev pub run_checked : Environment → List Word → Action W Completed
  run_checked env words = do done ← calls (m.run env words); check_returned done

  -- allocate_tcp_port()
  abbrev pub allocate_tcp_port : Action W ℤ
  allocate_tcp_port = calls m.bind_any
