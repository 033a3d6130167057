-- ===== src/Artifacts/Runs.antt =====
-- The folder of a run: `create_run_paths` and `create_run_skeleton` of src/ptlab/artifacts.py, and
-- `allocate_display` of src/ptlab/allocation.py.
pub mod Skeleton
use pinetime_dev_tools.Prelude.{
  ℕ, zero, suc, ◌+◌, List, [], ◌∷◌, ◌++◌, Option, none, some, Bool, true, false, not, String,
  str_eq, if◌then◌else◌,
}
use pinetime_dev_tools.Prelude.Int.{ℤ, pos, negsuc}
use pinetime_dev_tools.Prelude.Result.{Result, ok, err, map_err}
use pinetime_dev_tools.Prelude.State.{Exec, pure, raise, ◌>>=◌, ◌>>◌}
use pinetime_dev_tools.Prelude.Texts.{Text}
use pinetime_dev_tools.Control.Response.{is_empty}
use pinetime_dev_tools.Processes.{same_ℤ}
use pinetime_dev_tools.Hardware.{Outside, strip}
use pinetime_dev_tools.Sim.{FilePath, ◌/+◌}
use pinetime_dev_tools.Workspace.{Workspace, last_part, repositories}
use pinetime_dev_tools.Artifacts.{Json, number, text, other, Fields, Writer, emit_event}

pub record RunPaths : Type 0 where
  pub root : FilePath
  pub run : FilePath
  pub flash : FilePath
  pub shots : FilePath
  pub logs : FilePath
  pub result : FilePath
  pub junit : FilePath
  pub events : FilePath
  pub transcript : FilePath
  pub stdout : FilePath
  pub stderr : FilePath

abbrev pub run_paths : FilePath → RunPaths
run_paths root = record {
  root = root;
  run = root /+ "run";
  flash = root /+ "flash";
  shots = root /+ "shots";
  logs = root /+ "logs";
  result = root /+ "result.json";
  junit = root /+ "junit.xml";
  events = root /+ "events.ndjson";
  transcript = root /+ "transcript.ndjson";
  stdout = root /+ "logs" /+ "stdout.log";
  stderr = root /+ "logs" /+ "stderr.log";
}

pub record RepositoryState : Type 0 where
  pub path : FilePath
  pub sha : Text
  pub is_dirty : Bool

-- result.json of a run that was only created, less its times and its artifacts' paths.
pub record RunResult : Type 0 where
  pub run_id : String
  pub status : String
  pub workspace_root : FilePath
  pub bridge_port : ℤ
  pub gatt_port : ℤ
  pub ble_control_port : ℤ
  pub display : ℕ
  pub repositories : List (String × RepositoryState)

-- `no_display` is the RuntimeError; `no_fuel` is the model's own.
pub data RunError : Type 0 where
  outside : Outside → RunError
  no_display no_fuel : RunError

-- What a run's folder is made with: `git_head` and `git_status` are what `git` prints.
pub record Host (W : Type 0) : Type 0 where
  pub mkdir : FilePath → Exec W Outside (Unit {0})
  pub chmod : FilePath → Exec W Outside (Unit {0})
  pub touch : FilePath → Exec W Outside (Unit {0})
  pub fresh_name : W → String × W
  pub port_allocator : Exec W Outside ℤ
  pub is_active : ℕ → W → Bool × W
  pub git_head : FilePath → Exec W Outside Text
  pub git_status : FilePath → Exec W Outside Text
  pub utc_now : W → Json
  pub append : Fields → Exec W Outside (Unit {0})
  pub write_result : RunResult → Exec W Outside (Unit {0})

-- range(start, start + n)
unfoldable pub range : ℕ → ℕ → List ℕ
range start zero = []
range start (suc n) = start ∷ range (suc start) n

abbrev pub created_result :
    Workspace → RunPaths → ℤ → ℤ → ℕ → List (String × RepositoryState) → RunResult
created_result workspace paths gatt_port ble_control_port display states = record {
  run_id = last_part paths.root;
  status = "created";
  workspace_root = workspace.root;
  bridge_port = gatt_port;
  gatt_port = gatt_port;
  ble_control_port = ble_control_port;
  display = display;
  repositories = states;
}

module _ {W : Type 0} (host : Host W) where
  abbrev pub in_writer : {A : Type 0} → Exec W Outside A → Exec (Writer W) RunError A
  in_writer m s = let (r, w) = m s.world in (map_err outside r, record s { world = w })

  abbrev pub emits : String → Fields → Exec (Writer W) RunError (Unit {0})
  emits event fields s =
      let (r, t) = emit_event host.utc_now host.append event fields s in (map_err outside r, t)

  -- Each of the folders, and then the two empty logs. A folder that exists is an error.
  unfoldable pub make_run : RunPaths → Exec (Writer W) RunError RunPaths
  make_run paths = do
    in_writer (host.mkdir paths.root)
    in_writer (host.chmod paths.root)
    in_writer (host.mkdir paths.run)
    in_writer (host.mkdir paths.flash)
    in_writer (host.mkdir paths.shots)
    in_writer (host.mkdir paths.logs)
    in_writer (host.touch paths.stdout)
    in_writer (host.touch paths.stderr)
    pure paths

  abbrev pub fresh_identifier : Exec (Writer W) RunError String
  fresh_identifier s = let (name, w) = host.fresh_name s.world in (ok name, record s { world = w })

  -- run_id or a fresh name
  abbrev pub identifier_or : Option String → Exec (Writer W) RunError String
  identifier_or none = fresh_identifier
  identifier_or (some name) = if str_eq name "" then fresh_identifier else pure name

  unfoldable pub create_run_paths : FilePath → Option String → Exec (Writer W) RunError RunPaths
  unfolding make_run
  create_run_paths runs_root run_id = do
    name ← identifier_or run_id
    make_run (run_paths (runs_root /+ name))

  abbrev pub asks_active : ℕ → Exec (Writer W) RunError Bool
  asks_active n s = let (b, w) = host.is_active n s.world in (ok b, record s { world = w })

  abbrev pub display_or : ℕ → Exec (Writer W) RunError ℕ → Bool → Exec (Writer W) RunError ℕ
  display_or n rest true = rest
  display_or n rest false = pure n

  -- The display is ":n" for the number that is returned.
  unfoldable pub allocate_display : List ℕ → Exec (Writer W) RunError ℕ
  allocate_display [] = raise no_display
  allocate_display (n ∷ rest) = do
    active ← asks_active n
    display_or n (allocate_display rest) active

  -- `while ble_control_port == gatt_port: allocate`, on fuel.
  unfoldable pub allocate_other : ℕ → ℤ → ℤ → Exec (Writer W) RunError ℤ
  allocate_other zero gatt_port port s = (err no_fuel, s)
  allocate_other (suc fuel) gatt_port port s =
      let again = (do
        other_port ← in_writer host.port_allocator
        allocate_other fuel gatt_port other_port) in
      if same_ℤ port gatt_port then again s else (ok port, s)

  unfoldable pub repository_state : FilePath → Exec (Writer W) RunError RepositoryState
  repository_state path = do
    head ← in_writer (host.git_head path)
    changes ← in_writer (host.git_status path)
    pure (record { path = path; sha = strip head; is_dirty = not (is_empty changes) })

  unfoldable pub collect_repository_states :
      List (String × FilePath) → Exec (Writer W) RunError (List (String × RepositoryState))
  unfolding repository_state
  collect_repository_states [] = pure []
  collect_repository_states ((name, path) ∷ rest) = do
    state ← repository_state path
    states ← collect_repository_states rest
    pure ((name, state) ∷ states)

  unfoldable pub create_run_skeleton : ℕ → Workspace → FilePath → Exec (Writer W) RunError RunPaths
  unfolding create_run_paths allocate_display range allocate_other collect_repository_states
  create_run_skeleton fuel workspace runs_root = do
    paths ← create_run_paths runs_root none
    emits "run.created" (("run_id", text (last_part paths.root)) ∷ [])
    gatt_port ← in_writer host.port_allocator
    first_port ← in_writer host.port_allocator
    ble_control_port ← allocate_other fuel gatt_port first_port
    display ← allocate_display (range 99 31)
    states ← collect_repository_states (repositories workspace)
    in_writer (
        host.write_result
          (created_result workspace paths gatt_port ble_control_port display states))
    emits "run.ready" (("status", text "created") ∷ [])
    pure paths
