-- ===== src/Tests/Workspace.antt =====
-- The search of src/ptlab/workspace.py in two folders, of which the second is in a workspace, and a
-- check of src/ptlab/protocol.py that fails.
use pinetime_dev_tools.Prelude.{
  List, [], ◌∷◌, Option, none, some, Bool, true, false, ◌&&◌, ◌≡◌, refl, str_eq,
}
use pinetime_dev_tools.Prelude.Int.{pos}
use pinetime_dev_tools.Prelude.Result.{ok}
use pinetime_dev_tools.Prelude.State.{Exec}
use pinetime_dev_tools.Hardware.{Outside}
use pinetime_dev_tools.Hardware.Adb.{Completed}
use pinetime_dev_tools.Sim.{FilePath}
use pinetime_dev_tools.Sim.Machine.{Word}
use pinetime_dev_tools.Workspace.{
  Workspace, FileSystem, paths_from, starts_or, found_or, discover_workspace,
}
use pinetime_dev_tools.Workspace.Check.{protocol_check_command, check_protocol}
use pinetime_dev_tools.Workspace.Discovery.{first_workspace, discover_workspace-first}

abbrev is_below : FilePath → FilePath → Bool
is_below [] path = true
is_below (x ∷ root) [] = false
is_below (x ∷ root) (y ∷ path) = str_eq x y && is_below root path

abbrev files : FileSystem
files = record { resolve = λ path. path; is_dir = λ path. is_below ("home" ∷ "watch" ∷ []) path }

abbrev starts : List FilePath
starts = ("tmp" ∷ []) ∷ ("home" ∷ "watch" ∷ "InfiniSim" ∷ "build" ∷ []) ∷ []

discover_workspace-first_example :
    discover_workspace files none [] starts
    ≡ found_or files (first_workspace files (paths_from files (starts_or files [] starts)))
discover_workspace-first_example = discover_workspace-first files [] starts

-- A runner that keeps what it was given, and fails with 3.
abbrev failing : List Word → FilePath → Exec (Option (List Word × FilePath)) Outside Completed
failing command folder s =
    (ok (record { returncode = pos 3; stdout = []; stderr = [] }), some (command, folder))

abbrev home : Workspace
home = record { root = "home" ∷ [] }

check_fails :
    check_protocol failing ("python" ∷ []) home none
    ≡ (ok (pos 3), some (protocol_check_command home ("python" ∷ []), "home" ∷ "InfiniTime" ∷ []))
unfolding check_protocol
check_fails = refl
