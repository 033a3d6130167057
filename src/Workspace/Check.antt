-- ===== src/Workspace/Check.antt =====
-- src/ptlab/protocol.py: the generator of the companion protocol, called with `--check`. What runs
-- it is a parameter.
use pinetime_dev_tools.Prelude.{List, [], ◌∷◌}
use pinetime_dev_tools.Prelude.Int.{ℤ}
use pinetime_dev_tools.Prelude.State.{Exec, pure, ◌>>=◌}
use pinetime_dev_tools.Hardware.{Outside}
use pinetime_dev_tools.Hardware.Adb.{Completed}
use pinetime_dev_tools.Sim.{FilePath, ◌/+◌}
use pinetime_dev_tools.Sim.Machine.{Word, word, path}
use pinetime_dev_tools.Workspace.{Workspace, infinitime}

-- ",".join(PROTOCOL_TARGETS) is one word.
abbrev pub protocol_targets : Word
protocol_targets = word "infinitime,infinisim,companion,devtools"

unfoldable pub protocol_check_command : Workspace → FilePath → List Word
protocol_check_command workspace python_executable =
    path python_executable
    ∷ path ((infinitime workspace /+ "tools") /+ "generate_companion_protocol.py")
    ∷ word "--workspace-root"
    ∷ path workspace.root
    ∷ word "--targets"
    ∷ protocol_targets
    ∷ word "--check"
    ∷ []

-- `runner` is given the command and the folder that it is to run in.
unfoldable pub check_protocol :
    {W : Type 0}
    → (List Word → FilePath → Exec W Outside Completed)
    → FilePath
    → Workspace
    → Exec W Outside ℤ
unfolding protocol_check_command
check_protocol runner python_executable workspace = do
  result ← runner (protocol_check_command workspace python_executable) (infinitime workspace)
  pure result.returncode
