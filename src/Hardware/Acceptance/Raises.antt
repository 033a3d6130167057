-- ===== src/Hardware/Acceptance/Raises.antt =====
-- A run of an acceptance plan in src/ptlab/hardware.py looks up no label in vain.
use pinetime_dev_tools.Prelude.Result.{Result}
use pinetime_dev_tools.Hardware.Calm.{Calm}
