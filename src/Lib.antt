-- ===== src/Lib.antt =====
-- pinetime-dev-tools: the Python tools that drive a PineTime watch and its simulator.
--
-- The tools speak to a simulated watch over two sockets, and to real watches over BLE and adb. A
-- record of a schedule or a task is encoded and pushed as a sequence of messages
-- (src/ptlab/wire.py) through a client of the GATT bridge (src/ptlab/gatt.py), which cuts what
-- comes back into frames; another client (src/ptlab/control.py) sends line commands to the BLE
-- controller of the simulator. The hardware part (src/ptlab/hardware.py) checks real watches: a
-- probe of one watch, a plan of steps over several peers, and observations of one watch and of two
-- side by side. Scenarios run against the simulator and report what they checked, and the
-- processes of a run are terminated behind it.
--
-- Files. Prelude holds the shared names, lists, results and state passing; Bytes and Utf8 the byte
-- strings, `struct` and the UTF-8 codec of the language. Protocol holds the numbers and the
-- identifiers of generated/companion_protocol.py that the tools read. Wire has the encoders and
-- parsers of src/ptlab/wire.py under their names, and Transfer its conversations push_records,
-- pull_records and wait_family_commit. Gatt/Frame is GattFrameParser, Gatt/Names is
-- resolve_characteristic, and Gatt/Client is GattClient. Control/Lines is LineParser,
-- Control/Response is parse_control_line and coerce_control_values, and Control/Client is
-- BleControlClient. Hardware/Ble is BleakHardware, Hardware/Status _validate_status_pair,
-- Hardware/Adb AdbHardware, Hardware/Plan AcceptancePlan.load, Hardware/Acceptance
-- run_acceptance_plan, Hardware/Contract CharacteristicContract.load, Hardware/Advertising
-- observe_advertising, Hardware/Observation observe_pair, and Hardware/Soak run_soak. Scenario is
-- run_scenario of src/ptlab/scenario.py with the checks of its context, and Processes the
-- terminations of src/ptlab/processes.py. Sim is src/ptlab/sim.py: its state file, Sim/Machine
-- what it runs on, Sim/Launch the processes that `start` launches, Sim/Start and Sim/Session the
-- operations of Simulator that start and end them, Sim/Input, Sim/Gestures and Sim/Shot those that
-- drive it, Sim/Command execute_legacy and legacy_main; Sim/Life compares the whole with a machine
-- of two states. Its displays and ports are those of src/ptlab/allocation.py. Workspace is
-- src/ptlab/workspace.py, and Workspace/Check src/ptlab/protocol.py; Artifacts has the writers of
-- src/ptlab/artifacts.py and src/ptlab/transcript.py and the JUnit report, and Artifacts/Runs the
-- folder of a run. Tests runs the definitions on small inputs.
--
-- A method that changes an object and may raise is a function from the object to a result and the
-- object behind it, so what was written before a raise stays written. What a socket will bring is
-- a list in the client's state. Bleak, `subprocess.run`, signals, the operator, the clock, the
-- checkpoint's callback and Unicode's tables are parameters, as is the machine of a simulator: its
-- processes, ports, files and X displays. The state file of the simulator at hand is a part of the
-- state, whichever its layout; what is written to it is read back, and its values have the types
-- that the tools write.
--
-- Fuel. The loops of the two parsers run on the length of the buffer and one more, and each round
-- takes at least one byte off it. wait_family_commit runs on the milliseconds of its time-out and
-- one more, and each round sleeps 25. The wait of a termination does the same, with pauses of at
-- least one millisecond, and so does the wait for a port, where each round takes at least one.
-- observe_pair runs on the milliseconds of its duration and one more, and each scan takes at least
-- one; observe_advertising does too, where a round and its pause take one. The fuel of the loops
-- that allocate a port until it differs, and that wait until a screenshot keeps its size, is given
-- from outside: they end when the machine lets them.
--
-- Not modelled: the scenarios' scripts (src/ptlab/scenarios.py), the command line
-- (src/ptlab/cli.py) and the screen navigation (simnav.py); run_command and the opening of the
-- clients of a scenario's context (src/ptlab/scenario.py); the parsing of arguments; timestamps
-- and the fixed texts of results; documents whose fields have other types than the code expects; a
-- state file that cannot be read or written; a missing Bleak; durations below zero, and the time
-- that passes between two readings of the clock in the end of an observation's round.
pub mod Prelude
pub mod Bytes
pub mod Utf8
pub mod Protocol
pub mod Wire
pub mod Gatt
pub mod Transfer
pub mod Control
pub mod Hardware
pub mod Tests
pub mod Scenario
pub mod Sim
pub mod Workspace
pub mod Artifacts
pub mod Processes
