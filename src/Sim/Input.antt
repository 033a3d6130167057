-- ===== src/Sim/Input.antt =====
-- How `Simulator` of src/ptlab/sim.py presses and moves, where its window is, and whether its screen
-- is off.
use pinetime_dev_tools.Prelude.{
  List, [], ◌∷◌, Option, none, some, Bool, true, false, ◌&&◌, String, if◌then◌else◌,
}
use pinetime_dev_tools.Prelude.Int.{ℤ, add_ℤ, mul_ℤ, half}
use pinetime_dev_tools.Prelude.Result.{Result, ok, err}
use pinetime_dev_tools.Prelude.State.{pure, lift, ◌>>=◌, ◌>>◌}
use pinetime_dev_tools.Prelude.Texts.{Text, codes}
use pinetime_dev_tools.Control.Response.{same_text, split_pair, parse_int}
use pinetime_dev_tools.Hardware.{contains, strip}
use pinetime_dev_tools.Hardware.Adb.{Completed, splitlines}
use pinetime_dev_tools.Sim.{
  Entry, missing, null, given, SimState, Failure, type_error, value_error, key_error,
}
use pinetime_dev_tools.Sim.Machine.{
  Word, word, text, number, display, Machine, Simulator, Action, sleeps, run_checked,
}

-- The lines of the log that tell of the screen.
abbrev pub is_sleep : Text → Bool
is_sleep line = contains (codes "[LCD] Sleep") line

abbrev pub is_wakeup : Text → Bool
is_wakeup line = contains (codes "[LCD] Wakeup") line

-- What a line tells, where `off` is what the lines before it told.
abbrev pub off_next : Text → Bool → Bool
off_next line off = if is_sleep line then true else if is_wakeup line then false else off

-- The loop of _screen_is_off over the lines.
unfoldable pub off_after : Bool → List Text → Bool
off_after off [] = off
off_after off (line ∷ lines) = off_after (off_next line off) lines

-- dict(line.split("=", 1) for line in lines)
abbrev pub geometry_of : List Text → Result Failure (List (Text × Text))
geometry_of [] = ok []
geometry_of (line ∷ lines) = paired (split_pair line) (geometry_of lines)
  where
    paired :
        Option (Text × Text)
        → Result Failure (List (Text × Text))
        → Result Failure (List (Text × Text))
    paired none rest = err value_error
    paired (some p) (ok rest) = ok (p ∷ rest)
    paired (some p) (err e) = err e

-- geometry[key]: the last line with the key counts.
unfoldable pub last_value : Text → List (Text × Text) → Option Text
last_value key [] = none
last_value key ((k, v) ∷ rest) = elim (last_value key rest) [
  | some found ↦ some found
  | none ↦ if same_text k key then some v else none
]

abbrev pub int_or_error : Option ℤ → Result Failure ℤ
int_or_error none = err value_error
int_or_error (some z) = ok z

abbrev pub index_or_error : Option Text → Result Failure Text
index_or_error none = err key_error
index_or_error (some t) = ok t

-- str(state[key])
abbrev pub text_of : Entry Text → Result Failure Text
text_of missing = err key_error
text_of null = ok (codes "None")
text_of (given t) = ok t

-- int(state[key])
abbrev pub int_at : Entry ℤ → Result Failure ℤ
int_at missing = err key_error
int_at null = err type_error
int_at (given z) = ok z

-- The middle of the square of zoom by zoom pixels that shows pixel `x`, from `origin`.
abbrev pub on_screen : ℤ → ℤ → ℤ → ℤ
on_screen origin zoom x = add_ℤ (add_ℤ origin (mul_ℤ x zoom)) (half zoom)

module _ {W : Type 0} (m : Machine W) where
  unfoldable pub xdo : SimState → List Word → Action W Completed
  xdo state words = do
    name ← lift (text_of state.display)
    run_checked m (display name) (word "xdotool" ∷ words)

  abbrev pub xdo_ : SimState → List Word → Action W (Unit {0})
  xdo_ state words = do done ← xdo state words; pure tt

  abbrev pub coordinate : String → List (Text × Text) → Action W ℤ
  coordinate key geometry = do
    digits ← lift (index_or_error (last_value (codes key) geometry))
    lift (int_or_error (parse_int m.digit digits))

  unfoldable pub window_origin : SimState → Action W (ℤ × ℤ)
  unfolding xdo last_value
  window_origin state = do
    window ← lift (text_of state.window)
    done ← xdo state (word "getwindowgeometry" ∷ word "--shell" ∷ text window ∷ [])
    geometry ← lift (geometry_of (splitlines (strip done.stdout)))
    x ← coordinate "X" geometry
    y ← coordinate "Y" geometry
    pure (x, y)

  unfoldable pub to_screen : SimState → ℤ → ℤ → Action W (ℤ × ℤ)
  unfolding window_origin
  to_screen state x y = do
    (origin_x, origin_y) ← window_origin state
    zoom ← lift (int_at state.zoom)
    pure (on_screen origin_x zoom x, on_screen origin_y zoom y)

  unfoldable pub press_key : SimState → Text → Action W (Unit {0})
  unfolding xdo
  press_key state key = do
    window ← lift (text_of state.window)
    xdo_ state (word "windowfocus" ∷ word "--sync" ∷ text window ∷ [])
    xdo_ state (word "keydown" ∷ text key ∷ [])
    sleeps m 150
    xdo_ state (word "keyup" ∷ text key ∷ [])

  unfoldable pub press_mouse : SimState → String → Action W (Unit {0})
  unfolding xdo
  press_mouse state button = do
    xdo_ state (word "mousedown" ∷ word button ∷ [])
    sleeps m 150
    xdo_ state (word "mouseup" ∷ word button ∷ [])

  abbrev pub move_to : SimState → ℤ → ℤ → Action W (Unit {0})
  move_to state x y = xdo_ state (word "mousemove" ∷ number x ∷ number y ∷ [])

  unfoldable pub screen_is_off : Simulator → W → Bool
  unfolding off_after
  screen_is_off sim w =
      m.exists sim.layout.stdout w && off_after false (splitlines (m.read_text sim.layout.stdout w))
