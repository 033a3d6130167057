-- ===== src/Sim/Gestures.antt =====
-- The operations of `Simulator` in src/ptlab/sim.py that press, move and type. Times to sleep are
-- whole milliseconds.
use pinetime_dev_tools.Prelude.{
  ℕ, zero, suc, ◌+◌, ◌-◌, List, [], ◌∷◌, ◌++◌, length, drop, Option, none, some, Bool, true, false,
  String, if◌then◌else◌,
}
use pinetime_dev_tools.Prelude.Int.{ℤ, pos, negsuc, is_nonzero}
use pinetime_dev_tools.Prelude.Result.{ok}
use pinetime_dev_tools.Prelude.State.{pure, raise, ◌>>=◌, ◌>>◌}
use pinetime_dev_tools.Prelude.Texts.{Text, codes}
use pinetime_dev_tools.Control.Response.{same_text}
use pinetime_dev_tools.Hardware.Adb.{splitlines}
use pinetime_dev_tools.Sim.{SimState, value_error}
use pinetime_dev_tools.Sim.Machine.{word, Machine, Desktop, Simulator, Action, sees, sleeps}
use pinetime_dev_tools.Sim.Session.{load_state}
use pinetime_dev_tools.Sim.Input.{xdo_, to_screen, press_key, press_mouse, move_to, screen_is_off}

-- EVENTS, in which a key is a letter.
abbrev events : List (Text × Text)
events =
    (codes "ring", codes "r")
    ∷ (codes "unring", codes "R")
    ∷ (codes "buzz", codes "m")
    ∷ (codes "buzz-long", codes "M")
    ∷ (codes "notify", codes "n")
    ∷ (codes "clear-notify", codes "N")
    ∷ (codes "ble-connect", codes "b")
    ∷ (codes "ble-disconnect", codes "B")
    ∷ (codes "battery-up", codes "v")
    ∷ (codes "battery-down", codes "V")
    ∷ (codes "charging", codes "c")
    ∷ (codes "not-charging", codes "C")
    ∷ (codes "brightness-up", codes "l")
    ∷ (codes "brightness-down", codes "L")
    ∷ (codes "steps-up", codes "s")
    ∷ (codes "steps-down", codes "S")
    ∷ (codes "heartrate", codes "h")
    ∷ (codes "heartrate-stop", codes "H")
    ∷ (codes "weather", codes "w")
    ∷ (codes "clear-weather", codes "W")
    ∷ []

-- table.get(key, default)
unfoldable pub get_text : List (Text × Text) → Text → Text → Text
get_text [] key default = default
get_text ((k, v) ∷ table) key default = if same_text k key then v else get_text table key default

-- EVENTS.get(key, key)
unfoldable pub translated : Text → Text
unfolding get_text
translated key = get_text events key key

pub data Direction : Type 0 where
  up down left right : Direction

-- direction.capitalize()
abbrev pub capitalized : Direction → String
capitalized up = "Up"
capitalized down = "Down"
capitalized left = "Left"
capitalized right = "Right"

-- lines[-n:]; a slice from 0 is the whole list.
abbrev pub last_lines : ℤ → List Text → List Text
last_lines (pos zero) lines = lines
last_lines (pos (suc n)) lines = drop (length lines - suc n) lines
last_lines (negsuc n) lines = drop (suc n) lines

abbrev pub rounds_of : ℤ → ℕ
rounds_of (pos n) = n
rounds_of (negsuc n) = 0

module _ {W : Type 0} (m : Machine W) where
  -- time.sleep, of a time that may be negative.
  abbrev pub sleeps_ms : ℤ → Action W (Unit {0})
  sleeps_ms (pos n) = sleeps m n
  sleeps_ms (negsuc n) = raise value_error

  abbrev pub wake : SimState → ℤ → Bool → Action W Bool
  wake state settle false = pure false
  wake state settle true = do
    (x, y) ← to_screen m state (pos 120) (pos 120)
    move_to m state x y
    press_mouse m state "3"
    sleeps_ms settle
    pure true

  unfoldable pub awake : Simulator → ℤ → Action W Bool
  unfolding screen_is_off to_screen press_mouse
  awake sim settle = do
    state ← load_state m
    off ← sees (screen_is_off m sim)
    wake state settle off

  unfoldable pub tap : ℤ → ℤ → ℤ → Action W (Unit {0})
  unfolding to_screen press_mouse
  tap x y settle = do
    state ← load_state m
    (screen_x, screen_y) ← to_screen m state x y
    move_to m state screen_x screen_y
    press_mouse m state "1"
    sleeps_ms settle

  unfoldable pub swipe : Direction → ℤ → Action W (Unit {0})
  unfolding press_key
  swipe direction settle = do
    state ← load_state m
    press_key m state (codes (capitalized direction))
    sleeps_ms settle

  abbrev pub hold_button : SimState → Option ℤ → Action W (Unit {0})
  hold_button state none = press_mouse m state "3"
  hold_button state (some hold) =
      if is_nonzero hold
      then (do
        xdo_ m state (word "mousedown" ∷ word "3" ∷ [])
        sleeps_ms hold
        xdo_ m state (word "mouseup" ∷ word "3" ∷ []))
      else press_mouse m state "3"

  unfoldable pub button : Option ℤ → ℤ → Action W (Unit {0})
  unfolding to_screen press_mouse
  button hold settle = do
    state ← load_state m
    (x, y) ← to_screen m state (pos 120) (pos 120)
    move_to m state x y
    hold_button state hold
    sleeps_ms settle

  abbrev pub keysym : ℕ → Text
  keysym c = if m.isupper c then codes "shift+" ++ m.lower c else c ∷ []

  unfoldable pub press_keys : SimState → Text → Action W (Unit {0})
  unfolding press_key
  press_keys state [] = pure tt
  press_keys state (c ∷ cs) = do press_key m state (keysym c); sleeps m 50; press_keys state cs

  unfoldable pub key : Text → ℤ → Action W Text
  unfolding press_keys translated
  key name settle = do
    state ← load_state m
    press_keys state (translated name)
    sleeps_ms settle
    pure (translated name)

  -- The lines that are joined by newlines.
  unfoldable pub logs : Simulator → ℤ → Action W (List Text)
  logs sim lines s =
      if m.exists sim.layout.stdout s.world
      then (ok (last_lines lines (splitlines (m.read_text sim.layout.stdout s.world))), s)
      else (ok [], s)

module _ {W : Type 0} (m : Machine W) (desktop : Desktop W) where
  -- The moves for index, index + 1, ..., of the number that is left.
  unfoldable pub drag_moves : SimState → ℤ × ℤ → ℤ × ℤ → ℕ → ℕ → ℕ → Action W (Unit {0})
  drag_moves state from to steps index zero = pure tt
  drag_moves state from to steps index (suc k) = do
    move_to m state (desktop.blend from.0 to.0 index steps) (desktop.blend from.1 to.1 index steps)
    sleeps m 40
    drag_moves state from to steps (index + 1) k

  unfoldable pub drag : ℤ → ℤ → ℤ → ℤ → ℤ → ℤ → Action W (Unit {0})
  unfolding to_screen drag_moves
  drag x1 y1 x2 y2 steps settle = do
    state ← load_state m
    from ← to_screen m state x1 y1
    to ← to_screen m state x2 y2
    move_to m state from.0 from.1
    xdo_ m state (word "mousedown" ∷ word "1" ∷ [])
    sleeps m 50
    drag_moves state from to (rounds_of steps) 1 (rounds_of steps)
    xdo_ m state (word "mouseup" ∷ word "1" ∷ [])
    sleeps_ms m settle
