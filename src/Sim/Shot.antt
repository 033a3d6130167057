-- ===== src/Sim/Shot.antt =====
-- `Simulator.shot` of src/ptlab/sim.py: the screenshot that a key press makes the simulator write.
use pinetime_dev_tools.Prelude.{
  ℕ, zero, suc, List, [], ◌∷◌, ◌++◌, any, Option, none, some, Bool, false, not, ◌||◌, ltb, leb,
  ◌==◌, if◌then◌else◌,
}
use pinetime_dev_tools.Prelude.Result.{ok, err}
use pinetime_dev_tools.Prelude.State.{pure, ◌>>=◌, ◌>>◌}
use pinetime_dev_tools.Prelude.Texts.{Text, codes}
use pinetime_dev_tools.Control.Response.{is_empty, same_text}
use pinetime_dev_tools.Sim.{FilePath, no_screenshot, no_fuel, same_path}
use pinetime_dev_tools.Sim.Machine.{
  Machine, Desktop, Screenshot, Simulator, Action, sees, calls, fails, sleeps,
}
use pinetime_dev_tools.Sim.Session.{load_state}
use pinetime_dev_tools.Sim.Input.{press_key}

-- The screenshots that are new, or were written since the key was pressed.
unfoldable pub candidates : List FilePath → ℕ → List Screenshot → List Screenshot
candidates before mark [] = []
candidates before mark (shot ∷ shots) =
    let rest = candidates before mark shots in
    if not (any (same_path shot.path) before) || leb mark shot.mtime then shot ∷ rest else rest

-- max(shots, key=mtime): the first of the newest.
unfoldable pub newest : Screenshot → List Screenshot → Screenshot
newest best [] = best
newest best (shot ∷ shots) = newest (if ltb best.mtime shot.mtime then shot else best) shots

abbrev pub paths_of : List Screenshot → List FilePath
paths_of [] = []
paths_of (shot ∷ shots) = shot.path ∷ paths_of shots

unfoldable pub ends_with : Text → Text → Bool
ends_with suffix [] = same_text suffix []
ends_with suffix (c ∷ cs) = same_text suffix (c ∷ cs) || ends_with suffix cs

abbrev pub png_name : Text → Text
png_name name = if ends_with (codes ".png") name then name else name ++ codes ".png"

module _ {W : Type 0} (m : Machine W) (desktop : Desktop W) where
  -- `size` is none where the source has -1: no size equals it.
  abbrev pub same_size : Option ℕ → ℕ → Bool
  same_size none n = false
  same_size (some k) n = k == n

  abbrev pub size_round : FilePath → (Option ℕ → Action W (Unit {0})) → Action W (Unit {0})
  size_round path again = do read ← sees (desktop.size_of path); sleeps m 30; again (some read)

  -- The `while` loop that waits until the size stays the same, on fuel.
  unfoldable pub wait_for_size : ℕ → FilePath → Option ℕ → Action W (Unit {0})
  wait_for_size zero path size s = (err no_fuel, s)
  wait_for_size (suc fuel) path size s =
      if same_size size (desktop.size_of path s.world)
      then (ok tt, s)
      else size_round path (wait_for_size fuel path) s

  abbrev pub take_shot : ℕ → Action W (Option FilePath) → Screenshot → Action W (Option FilePath)
  take_shot fuel again shot =
      if ltb 0 shot.size
      then (do wait_for_size fuel shot.path none; pure (some shot.path))
      else (do sleeps m 50; again)

  -- What a round finds; `again` has the rounds that are left, and the path to fall back on.
  abbrev pub shot_round :
      ℕ
      → Option FilePath
      → (Option FilePath → Action W (Option FilePath))
      → List Screenshot
      → Action W (Option FilePath)
  shot_round fuel shot again [] = do sleeps m 50; again shot
  shot_round fuel shot again (c ∷ cs) =
      take_shot fuel (again (some (newest c cs).path)) (newest c cs)

  unfoldable pub look_for_shot :
      ℕ → ℕ → Simulator → List FilePath → ℕ → Option FilePath → Action W (Option FilePath)
  unfolding candidates newest wait_for_size
  look_for_shot fuel zero sim before mark shot = pure shot
  look_for_shot fuel (suc rounds) sim before mark shot =
      sees (λ w. candidates before mark (desktop.screenshots sim.layout.run w))
      >>= shot_round fuel shot (look_for_shot fuel rounds sim before mark)

  abbrev pub given_name : Option Text → Action W Text
  given_name none = sees desktop.shot_name
  given_name (some name) = if is_empty name then sees desktop.shot_name else pure name

  abbrev pub keep_shot : Simulator → Option Text → Option FilePath → Action W Text
  keep_shot sim name none = fails no_screenshot
  keep_shot sim name (some shot) = do
    filename ← given_name name
    calls (desktop.move shot sim.layout.shots (png_name filename))
    pure (png_name filename)

  -- Returns the name of the file under layout.shots.
  unfoldable pub shot : ℕ → Simulator → Option Text → Action W Text
  unfolding look_for_shot ends_with
  shot fuel sim name = do
    state ← load_state m
    calls (m.mkdir sim.layout.shots)
    before ← sees (λ w. paths_of (desktop.screenshots sim.layout.run w))
    mark ← sees desktop.time
    press_key m state (codes "i")
    found ← look_for_shot fuel 100 sim before mark none
    keep_shot sim name found
