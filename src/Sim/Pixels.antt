-- ===== src/Sim/Pixels.antt =====
-- Where `_to_screen` of src/ptlab/sim.py points at.
use pinetime_dev_tools.Prelude.{ℕ, ◌+◌, ◌*◌, ◌/◌, ◌<◌, ◌≡◌, sym, ap, ◌∙◌, subst, arith}
use pinetime_dev_tools.Prelude.Int.{ℤ, pos, negsuc, add_ℤ}
use pinetime_dev_tools.Prelude.Result.{Result, ok}
use pinetime_dev_tools.Prelude.State.{lift, pure, ◌>>=◌, bind_ran, pair_value}
use pinetime_dev_tools.Sim.{Entry, given, SimState, Failure}
use pinetime_dev_tools.Sim.Machine.{Machine, Desk}
use pinetime_dev_tools.Sim.Input.{int_at, on_screen, window_origin, to_screen}

-- `place` is one of the `zoom` screen pixels, from `origin`, that show pixel `x` of the watch.
pub record InPixel (origin : ℤ) (zoom x : ℕ) (place : ℤ) : Type 0 where
  pub offset : ℕ
  pub inside : offset < zoom
  pub placed : place ≡ add_ℤ origin (pos (x * zoom + offset))

add_ℤ-assoc : (o : ℤ) (a b : ℕ) → add_ℤ (add_ℤ o (pos a)) (pos b) ≡ add_ℤ o (pos (a + b))
add_ℤ-assoc (pos o) a b = ap pos (omega arith)
add_ℤ-assoc (negsuc o) a b = ground arith

on_screen-InPixel :
    (origin : ℤ) (zoom x : ℕ)
    → 0 < zoom
    → InPixel origin zoom x (on_screen origin (pos zoom) (pos x))
on_screen-InPixel origin zoom x h = record {
  offset = zoom / 2;
  inside = omega arith;
  placed = add_ℤ-assoc origin (x * zoom) (zoom / 2);
}

-- Where the state has a zoom above 0, a point of the watch is shown to the pointer: `_to_screen`
-- reads where the window stands, changes nothing beside that, and returns a screen pixel that shows
-- this very pixel of the watch, across and down.
pub to_screen-InPixel :
    {W : Type 0} (m : Machine W) (state : SimState) (zoom x y : ℕ) (sx sy : ℤ) (s t : Desk W)
    → state.zoom ≡ given (pos zoom)
    → 0 < zoom
    → to_screen m state (pos x) (pos y) s ≡ (ok (sx, sy), t)
    → (origin : ℤ × ℤ) × (window_origin m state s ≡ (ok origin, t))
      × InPixel origin.0 zoom x sx
      × InPixel origin.1 zoom y sy
unfolding to_screen
to_screen-InPixel {W} m state zoom x y sx sy s t e h k =
    let (origin, u, read, rest) = bind_ran (window_origin m state) _ s k in
    let place : ℤ → ℤ × ℤ =
      λ zoom'. (on_screen origin.0 zoom' (pos x), on_screen origin.1 zoom' (pos y)) in
    let ends : ◌≡◌ {A = Result Failure (ℤ × ℤ) × Desk W} (ok (place (pos zoom)), u)
        (ok (sx, sy), t) =
      sym
        (ap (λ (z : Entry ℤ). (lift {E = Failure} (int_at z) >>= λ zoom'. pure (place zoom')) u) e)
      ∙ rest in
    let same = pair_value (place (pos zoom)) (sx, sy) u t ends in
    (
      origin,
      read ∙ ap (λ (p : Result Failure (ℤ × ℤ) × Desk W). (ok origin, p.1)) ends,
      subst (InPixel origin.0 zoom x) (ap (λ (p : ℤ × ℤ). p.0) same)
          (on_screen-InPixel origin.0 zoom x h),
      subst (InPixel origin.1 zoom y) (ap (λ (p : ℤ × ℤ). p.1) same)
          (on_screen-InPixel origin.1 zoom y h),
    )
