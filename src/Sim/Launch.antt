-- ===== src/Sim/Launch.antt =====
-- What `Simulator.start` of src/ptlab/sim.py does with processes: the X server, the window, and the
-- listener of the simulator. A loop takes the rest of its rounds as an action.
use Prim.Native.Nat.{min, max}
use pinetime_dev_tools.Prelude.{
  ℕ, zero, suc, ◌+◌, ◌-◌, List, [], ◌∷◌, Option, none, some, Bool, true, false, not, ◌&&◌, ◌||◌,
  ltb, if◌then◌else◌,
}
use pinetime_dev_tools.Prelude.Int.{ℤ, pos, add_ℤ, mul_ℤ}
use pinetime_dev_tools.Prelude.Result.{Result, ok, err}
use pinetime_dev_tools.Prelude.State.{Exec, pure, raise, ◌>>=◌, ◌>>◌}
use pinetime_dev_tools.Prelude.Texts.{Text}
use pinetime_dev_tools.Control.Response.{split_words}
use pinetime_dev_tools.Processes.{same_ℤ}
use pinetime_dev_tools.Hardware.{
  Outside, Kind, os_error, subprocess_error, value_error, bleak_error, other_error, strip,
}
use pinetime_dev_tools.Hardware.Adb.{Completed}
use pinetime_dev_tools.Sim.{
  FilePath, ◌/+◌, SimError, xvfb_exited, display_not_ready, no_display_number, bad_display_number,
  exited_before_ready, exited_while_starting, not_accepting, exited_immediately, no_window, Failure,
  no_fuel, same_path,
}
use pinetime_dev_tools.Sim.Machine.{
  Word, word, text, path, square, Environment, display, inherited, Machine, Simulator, littlefs_do,
  resources, Action, asks, sees, calls, fails, sleeps, killpg,
}

abbrev pub is_os_error : Kind → Bool
is_os_error os_error = true
is_os_error subprocess_error = false
is_os_error value_error = false
is_os_error bleak_error = false
is_os_error other_error = false

-- xvfb_dynamic_command(canvas)
abbrev pub xvfb_dynamic_command : ℤ → List Word
xvfb_dynamic_command canvas =
    word "Xvfb"
    ∷ word "-displayfd"
    ∷ word "1"
    ∷ word "-screen"
    ∷ word "0"
    ∷ square canvas
    ∷ word "-nolisten"
    ∷ word "tcp"
    ∷ []

abbrev xvfb_command : Text → ℤ → List Word
xvfb_command name canvas =
    word "Xvfb"
    ∷ text name
    ∷ word "-screen"
    ∷ word "0"
    ∷ square canvas
    ∷ word "-nolisten"
    ∷ word "tcp"
    ∷ []

abbrev display_geometry : List Word
display_geometry = word "xdotool" ∷ word "getdisplaygeometry" ∷ []

-- SCREEN * zoom + 200
abbrev pub canvas_of : ℤ → ℤ
canvas_of zoom = add_ℤ (mul_ℤ (pos 240) zoom) (pos 200)

abbrev pub last_of : List Text → Option Text
last_of [] = none
last_of (t ∷ []) = some t
last_of (t ∷ u ∷ ts) = last_of (u ∷ ts)

module _ {W : Type 0} (m : Machine W) where
  abbrev accepted_of : Result Outside (Unit {0}) → Exec W Outside Bool
  accepted_of (ok x) = pure true
  accepted_of (err e) = if is_os_error e.kind then pure false else raise e

  unfoldable pub tcp_listener_accepting : ℤ → ℕ → Exec W Outside Bool
  tcp_listener_accepting port timeout w = let (r, v) = m.connect port timeout w in accepted_of r v

  abbrev pub up_or : SimError → ℤ → Action W (Unit {0})
  up_or e pid = do up ← asks (m.running pid); if up then pure tt else fails e

  -- The wait between two probes.
  abbrev pub nap : ℕ → Action W (Unit {0})
  nap deadline s = sleeps m (min 50 (deadline - m.system.now s.world)) s

  abbrev pub probe : ℕ → ℤ → Action W Bool
  probe deadline port s =
      calls (tcp_listener_accepting port (min 200 (max 10 (deadline - m.system.now s.world)))) s

  abbrev pub after_probe : ℤ → ℕ → Action W (Unit {0}) → Bool → Action W (Unit {0})
  after_probe pid deadline again true = up_or exited_while_starting pid
  after_probe pid deadline again false = do nap deadline; again

  -- A round of the `while` loop, and what comes behind the loop.
  abbrev pub listen_round : ℕ → ℤ → ℤ → Action W (Unit {0}) → Action W (Unit {0})
  listen_round deadline port pid again = do
    up_or exited_before_ready pid
    accepted ← probe deadline port
    after_probe pid deadline again accepted

  abbrev pub give_up : ℤ → Action W (Unit {0})
  give_up pid = do up_or exited_before_ready pid; fails not_accepting

  unfoldable pub listen : ℕ → ℕ → ℤ → ℤ → Action W (Unit {0})
  unfolding tcp_listener_accepting
  listen zero deadline port pid s = (err no_fuel, s)
  listen (suc fuel) deadline port pid s =
      let again = listen_round deadline port pid (listen fuel deadline port pid) in
      if ltb (m.system.now s.world) deadline then again s else give_up pid s

  -- wait_for_tcp_listener("127.0.0.1", port, process_alive), with the time-out that `start` leaves
  -- at its default. A round takes at least a millisecond, so one for each is enough: see Ready.
  unfoldable pub wait_for_tcp_listener : ℕ → ℤ → ℤ → Action W (Unit {0})
  unfolding listen
  wait_for_tcp_listener timeout port pid = do
    deadline ← sees (λ w. m.system.now w + timeout)
    listen (suc timeout) deadline port pid

  abbrev after_geometry : Action W (Unit {0}) → Completed → Action W (Unit {0})
  after_geometry again done =
      if same_ℤ done.returncode (pos 0) then pure tt else (do sleeps m 50; again)

  abbrev pub wait_round : Text → ℤ → Action W (Unit {0}) → Action W (Unit {0})
  wait_round name xvfb again = do
    up_or xvfb_exited xvfb
    done ← calls (m.run (display name) display_geometry)
    after_geometry again done

  -- The rounds of _wait_for_x that are left.
  unfoldable pub wait_for_x : ℕ → Text → ℤ → Action W (Unit {0})
  wait_for_x zero name xvfb = fails display_not_ready
  wait_for_x (suc rounds) name xvfb = wait_round name xvfb (wait_for_x rounds name xvfb)

  -- What a failure does to a process that still runs: SIGKILL to its group.
  abbrev pub kill_if_running : {A : Type 0} → ℤ → Failure → Action W A
  kill_if_running pid e = do
    up ← asks (m.running pid)
    if up then killpg m pid else pure tt
    raise e

  abbrev pub guarded : {A : Type 0} → Result Failure A → (Failure → Action W A) → Action W A
  guarded (ok a) handler = pure a
  guarded (err e) handler = handler e

  -- try: body; except Exception as e: handler(e)
  abbrev pub try_except : {A : Type 0} → Action W A → (Failure → Action W A) → Action W A
  try_except body handler s = let (r, t) = body s in guarded r handler t

  abbrev pub number_read : Option Text → Action W Text
  number_read none = fails no_display_number
  number_read (some line) =
      if m.isdigit (strip line) then pure (b':' ∷ strip line) else fails bad_display_number

  abbrev pub read_display : ℤ → Action W Text
  read_display pid = do line ← asks (m.read_line pid 5000); number_read line

  abbrev pub any_display : ℤ → Action W (ℤ × Text)
  any_display canvas = do
    pid ← calls (m.popen inherited (xvfb_dynamic_command canvas))
    name ← try_except (read_display pid) (kill_if_running pid)
    pure (pid, name)

  -- Starts Xvfb, and tells what display it shows.
  abbrev pub open_display : ℤ → Option Text → Action W (ℤ × Text)
  open_display canvas none = any_display canvas
  open_display canvas (some []) = any_display canvas
  open_display canvas (some (c ∷ cs)) = do
    pid ← calls (m.popen inherited (xvfb_command (c ∷ cs) canvas))
    pure (pid, c ∷ cs)

  unfoldable pub start_xvfb : Simulator → ℤ → Option Text → Action W (ℤ × Text)
  unfolding wait_for_x
  start_xvfb sim canvas wanted = do
    calls (m.mkdir sim.layout.logs)
    calls (m.open_log (sim.layout.logs /+ "xvfb.stderr.log"))
    (pid, name) ← open_display canvas wanted
    try_except (wait_for_x 100 name pid) (kill_if_running pid)
    pure (pid, name)

  abbrev pub load_resources : Simulator → Option FilePath → Action W (Unit {0})
  load_resources sim none = pure tt
  load_resources sim (some zip) = do
    done ←
        calls (m.run inherited (path (littlefs_do sim) ∷ word "res" ∷ word "load" ∷ path zip ∷ []))
    pure tt

  unfoldable pub seed_flash : Simulator → Action W (Unit {0})
  seed_flash sim s =
      if m.exists (sim.layout.flash /+ "spiNorFlash.raw") s.world
        || not (m.exists (littlefs_do sim) s.world)
      then (ok tt, s)
      else load_resources sim (m.last_resources (resources sim) s.world) s

  unfoldable pub link_flash : Simulator → Action W (Unit {0})
  link_flash sim s =
      let source = sim.layout.flash /+ "spiNorFlash.raw" in
      let target = sim.layout.run /+ "spiNorFlash.raw" in
      if same_path sim.layout.flash sim.layout.run
      then (ok tt, s)
      else if m.is_symlink target s.world && m.resolves_to target source s.world
      then (ok tt, s)
      else if m.exists target s.world || m.is_symlink target s.world
      then (do calls (m.unlink target); calls (m.symlink_to target source)) s
      else calls (m.symlink_to target source) s

  abbrev pub after_search : Action W Text → ℤ → Option Text → Action W Text
  after_search again pid (some window) = pure window
  after_search again pid none = do up_or exited_immediately pid; sleeps m 50; again

  abbrev pub search_round : Environment → ℤ → Action W Text → Action W Text
  search_round env pid again = do
    done ←
        calls
          (m.run env (word "xdotool" ∷ word "search" ∷ word "--name" ∷ word "TFT Simulator" ∷ []))
    after_search again pid (last_of (split_words done.stdout))

  -- The rounds left of the search for the simulator's window.
  unfoldable pub find_window : ℕ → Environment → ℤ → Action W Text
  find_window zero env pid = fails no_window
  find_window (suc rounds) env pid = search_round env pid (find_window rounds env pid)
