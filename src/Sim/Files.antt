-- ===== src/Sim/Files.antt =====
-- What src/ptlab/sim.py leaves alone while it starts processes: the state file.
pub mod Driving
use pinetime_dev_tools.Prelude.{
  ℕ, zero, suc, ◌+◌, ◌-◌, List, [], ◌∷◌, ◌++◌, Option, none, some, Bool, true, false, not, ◌&&◌,
  ◌||◌, ltb, ◌≡◌, refl, sym, ◌∙◌, Bool-cases, inl, inr, if◌then◌else◌,
}
use pinetime_dev_tools.Prelude.Int.{ℤ, pos, negsuc}
use pinetime_dev_tools.Prelude.Result.{Result, ok, err}
use pinetime_dev_tools.Prelude.State.{Exec, pure, raise, lift, continue, ◌>>=◌, ◌>>◌}
use pinetime_dev_tools.Prelude.Texts.{Text}
use pinetime_dev_tools.Processes.{
  ProcessError, sigkill, same_ℤ, SignalOutcome, delivered, lookup_error, permission_error,
}
use pinetime_dev_tools.Hardware.Adb.{Completed}
use pinetime_dev_tools.Hardware.{Outside, strip}
use pinetime_dev_tools.Control.Response.{split_words}
use pinetime_dev_tools.Sim.{
  FilePath, ◌/+◌, SimState, SimError, exited_while_starting, exited_immediately, display_not_ready,
  no_display_number, no_window, Failure, same_path,
}
use pinetime_dev_tools.Sim.Machine.{
  Machine, Simulator, Environment, Desk, Action, asks, sees, terminates, fails, resources,
  littlefs_do, calls, sleeps, killed, killpg,
}
use pinetime_dev_tools.Sim.Launch.{
  up_or, listen, listen_round, give_up, wait_round, search_round, wait_for_tcp_listener, nap, probe,
  after_probe, wait_for_x, guarded, try_except, start_xvfb, seed_flash, link_flash, find_window,
  kill_if_running, any_display, read_display, number_read, open_display, load_resources, last_of,
  after_search,
}
use pinetime_dev_tools.Sim.Start.{allocate_other, make_folders}

-- An action that leaves the state file as it is.
pub record Keeps {W A : Type 0} (m : Action W A) : Type 0 where
  pub kept : (s : Desk W) → (m s).1.file ≡ s.file

module _ {W A : Type 0} where
  pub pure-Keeps : (a : A) → Keeps {W = W} {A = A} (pure a)
  pure-Keeps a = record { kept = λ s. refl }

  pub raise-Keeps : (e : Failure) → Keeps {W = W} {A = A} (raise e)
  raise-Keeps e = record { kept = λ s. refl }

  pub fails-Keeps : (e : SimError) → Keeps {W = W} {A = A} (fails e)
  fails-Keeps e = record { kept = λ s. refl }

  pub calls-Keeps : (f : Exec W Outside A) → Keeps (calls f)
  calls-Keeps f = record { kept = λ s. refl }

  pub terminates-Keeps : (f : Exec W ProcessError A) → Keeps (terminates f)
  terminates-Keeps f = record { kept = λ s. refl }

  pub asks-Keeps : (f : W → A × W) → Keeps (asks f)
  asks-Keeps f = record { kept = λ s. refl }

  pub sees-Keeps : (f : W → A) → Keeps (sees f)
  sees-Keeps f = record { kept = λ s. refl }

  pub lift-Keeps : (r : Result Failure A) → Keeps (lift {S = Desk W} r)
  lift-Keeps r = record { kept = λ s. refl }

  pub if-Keeps : (b : Bool) (m n : Action W A) → Keeps m → Keeps n → Keeps (if b then m else n)
  if-Keeps true m n hm hn = hm
  if-Keeps false m n hm hn = hn

  -- The same where the test has read the state.
  pub if_at-Keeps :
      (b : Desk W → Bool) (m n : Action W A)
      → Keeps m
      → Keeps n
      → Keeps (λ s. if b s then m s else n s)
  if_at-Keeps b m n hm hn = record { kept = λ s. go (b s) s }
    where
      go : (t : Bool) (s : Desk W) → (if t then m s else n s).1.file ≡ s.file
      go true s = hm.kept s
      go false s = hn.kept s

  pub at-Keeps :
      {I : Type 0} (f : I → Action W A) (i : Desk W → I)
      → ((x : I) → Keeps (f x))
      → Keeps (λ s. f (i s) s)
  at-Keeps f i h = record { kept = λ s. (h (i s)).kept s }

module _ {W A B : Type 0} where
  pub bind-Keeps :
      (m : Action W A) (f : A → Action W B) → Keeps m → ((a : A) → Keeps (f a)) → Keeps (m >>= f)
  bind-Keeps m f hm hf = record { kept = λ s. go s (m s).0 (m s).1 (hm.kept s) }
    where
      go :
          (s : Desk W) (r : Result Failure A) (t : Desk W)
          → t.file ≡ s.file
          → (continue r f t).1.file ≡ s.file
      go s (ok a) t e = (hf a).kept t ∙ e
      go s (err e) t k = k

module _ {W A : Type 0} where
  pub then-Keeps : (m : Action W (Unit {0})) (n : Action W A) → Keeps m → Keeps n → Keeps (m >> n)
  then-Keeps m n hm hn = bind-Keeps m (λ x. n) hm (λ x. hn)

module _ {W A : Type 0} (m : Machine W) where
  pub try-Keeps :
      (body : Action W A) (handler : Failure → Action W A)
      → Keeps body
      → ((e : Failure) → Keeps (handler e))
      → Keeps (try_except m body handler)
  try-Keeps body handler hb hh = record { kept = λ s. go s (body s).0 (body s).1 (hb.kept s) }
    where
      go :
          (s : Desk W) (r : Result Failure A) (t : Desk W)
          → t.file ≡ s.file
          → (guarded m r handler t).1.file ≡ s.file
      go s (ok a) t e = e
      go s (err x) t e = (hh x).kept t ∙ e

pub ruleset keeping = (
  pure-Keeps, raise-Keeps, fails-Keeps, calls-Keeps, terminates-Keeps, asks-Keeps, sees-Keeps,
  lift-Keeps, if-Keeps, bind-Keeps, then-Keeps,
)

module _ {W : Type 0} (m : Machine W) where
  pub sleeps-Keeps : (n : ℕ) → Keeps (sleeps m n)
  sleeps-Keeps n = record { kept = λ s. refl }

  up_or-Keeps : (e : SimError) (pid : ℤ) → Keeps (up_or m e pid)
  up_or-Keeps e pid = search keeping

  after_probe-Keeps :
      (pid : ℤ) (deadline : ℕ) (again : Action W (Unit {0})) (b : Bool)
      → Keeps again
      → Keeps (after_probe m pid deadline again b)
  after_probe-Keeps pid deadline again true h = up_or-Keeps exited_while_starting pid
  after_probe-Keeps pid deadline again false h =
      then-Keeps (nap m deadline) again (record { kept = λ s. refl }) h

  probe-Keeps : (deadline : ℕ) (port : ℤ) → Keeps (probe m deadline port)
  probe-Keeps deadline port = record { kept = λ s. refl }

  listen_round-Keeps :
      (deadline : ℕ) (port pid : ℤ) (again : Action W (Unit {0}))
      → Keeps again
      → Keeps (listen_round m deadline port pid again)
  listen_round-Keeps deadline port pid again h =
      search (keeping, up_or-Keeps, probe-Keeps, after_probe-Keeps)

  give_up-Keeps : (pid : ℤ) → Keeps (give_up m pid)
  give_up-Keeps pid = search (keeping, up_or-Keeps)

  listen-Keeps : (fuel deadline : ℕ) (port pid : ℤ) → Keeps (listen m fuel deadline port pid)
  unfolding listen
  listen-Keeps zero deadline port pid = record { kept = λ s. refl }
  listen-Keeps (suc fuel) deadline port pid =
      if_at-Keeps (λ s. ltb (m.system.now s.world) deadline)
        (listen_round m deadline port pid (listen m fuel deadline port pid)) (give_up m pid)
        (listen_round-Keeps deadline port pid _ (listen-Keeps fuel deadline port pid))
        (give_up-Keeps pid)

  pub wait-Keeps : (timeout : ℕ) (port pid : ℤ) → Keeps (wait_for_tcp_listener m timeout port pid)
  unfolding wait_for_tcp_listener
  wait-Keeps timeout port pid =
      bind-Keeps (sees (λ w. m.system.now w + timeout)) _ (sees-Keeps _)
        (λ deadline. listen-Keeps (suc timeout) deadline port pid)

  wait_round-Keeps :
      (name : Text) (xvfb : ℤ) (again : Action W (Unit {0}))
      → Keeps again
      → Keeps (wait_round m name xvfb again)
  wait_round-Keeps name xvfb again h = search (keeping, up_or-Keeps, sleeps-Keeps)

  wait_for_x-Keeps : (rounds : ℕ) (name : Text) (xvfb : ℤ) → Keeps (wait_for_x m rounds name xvfb)
  unfolding wait_for_x
  wait_for_x-Keeps zero name xvfb = fails-Keeps display_not_ready
  wait_for_x-Keeps (suc rounds) name xvfb =
      wait_round-Keeps name xvfb _ (wait_for_x-Keeps rounds name xvfb)

  killpg-Keeps : (pid : ℤ) → Keeps (killpg m pid)
  killpg-Keeps pid = bind-Keeps (asks (m.system.send pid sigkill)) (killed m) (asks-Keeps _) go
    where
      go : (o : SignalOutcome) → Keeps (killed m o)
      go delivered = pure-Keeps tt
      go lookup_error = raise-Keeps _
      go permission_error = raise-Keeps _

  kill_if_running-Keeps :
      {A : Type 0} (pid : ℤ) (e : Failure) → Keeps {W = W} {A = A} (kill_if_running m pid e)
  kill_if_running-Keeps pid e = search (keeping, killpg-Keeps)

  number_read-Keeps : (line : Option Text) → Keeps (number_read m line)
  number_read-Keeps none = fails-Keeps no_display_number
  number_read-Keeps (some line) = search keeping

  any_display-Keeps : (canvas : ℤ) → Keeps (any_display m canvas)
  any_display-Keeps canvas = search (keeping, try-Keeps, kill_if_running-Keeps, number_read-Keeps)

  open_display-Keeps : (canvas : ℤ) (wanted : Option Text) → Keeps (open_display m canvas wanted)
  open_display-Keeps canvas none = any_display-Keeps canvas
  open_display-Keeps canvas (some []) = any_display-Keeps canvas
  open_display-Keeps canvas (some (c ∷ cs)) = search keeping

  pub start_xvfb-Keeps :
      (sim : Simulator) (canvas : ℤ) (wanted : Option Text) → Keeps (start_xvfb m sim canvas wanted)
  unfolding start_xvfb
  start_xvfb-Keeps sim canvas wanted =
      search (keeping, try-Keeps, open_display-Keeps, wait_for_x-Keeps, kill_if_running-Keeps) depth
        9

  load_resources-Keeps : (sim : Simulator) (o : Option FilePath) → Keeps (load_resources m sim o)
  load_resources-Keeps sim none = pure-Keeps tt
  load_resources-Keeps sim (some zip) = search keeping

  pub seed_flash-Keeps : (sim : Simulator) → Keeps (seed_flash m sim)
  unfolding seed_flash
  seed_flash-Keeps sim = if_at-Keeps _ (pure tt) _ (pure-Keeps tt) (
      at-Keeps (load_resources m sim) (λ s. m.last_resources (resources sim) s.world)
        (load_resources-Keeps sim))

  pub link_flash-Keeps : (sim : Simulator) → Keeps (link_flash m sim)
  unfolding link_flash
  link_flash-Keeps sim =
      let source = sim.layout.flash /+ "spiNorFlash.raw" in
      let target = sim.layout.run /+ "spiNorFlash.raw" in
      let linked = calls (m.symlink_to target source) in
      if_at-Keeps (λ s. same_path sim.layout.flash sim.layout.run) (pure tt) _ (pure-Keeps tt)
        (if_at-Keeps _ (pure tt) _ (pure-Keeps tt) (
          if_at-Keeps _ (calls (m.unlink target) >> linked) linked (search keeping)
            (search keeping)))

  after_search-Keeps :
      (again : Action W Text) (pid : ℤ) (o : Option Text)
      → Keeps again
      → Keeps (after_search m again pid o)
  after_search-Keeps again pid (some window) h = pure-Keeps window
  after_search-Keeps again pid none h =
      then-Keeps (up_or m exited_immediately pid) _ (up_or-Keeps _ pid)
        (then-Keeps (sleeps m 50) again (sleeps-Keeps 50) h)

  search_round-Keeps :
      (env : Environment) (pid : ℤ) (again : Action W Text)
      → Keeps again
      → Keeps (search_round m env pid again)
  search_round-Keeps env pid again h = search (keeping, after_search-Keeps)

  pub find_window-Keeps :
      (rounds : ℕ) (env : Environment) (pid : ℤ) → Keeps (find_window m rounds env pid)
  unfolding find_window
  find_window-Keeps zero env pid = fails-Keeps no_window
  find_window-Keeps (suc rounds) env pid =
      search_round-Keeps env pid _ (find_window-Keeps rounds env pid)
