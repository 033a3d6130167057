-- ===== src/Sim/Ready.antt =====
-- `wait_for_tcp_listener` of src/ptlab/sim.py: that it ends, and what it has seen when it does.
use Prim.Native.Nat.{min, max}
use pinetime_dev_tools.Prelude.{
  ℕ, zero, suc, ◌+◌, ◌-◌, ◌<◌, ◌≤◌, Bool, true, false, ltb, ltb→lt, ◌≡◌, refl, Bool-cases, inl, inr,
  arith,
}
use pinetime_dev_tools.Prelude.Int.{ℤ}
use pinetime_dev_tools.Prelude.Result.{Result, ok, err, map_err}
use pinetime_dev_tools.Prelude.State.{continue, ◌>>=◌}
use pinetime_dev_tools.Hardware.{Outside}
use pinetime_dev_tools.Sim.{
  SimError, Failure, sim_error, outside, no_fuel, exited_before_ready, not_accepting,
}
use pinetime_dev_tools.Sim.Machine.{Machine, Desk, Action, fails}
use pinetime_dev_tools.Sim.Launch.{
  tcp_listener_accepting, up_or, nap, probe, after_probe, listen_round, give_up, listen,
  wait_for_tcp_listener,
}

-- Time does not run backwards, and a sleep lasts at least as long as it says.
pub record Passes {W : Type 0} (m : Machine W) : Type 0 where
  pub sleep_lasts : (n : ℕ) (w : W) → m.system.now w + n ≤ m.system.now (m.system.sleep n w)
  pub connect_lasts :
      (port : ℤ) (n : ℕ) (w : W)
      → m.system.now w ≤ m.system.now (tcp_listener_accepting m port n w).1
  pub running_lasts : (pid : ℤ) (w : W) → m.system.now w ≤ m.system.now (m.running pid w).1

module _ {W : Type 0} (m : Machine W) (port pid : ℤ) where
  -- A connection was accepted, and then, at the end, the process was seen to run.
  pub record Accepted (after : W) : Type 0 where
    pub from : W
    pub timeout : ℕ
    pub accepted : (tcp_listener_accepting m port timeout from).0 ≡ ok true
    pub running : m.running pid (tcp_listener_accepting m port timeout from).1 ≡ (true, after)

  -- What the wait has seen at its end; that it used up its fuel is no end.
  abbrev pub Awaited : ℕ → Result Failure (Unit {0}) × Desk W → Type 0
  Awaited deadline (ok x, t) = Accepted t.world
  Awaited deadline (err (sim_error not_accepting), t) = deadline ≤ m.system.now t.world
  Awaited deadline (err no_fuel, t) = ⊥
  Awaited deadline (err e, t) = Unit

module _ {W : Type 0} (m : Machine W) where
  abbrev ran : ℤ → Desk W → Desk W
  ran pid s = record s { world = (m.running pid s.world).1 }

  up_or-cases :
      (P : Result Failure (Unit {0}) × Desk W → Type 0) (e : SimError) (pid : ℤ)
      (f : Unit {0} → Action W (Unit {0})) (s : Desk W)
      → ((m.running pid s.world).0 ≡ true → P (f tt (ran pid s)))
      → ((m.running pid s.world).0 ≡ false → P (err (sim_error e), ran pid s))
      → P ((up_or m e pid >>= f) s)
  up_or-cases P e pid f s here gone = elim (Bool-cases (m.running pid s.world).0) [
    | inl up ↦ rw up (here up)
    | inr down ↦ rw down (gone down)
  ]

module _ {W : Type 0} (m : Machine W) (port pid : ℤ) (passes : Passes m) (deadline : ℕ) where
  abbrev Good : Result Failure (Unit {0}) × Desk W → Type 0
  Good = Awaited m port pid deadline

  abbrev probe_timeout : Desk W → ℕ
  probe_timeout s = min 200 (max 10 (deadline - m.system.now s.world))

  abbrev probed : Desk W → Desk W
  probed s = record s { world = (tcp_listener_accepting m port (probe_timeout s) s.world).1 }

  give_up-Good : (s : Desk W) → deadline ≤ m.system.now s.world → Good (give_up m pid s)
  give_up-Good s late =
      up_or-cases m Good exited_before_ready pid (λ x. fails not_accepting) s
        (λ up. omega (arith, passes.running_lasts pid s.world)) (λ down. tt)

  -- Behind a nap that was begun no earlier than `start`, before the deadline, time has passed.
  nap-later :
      (start : ℕ) (s : Desk W)
      → start ≤ m.system.now s.world
      → start < deadline
      → start + 1 ≤ m.system.now (nap m deadline s).1.world
  nap-later start s h early =
      let slept = passes.sleep_lasts (min 50 (deadline - m.system.now s.world)) s.world in
      omega (arith, slept)

  round-Good :
      (again : Action W (Unit {0})) (s : Desk W)
      → m.system.now s.world < deadline
      → ((t : Desk W) → m.system.now s.world + 1 ≤ m.system.now t.world → Good (again t))
      → Good (listen_round m deadline port pid again s)
  round-Good again s early rest =
      up_or-cases m Good exited_before_ready pid
        (λ x. probe m deadline port >>= after_probe m pid deadline again) s
        (λ up. probes (ran m pid s) (passes.running_lasts pid s.world)) (λ down. tt)
    where
      answered :
          (u : Desk W) (r : Result Outside Bool)
          → m.system.now s.world ≤ m.system.now (probed u).world
          → (tcp_listener_accepting m port (probe_timeout u) u.world).0 ≡ r
          → Good (continue (map_err outside r) (after_probe m pid deadline again) (probed u))
      answered u (err e) late k = tt
      answered u (ok false) late k =
          rest (nap m deadline (probed u)).1
            (nap-later (m.system.now s.world) (probed u) late early)
      answered u (ok true) late k = elim (Bool-cases (m.running pid (probed u).world).0) [
        | inl up ↦ rw up (record {
          from = u.world;
          timeout = probe_timeout u;
          accepted = k;
          running = rw (← up) refl;
        })
        | inr down ↦ rw down tt
      ]

      probes :
          (u : Desk W)
          → m.system.now s.world ≤ m.system.now u.world
          → Good ((probe m deadline port >>= after_probe m pid deadline again) u)
      probes u h =
          answered u (tcp_listener_accepting m port (probe_timeout u) u.world).0
            (omega (arith, passes.connect_lasts port (probe_timeout u) u.world)) refl

  listen-Good :
      (fuel : ℕ) (s : Desk W)
      → deadline < m.system.now s.world + fuel
      → 1 ≤ fuel
      → Good (listen m fuel deadline port pid s)
  unfolding listen
  listen-Good zero s h one = absurd (omega arith)
  listen-Good (suc fuel) s h one = elim (Bool-cases (ltb (m.system.now s.world) deadline)) [
    | inl early ↦
        let before = ltb→lt (m.system.now s.world) deadline early in
        rw early (
          round-Good (listen m fuel deadline port pid) s before
            (λ t later. listen-Good fuel t (omega (arith, later, h)) (omega (arith, before, h))))
    | inr late ↦ rw late (give_up-Good s (ground arith))
  ]

-- Where time passes, the wait for the simulator's port ends: its rounds never use up their fuel. It
-- returns only behind a probe that the port accepted, with the process seen to run after it; and it
-- reports that the port did not accept only when the time-out is over.
pub wait_for_tcp_listener-Awaited :
    {W : Type 0} (m : Machine W) (timeout : ℕ) (port pid : ℤ) (s : Desk W)
    → Passes m
    → Awaited m port pid
        (m.system.now s.world + timeout)
        (wait_for_tcp_listener m timeout port pid s)
unfolding wait_for_tcp_listener
wait_for_tcp_listener-Awaited m timeout port pid s passes =
    listen-Good m port pid passes (m.system.now s.world + timeout) (suc timeout) s (omega arith)
      (omega arith)
