-- ===== src/Processes/Ends.antt =====
-- A termination comes to an end.
use Prim.Native.Nat.{min}
use pinetime_dev_tools.Prelude.{
  ℕ, zero, suc, ◌+◌, ◌-◌, ◌<◌, ◌≤◌, List, [], ◌∷◌, ◌&&◌, ltb, if◌then◌else◌, ◌≢◌, ap, Bool-cases,
  inl, inr, arith,
}
use pinetime_dev_tools.Prelude.Int.{ℤ}
use pinetime_dev_tools.Prelude.Result.{Result, ok, err}
use pinetime_dev_tools.Prelude.State.{gets, continue, ◌>>=◌}
use pinetime_dev_tools.Processes.{
  ProcessRef, Signal, sigterm, sigkill, SignalOutcome, delivered, lookup_error, permission_error,
  ProcessError, own_group, no_fuel, System, filter_pids, above_one, on_sent, send_each, pause,
  wait_gone, terminate, first_groups, groups_left, hits_own_group, pids_left,
  terminate_process_groups, terminate_pids,
}

abbrev Ended : {S A : Type 0} → Result ProcessError A × S → Type 0
Ended r = r.0 ≢ err no_fuel

module _ {S : Type 0} (system : System S)
    (sleeps : (n : ℕ) (s : S) → system.now s + n ≤ system.now (system.sleep n s)) where
  send_each-Ended : (signal : Signal) (ts : List ℤ) (s : S) → Ended (send_each system signal ts s)
  unfolding send_each
  send_each-Ended signal [] s = λ e. cc
  send_each-Ended signal (t ∷ ts) s =
      go (system.send t signal s).0 (system.send t signal s).1 (send_each-Ended signal ts)
    where
      go :
          (o : SignalOutcome) (u : S)
          → ((v : S) → Ended (send_each system signal ts v))
          → Ended (
              continue
                (on_sent system o u).0
                (λ _. send_each system signal ts)
                (on_sent system o u).1)
      go delivered u again = again u
      go lookup_error u again = again u
      go permission_error u again = λ e. cc

  wait-Ended :
      (fuel deadline : ℕ) (still : List ℤ → S → List ℤ) (ts : List ℤ) (s : S)
      → deadline < system.now s + fuel
      → 1 ≤ fuel
      → Ended (wait_gone system fuel deadline still ts s)
  unfolding wait_gone
  wait-Ended zero deadline still ts s h one = absurd (omega arith)
  wait-Ended (suc fuel) deadline still [] s h one = λ e. cc
  wait-Ended (suc fuel) deadline still (t ∷ ts) s h one =
      elim (Bool-cases (ltb (system.now s) deadline)) [
        | inl early ↦
            rw early (behind (still (t ∷ ts) s) (ground arith) (wait-Ended fuel deadline still))
        | inr late ↦ rw late (λ e. cc)
      ]
    where
      none_left : (f : ℕ) (u : S) → 1 ≤ f → Ended (wait_gone system f deadline still [] u)
      none_left zero u k = absurd (omega arith)
      none_left (suc f) u k = λ e. cc

      behind :
          (left : List ℤ)
          → system.now s < deadline
          → ((l : List ℤ) (u : S)
              → deadline < system.now u + fuel
              → 1 ≤ fuel
              → Ended (wait_gone system fuel deadline still l u))
          → Ended (wait_gone system fuel deadline still left (pause system deadline left s))
      behind [] early again = none_left fuel s (omega arith)
      behind (x ∷ xs) early again =
          let slept = sleeps (min 50 (deadline - system.now s)) s in
          again (x ∷ xs) (system.sleep (min 50 (deadline - system.now s)) s) (omega (arith, slept))
            (omega arith)

  terminate-Ended :
      (timeout : ℕ) (still : List ℤ → S → List ℤ) (ts : List ℤ) (s : S)
      → Ended (terminate system timeout still ts s)
  unfolding terminate
  terminate-Ended timeout still ts s =
      on_terms (send_each system sigterm ts s).0 (send_each system sigterm ts s).1
        (send_each-Ended sigterm ts s)
    where
      on_waited :
          (o : Result ProcessError (List ℤ) × S)
          → Ended o
          → Ended (continue o.0 (send_each system sigkill) o.1)
      on_waited (ok left, u) h = send_each-Ended sigkill left u
      on_waited (err e, u) h = λ k. h (ap again k)
        where
          again : Result ProcessError (Unit {0}) → Result ProcessError (List ℤ)
          again (ok x) = ok []
          again (err x) = err x

      on_terms :
          (r : Result ProcessError (Unit {0})) (u : S)
          → r ≢ err no_fuel
          → Ended (
              continue r
                (λ _. gets (λ v. system.now v + timeout) >>= λ deadline.
                  wait_gone system (suc timeout) deadline still ts >>= send_each system sigkill)
                u)
      on_terms (err e) u h = h
      on_terms (ok x) u h =
          on_waited (wait_gone system (suc timeout) (system.now u + timeout) still ts u) (
            wait-Ended (suc timeout) (system.now u + timeout) still ts u (omega arith)
              (omega arith))

-- Where a sleep lasts at least as long as it says, both terminations end: the rounds of the wait
-- never use up their fuel, which is one for each millisecond of the time-out and one more.
pub terminations_end :
    {S : Type 0} (system : System S) (processes : List ProcessRef) (pids : List ℤ) (timeout : ℕ)
    (s : S)
    → ((n : ℕ) (u : S) → system.now u + n ≤ system.now (system.sleep n u))
    → ((terminate_process_groups system processes timeout s).0 ≢ err no_fuel)
      × ((terminate_pids system pids timeout s).0 ≢ err no_fuel)
unfolding terminate_process_groups terminate_pids
terminations_end system processes pids timeout s sleeps = (
  groups,
  terminate-Ended system sleeps timeout (pids_left system)
      (filter_pids (λ p. above_one p && system.alive p s) pids) s,
)
  where
    groups :
        (if hits_own_group system processes
          then (err own_group, s)
          else terminate system timeout
              (groups_left system processes)
              (first_groups system processes s)
              s).0
        ≢ err no_fuel
    groups = elim (Bool-cases (hits_own_group system processes)) [
      | inl own ↦ rw own (λ e. cc)
      | inr foreign ↦ rw foreign (
          terminate-Ended system sleeps timeout (groups_left system processes)
            (first_groups system processes s) s)
    ]
