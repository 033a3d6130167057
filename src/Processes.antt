-- ===== src/Processes.antt =====
-- src/ptlab/processes.py: what is signalled when processes are terminated. The system is a
-- parameter; a set is a list without repetitions, in some order.
pub mod Signals
pub mod Kills
pub mod Ends
use pinetime_dev_tools.Prelude.{
  ℕ, zero, suc, ◌+◌, ◌-◌, List, [], ◌∷◌, ◌++◌, map, Option, none, some, Bool, true, false, not,
  ◌&&◌, ◌||◌, ltb, leb, ◌==◌, if◌then◌else◌, String, any,
}
use Prim.Native.Nat.{min}
use pinetime_dev_tools.Prelude.Int.{ℤ, pos, negsuc}
use pinetime_dev_tools.Prelude.Result.{Result, ok, err}
use pinetime_dev_tools.Prelude.State.{Exec, pure, raise, gets, modify, ◌>>=◌, ◌>>◌}

pub record ProcessRef : Type 0 where
  pub pid : ℤ
  pub pgid : ℤ
  pub name : String

pub data Signal : Type 0 where
  sigterm sigkill : Signal

-- What `os.kill` and `os.killpg` do: nothing, ProcessLookupError, or PermissionError.
pub data SignalOutcome : Type 0 where
  delivered lookup_error permission_error : SignalOutcome

-- `own_group` is the RuntimeError; `no_fuel` is the model's own: see Ends.
pub data ProcessError : Type 0 where
  own_group not_permitted no_fuel : ProcessError

-- Times are milliseconds.
pub record System (S : Type 0) : Type 0 where
  pub alive : ℤ → S → Bool
  pub send : ℤ → Signal → S → SignalOutcome × S
  pub own_group : ℤ
  pub now : S → ℕ
  pub sleep : ℕ → S → S

-- process_is_alive, for what `os.kill(pid, 0)` did.
abbrev pub process_is_alive : SignalOutcome → Bool
process_is_alive delivered = true
process_is_alive lookup_error = false
process_is_alive permission_error = true

abbrev pub same_ℤ : ℤ → ℤ → Bool
same_ℤ (pos a) (pos b) = a == b
same_ℤ (pos a) (negsuc b) = false
same_ℤ (negsuc a) (pos b) = false
same_ℤ (negsuc a) (negsuc b) = a == b

abbrev pub above_one : ℤ → Bool
above_one (pos n) = ltb 1 n
above_one (negsuc n) = false

abbrev pub is_in : ℤ → List ℤ → Bool
is_in x xs = any (same_ℤ x) xs

unfoldable pub filter_pids : (ℤ → Bool) → List ℤ → List ℤ
filter_pids f [] = []
filter_pids f (x ∷ xs) =
    let rest = filter_pids f xs in if f x && not (is_in x rest) then x ∷ rest else rest

abbrev pub is_target : ProcessRef → Bool
is_target r = above_one r.pid && above_one r.pgid

-- {ref.pgid for ref in refs if chosen(ref)}
unfoldable pub groups_of : (ProcessRef → Bool) → List ProcessRef → List ℤ
groups_of f [] = []
groups_of f (r ∷ rs) =
    let rest = groups_of f rs in if f r && not (is_in r.pgid rest) then r.pgid ∷ rest else rest

module _ {S : Type 0} (system : System S) where
  abbrev pub on_sent : SignalOutcome → Exec S ProcessError (Unit {0})
  on_sent delivered = pure tt
  on_sent lookup_error = pure tt
  on_sent permission_error = raise not_permitted

  abbrev pub send_to : ℤ → Signal → Exec S ProcessError (Unit {0})
  send_to target signal s = let (o, t) = system.send target signal s in on_sent o t

  -- A signal to each target; one that is gone is passed over.
  unfoldable pub send_each : Signal → List ℤ → Exec S ProcessError (Unit {0})
  send_each signal [] = pure tt
  send_each signal (t ∷ ts) = do send_to t signal; send_each signal ts

  abbrev pub pause : ℕ → List ℤ → S → S
  pause deadline [] s = s
  pause deadline (t ∷ ts) s = system.sleep (min 50 (deadline - system.now s)) s

  -- The `while` loop, on fuel for its rounds; `still` tells which targets are left.
  unfoldable pub wait_gone : ℕ → ℕ → (List ℤ → S → List ℤ) → List ℤ → Exec S ProcessError (List ℤ)
  wait_gone zero deadline still targets s = (err no_fuel, s)
  wait_gone (suc fuel) deadline still [] s = (ok [], s)
  wait_gone (suc fuel) deadline still (t ∷ ts) s =
      let left = still (t ∷ ts) s in
      let again = wait_gone fuel deadline still left (pause deadline left s) in
      if ltb (system.now s) deadline then again else (ok (t ∷ ts), s)

  -- SIGTERM, the wait, and SIGKILL for what is left. A pause lasts at least a millisecond, so one
  -- round for each is enough.
  unfoldable pub terminate : ℕ → (List ℤ → S → List ℤ) → List ℤ → Exec S ProcessError (Unit {0})
  unfolding send_each wait_gone
  terminate timeout still targets = do
    send_each sigterm targets
    deadline ← gets (λ s. system.now s + timeout)
    left ← wait_gone (suc timeout) deadline still targets
    send_each sigkill left

  abbrev pub first_groups : List ProcessRef → S → List ℤ
  first_groups processes s = groups_of (λ r. is_target r && system.alive r.pid s) processes

  abbrev pub groups_left : List ProcessRef → List ℤ → S → List ℤ
  groups_left processes left u =
      groups_of (λ r. is_target r && (is_in r.pgid left && system.alive r.pid u)) processes

  abbrev pub hits_own_group : List ProcessRef → Bool
  hits_own_group processes = any (λ r. is_target r && same_ℤ r.pgid system.own_group) processes

  unfoldable pub terminate_process_groups : List ProcessRef → ℕ → Exec S ProcessError (Unit {0})
  unfolding groups_of terminate
  terminate_process_groups processes timeout s =
      if hits_own_group processes
      then (err own_group, s)
      else terminate timeout (groups_left processes) (first_groups processes s) s

  abbrev pub pids_left : List ℤ → S → List ℤ
  pids_left left u = filter_pids (λ p. system.alive p u) left

  unfoldable pub terminate_pids : List ℤ → ℕ → Exec S ProcessError (Unit {0})
  unfolding filter_pids terminate
  terminate_pids pids timeout s =
      terminate timeout pids_left (filter_pids (λ p. above_one p && system.alive p s) pids) s
