-- ===== src/Transfer/Clock.antt =====
-- How the wait for a durable commit ends, over a clock that does not go back.
use pinetime_dev_tools.Prelude.{
  ℕ, zero, suc, ◌+◌, ◌≤◌, ◌<◌, ltb, ltb→lt, String, ◌≡◌, refl, arith, Bool-cases, inl, inr,
}
use pinetime_dev_tools.Prelude.Result.{Result, ok, err, map_err}
use pinetime_dev_tools.Prelude.State.{Exec, continue, modify, ◌>>=◌}
use pinetime_dev_tools.Gatt.Client.{GattResponse, ClientError}
use pinetime_dev_tools.Transfer.{
  TransferError, commit_failed, commit_timed_out, client_error, Device, Progress, succeeded, failed,
  unsettled, progress, act_on, wait_loop, wait_family_commit,
}

-- What time.monotonic and time.sleep promise: reading takes no negative time, and a sleep lasts
-- at least as long as it says.
pub record ClockLaws {S : Type 0} (dev : Device S) : Type 0 where
  pub read_later : (ch : String) (s : S) → dev.now s ≤ dev.now (dev.read ch s).1
  pub sleep_later : (n : ℕ) (s : S) → dev.now s + n ≤ dev.now (dev.sleep n s)

module _ {S : Type 0} (dev : Device S) (operation token deadline : ℕ) where
  -- The last poll, and what it said.
  abbrev Polled : Progress → S → Type 0
  Polled p last =
      (s : S) × (r : GattResponse) × (dev.read "family_state_status" s ≡ (ok r, last))
      × (progress operation token r ≡ p)

  -- One case for each way out.
  abbrev pub WaitOutcome : Result TransferError (Unit {0}) × S → Type 0
  WaitOutcome (ok _, last) = Polled succeeded last
  WaitOutcome (err commit_failed, last) = Polled failed last
  WaitOutcome (err commit_timed_out, last) = deadline ≤ dev.now last
  WaitOutcome (err (client_error e), last) =
      (s : S) × (dev.read "family_state_status" s ≡ (err e, last))
  WaitOutcome (err _, last) = ⊥

  module _ (laws : ClockLaws dev) where
    poll_outcome :
        (s : S) (r : Result ClientError GattResponse) (s' : S)
        (again : Exec S TransferError (Unit {0}))
        → dev.read "family_state_status" s ≡ (r, s')
        → WaitOutcome (again (dev.sleep 25 s'))
        → WaitOutcome (
            continue
              (map_err client_error r)
              (λ x. act_on dev (progress operation token x) (modify (dev.sleep 25) >>= λ _. again))
              s')
    poll_outcome s (err e) s' again h rest = (s, h)
    poll_outcome s (ok x) s' again h rest = go (progress operation token x) refl
      where
        go :
            (p : Progress)
            → progress operation token x ≡ p
            → WaitOutcome (act_on dev p (modify (dev.sleep 25) >>= λ _. again) s')
        go succeeded e = (s, x, h, e)
        go failed e = (s, x, h, e)
        go unsettled e = rest

    wait_loop-WaitOutcome :
        (fuel : ℕ) (s : S)
        → 0 < fuel
        → deadline < dev.now s + fuel
        → WaitOutcome (wait_loop dev fuel operation token deadline s)
    unfolding wait_loop
    wait_loop-WaitOutcome zero s some_fuel h = absurd (omega arith)
    wait_loop-WaitOutcome (suc fuel) s some_fuel h = elim (Bool-cases (ltb (dev.now s) deadline)) [
      | inr over ↦ rw over (ground arith)
      | inl early ↦
          let (r, s') = dev.read "family_state_status" s in
          let before = ltb→lt (dev.now s) deadline early in
          rw early (
            poll_outcome s r s' (wait_loop dev fuel operation token deadline) refl (
              wait_loop-WaitOutcome fuel (dev.sleep 25 s') (omega arith)
                (omega (arith, laws.read_later "family_state_status" s, laws.sleep_later 25 s'))))
    ]

-- The wait for a durable commit always ends, and in one of four ways: it returns after a poll that
-- reported success for this operation and token; it raises after a poll that reported failure for
-- them; it times out at a time that is not before the deadline; or it passes on what a poll raised.
pub wait_family_commit-WaitOutcome :
    {S : Type 0} (dev : Device S) (operation token timeout : ℕ) (s : S)
    → ClockLaws dev
    → WaitOutcome dev operation token
        (dev.now s + timeout)
        (wait_family_commit dev operation token timeout s)
unfolding wait_family_commit
wait_family_commit-WaitOutcome dev operation token timeout s laws =
    wait_loop-WaitOutcome dev operation token (dev.now s + timeout) laws (suc timeout) s
      (omega arith) (omega arith)
