-- ===== src/Transfer.antt =====
-- The conversations of src/ptlab/wire.py: `push_records`, `pull_records` and `wait_family_commit`,
-- over any GATT device. Times are milliseconds.
pub mod Clock
pub mod Push
pub mod Plan
pub mod Pull
use pinetime_dev_tools.Prelude.{
  ℕ, zero, suc, ◌+◌, List, [], ◌∷◌, ◌++◌, Option, none, some, Bool, ◌&&◌, ltb, ◌==◌, if◌then◌else◌,
  String, str_eq, length, get_or,
}
use pinetime_dev_tools.Prelude.Int.{ℤ, pos}
use pinetime_dev_tools.Prelude.Result.{Result, ok, err, map_err}
use pinetime_dev_tools.Prelude.State.{Exec, pure, raise, lift, gets, modify, ◌>>=◌, ◌>>◌}
use pinetime_dev_tools.Protocol.{
  family_status_size, state_succeeded, state_failed, operation_schedule, operation_tasks,
}
use pinetime_dev_tools.Bytes.{Bytes, uint_at}
use pinetime_dev_tools.Gatt.Client.{GattResponse, ClientError}
use pinetime_dev_tools.Wire.{
  WireError, Digest, begin_sync, record_message, commit_sync, parse_digest,
}

-- RuntimeErrors with their ATT status, the KeyError of an unknown characteristic, and what the
-- encoders and the client raise. `no_fuel` is the model's own: see Clock.
pub data TransferError : Type 0 where
  begin_failed commit_refused : ℕ → TransferError
  record_failed select_failed read_failed : ℕ → ℕ → TransferError
  digest_failed : ℕ → TransferError
  commit_failed commit_timed_out unknown_sync no_fuel : TransferError
  wire_error : WireError → TransferError
  client_error : ClientError → TransferError

-- A connected client with the clock and `time.sleep`, as far as the conversations use them.
pub record Device (S : Type 0) : Type 0 where
  pub read : String → Exec S ClientError GattResponse
  pub write : String → Bytes → Exec S ClientError GattResponse
  pub now : S → ℕ
  pub sleep : ℕ → S → S

-- An exception of the client passes through.
abbrev pub calling {ℓ} : {S : Type 0} {A : Type ℓ} → Exec S ClientError A → Exec S TransferError A
calling m s = let (r, s') = m s in (map_err client_error r, s')

abbrev pub encoding {ℓ} : {S : Type 0} {A : Type ℓ} → Result WireError A → Exec S TransferError A
encoding r = lift (map_err wire_error r)

-- `raise` unless the ATT status is 0.
abbrev pub expect_ok :
    {S : Type 0} → GattResponse → (ℕ → TransferError) → Exec S TransferError (Unit {0})
expect_ok r e = if r.status == 0 then pure tt else raise (e r.status)

-- What a status payload says of the operation and the token that are waited for.
pub data Progress : Type 0 where
  succeeded failed unsettled : Progress

abbrev settled : ℕ → Progress
settled state =
    if state == state_succeeded
    then succeeded
    else if state == state_failed
    then failed
    else unsettled

unfoldable pub progress : ℕ → ℕ → GattResponse → Progress
progress operation token r =
    if r.status == 0 && length r.payload == family_status_size
    then (if get_or r.payload 3 0 == operation && uint_at 4 6 r.payload == token
        then settled (get_or r.payload 2 0)
        else unsettled)
    else unsettled

abbrev pub operation_of : String → Option ℕ
operation_of sync =
    if str_eq sync "schedule_sync"
    then some operation_schedule
    else if str_eq sync "tasks_sync"
    then some operation_tasks
    else none

module _ {S : Type 0} (dev : Device S) where
  open dev use {read, write, now, sleep}

  -- One round of the `while` loop whose test has passed.
  abbrev pub act_on : Progress → Exec S TransferError (Unit {0}) → Exec S TransferError (Unit {0})
  act_on succeeded again = pure tt
  act_on failed again = raise commit_failed
  act_on unsettled again = again

  unfoldable pub wait_loop : ℕ → ℕ → ℕ → ℕ → Exec S TransferError (Unit {0})
  wait_loop zero operation token deadline s = (err no_fuel, s)
  wait_loop (suc fuel) operation token deadline s =
      let again = wait_loop fuel operation token deadline in
      let poll =
        (do
          r ← calling (read "family_state_status")
          act_on (progress operation token r) (do modify (sleep 25); again))
          s in
      if ltb (now s) deadline then poll else (err commit_timed_out, s)

  -- Every round sleeps 25 ms, so one round for each millisecond is enough.
  unfoldable pub wait_family_commit : ℕ → ℕ → ℕ → Exec S TransferError (Unit {0})
  unfolding wait_loop progress
  wait_family_commit operation token timeout s =
      wait_loop (suc timeout) operation token (now s + timeout) s

  -- The loop over `enumerate(records)`.
  unfoldable pub push_each : String → ℤ → ℕ → List Bytes → Exec S TransferError (Unit {0})
  push_each sync record_version index [] = pure tt
  push_each sync record_version index (record_bytes ∷ rest) = do
    message ← encoding (record_message (pos index) record_bytes record_version)
    r ← calling (write sync message)
    expect_ok r (record_failed index)
    push_each sync record_version (index + 1) rest

  abbrev pub wait_for : Option ℕ → ℕ → Exec S TransferError (Unit {0})
  wait_for none token = raise unknown_sync
  wait_for (some operation) token = wait_family_commit operation token 5000

  unfoldable pub push_records : String → List Bytes → ℕ → ℤ → Exec S TransferError (Unit {0})
  unfolding push_each wait_family_commit
  push_records sync records version record_version = do
    first ← encoding (begin_sync (pos (length records)) (pos version))
    r ← calling (write sync first)
    expect_ok r begin_failed
    push_each sync record_version 0 records
    last ← encoding (commit_sync (pos (length records)))
    r ← calling (write sync last)
    expect_ok r commit_refused
    wait_for (operation_of sync) version

  -- `for index in range(digest.count)`; `bytes((index,))` is one byte, since a count is one.
  unfoldable pub pull_each : String → ℕ → ℕ → Exec S TransferError (List Bytes)
  pull_each reading index zero = pure []
  pull_each reading index (suc left) = do
    selected ← calling (write reading (index ∷ []))
    expect_ok selected (select_failed index)
    r ← calling (read reading)
    expect_ok r (read_failed index)
    rest ← pull_each reading (index + 1) left
    pure (r.payload ∷ rest)

  unfoldable pub pull_records : String → String → Exec S TransferError (Digest × List Bytes)
  unfolding pull_each
  pull_records digest_characteristic read_characteristic = do
    r ← calling (read digest_characteristic)
    expect_ok r digest_failed
    digest ← encoding (parse_digest r.payload)
    records ← pull_each read_characteristic 0 digest.count
    pure (digest, records)
