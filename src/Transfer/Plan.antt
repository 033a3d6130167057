-- ===== src/Transfer/Plan.antt =====
-- The whole conversation of a push.
use pinetime_dev_tools.Prelude.{
  ℕ, zero, suc, ◌+◌, List, [], ◌∷◌, ◌++◌, Option, none, some, ltb, String, length, Bool-cases, inl,
  inr, append-nil, ◌≡◌, refl, sym, ◌∙◌,
}
use pinetime_dev_tools.Prelude.Int.{ℤ, pos}
use pinetime_dev_tools.Prelude.Result.{Result, ok, err, map_err}
use pinetime_dev_tools.Prelude.State.{Exec, continue, modify, ◌>>=◌}
use pinetime_dev_tools.Bytes.{Bytes}
use pinetime_dev_tools.Gatt.Client.{GattResponse, ClientError}
use pinetime_dev_tools.Wire.{begin_sync, commit_sync}
use pinetime_dev_tools.Transfer.{
  TransferError, client_error, begin_failed, commit_refused, Device, succeeded, failed, unsettled,
  progress, act_on, push_records, wait_for, wait_family_commit, wait_loop, operation_of,
}
use pinetime_dev_tools.Transfer.Push.{
  Logged, record_messages, Follows, one_write, push_each-Follows,
}

module _ {S : Type 0} (dev : Device S) (l : Logged dev) where
  -- Polling writes nothing.
  poll_logs :
      (r : Result ClientError GattResponse) (operation token : ℕ) (s : S)
      (again : Exec S TransferError (Unit {0}))
      → l.log (again (dev.sleep 25 s)).1 ≡ l.log s
      → l.log
          (continue
            (map_err client_error r)
            (λ x. act_on dev (progress operation token x) (modify (dev.sleep 25) >>= λ _. again))
            s).1
        ≡ l.log s
  poll_logs (err e) operation token s again h = refl
  poll_logs (ok x) operation token s again h =
      elim (progress operation token x)
        as (λ p. l.log (act_on dev p (modify (dev.sleep 25) >>= λ _. again) s).1 ≡ l.log s) [
          | succeeded ↦ refl
          | failed ↦ refl
          | unsettled ↦ h
        ]

  wait_loop_logs :
      (fuel operation token deadline : ℕ) (s : S)
      → l.log (wait_loop dev fuel operation token deadline s).1 ≡ l.log s
  unfolding wait_loop
  wait_loop_logs zero operation token deadline s = refl
  wait_loop_logs (suc fuel) operation token deadline s =
      elim (Bool-cases (ltb (dev.now s) deadline)) [
        | inr over ↦ rw over refl
        | inl early ↦
            let (r, s') = dev.read "family_state_status" s in
            rw early (
              poll_logs r operation token s' (wait_loop dev fuel operation token deadline) (
                wait_loop_logs fuel operation token deadline (dev.sleep 25 s') ∙ l.sleep_logs 25 s')
              ∙ l.read_logs "family_state_status" s)
      ]

  waits :
      (sync : String) (operation : Option ℕ) (token : ℕ) (s : S)
      → Follows dev l sync [] s (wait_for dev operation token s)
  unfolding wait_family_commit
  waits sync none token s = record {
    sent = [];
    unsent = [];
    plan_is = refl;
    logged = sym (append-nil (l.log s));
    all_if_ok = λ _. refl;
  }
  waits sync (some operation) token s = record {
    sent = [];
    unsent = [];
    plan_is = refl;
    logged = wait_loop_logs 5001 operation token (dev.now s + 5000) s ∙ sym (append-nil (l.log s));
    all_if_ok = λ _. refl;
  }

-- Where the messages of a push can be encoded, what it writes to its characteristic is a first part
-- of the begin message, the record messages in order, and the commit message. It is the whole of
-- them if the push returns; polling for the commit writes nothing.
pub push_records-Follows :
    {S : Type 0} (dev : Device S) (l : Logged dev) (sync : String) (records : List Bytes)
    (version : ℕ) (record_version : ℤ) {first last : Bytes} {messages : List Bytes} (s : S)
    → begin_sync (pos (length records)) (pos version) ≡ ok first
    → record_messages 0 records record_version ≡ ok messages
    → commit_sync (pos (length records)) ≡ ok last
    → Follows dev l sync
        (first ∷ (messages ++ last ∷ []))
        s
        (push_records dev sync records version record_version s)
unfolding push_records
push_records-Follows dev l sync records version record_version {first} {last} {messages} s eb em
      ec =
    rw (eb, ec)
      (one_write dev l sync first (messages ++ last ∷ []) s begin_failed _ (
        push_each-Follows dev l sync records 0 record_version messages (last ∷ []) _ em (λ s'.
          one_write dev l sync last [] s' commit_refused _
            (waits dev l sync (operation_of sync) version))))
