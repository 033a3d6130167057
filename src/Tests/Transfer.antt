-- ===== src/Tests/Transfer.antt =====
-- Pushes and pulls of src/ptlab/wire.py, on small devices.
use pinetime_dev_tools.Prelude.{
  ℕ, ◌+◌, List, [], ◌∷◌, ◌++◌, Option, none, some, String, get_or, ◌≡◌, refl, arith,
}
use pinetime_dev_tools.Prelude.Int.{pos}
use pinetime_dev_tools.Prelude.Result.{ok}
use pinetime_dev_tools.Bytes.{Bytes}
use pinetime_dev_tools.Gatt.Client.{GattResponse}
use pinetime_dev_tools.Wire.{Digest, begin_sync, commit_sync, record_message, parse_digest}
use pinetime_dev_tools.Transfer.{Device, wait_family_commit, push_records, pull_records}
use pinetime_dev_tools.Transfer.Clock.{ClockLaws, WaitOutcome, wait_family_commit-WaitOutcome}
use pinetime_dev_tools.Transfer.Push.{Logged, record_messages, Follows}
use pinetime_dev_tools.Transfer.Plan.{push_records-Follows}
use pinetime_dev_tools.Transfer.Pull.{Serves, pull_records_lem}

-- A watch that accepts every write, keeps what was written, and reports that schedule operation
-- with token 5 has succeeded.
record Watch : Type 0 where
  time : ℕ
  written : List (String × Bytes)

abbrev accepted : GattResponse
accepted = record { status = 0; payload = [] }

abbrev committed : GattResponse
committed = record {
  status = 0;
  payload = 1 ∷ 2 ∷ 1 ∷ 0 ∷ 0 ∷ 0 ∷ 0 ∷ 0 ∷ 5 ∷ 0 ∷ 0 ∷ 0 ∷ 0 ∷ 0 ∷ 0 ∷ 0 ∷ [];
}

abbrev watch : Device Watch
watch = record {
  read = λ ch s. (ok committed, s);
  write = λ ch bs s. (ok accepted, record s { written = s.written ++ (ch, bs) ∷ [] });
  now = λ s. s.time;
  sleep = λ n s. record s { time = s.time + n };
}

abbrev morning : Watch
morning = record { time = 100; written = [] }

watch_clock : ClockLaws watch
watch_clock = record { read_later = λ ch s. omega arith; sleep_later = λ n s. omega arith }

wait_family_commit-WaitOutcome_example :
    WaitOutcome watch 1 5 5100 (wait_family_commit watch 1 5 5000 morning)
wait_family_commit-WaitOutcome_example =
    wait_family_commit-WaitOutcome watch 1 5 5000 morning watch_clock

watch_logs : Logged watch
watch_logs = record {
  log = λ s. s.written;
  write_logs = λ ch bs s. refl;
  read_logs = λ ch s. refl;
  sleep_logs = λ n s. refl;
}

abbrev two_records : List Bytes
two_records = (1 ∷ 2 ∷ []) ∷ (3 ∷ []) ∷ []

abbrev first_message : Bytes
first_message = 0 ∷ 0 ∷ 2 ∷ 5 ∷ 0 ∷ 0 ∷ 0 ∷ []

abbrev record_texts : List Bytes
record_texts = (1 ∷ 3 ∷ 0 ∷ 1 ∷ 2 ∷ []) ∷ (1 ∷ 3 ∷ 1 ∷ 3 ∷ []) ∷ []

abbrev last_message : Bytes
last_message = 2 ∷ 0 ∷ 2 ∷ []

begins : begin_sync (pos 2) (pos 5) ≡ ok first_message
unfolding begin_sync
begins = refl

records_written : record_messages 0 two_records (pos 3) ≡ ok record_texts
unfolding record_messages record_message
records_written = refl

commits : commit_sync (pos 2) ≡ ok last_message
unfolding commit_sync
commits = refl

push_records-Follows_example :
    Follows watch watch_logs "schedule_sync"
      (first_message ∷ (record_texts ++ last_message ∷ []))
      morning
      (push_records watch "schedule_sync" two_records 5 (pos 3) morning)
push_records-Follows_example =
    push_records-Follows watch watch_logs "schedule_sync" two_records 5 (pos 3) morning begins
      records_written commits

-- A watch that serves two records: the state is what was selected.
abbrev shelf : Device (Option ℕ)
shelf = record {
  read = λ ch s. (ok (record { status = 0; payload = answer ch s }), none);
  write = λ ch bs s. (ok accepted, some (get_or bs 0 0));
  now = λ s. 0;
  sleep = λ n s. s;
}
  where
    answer : String → Option ℕ → Bytes
    answer ch none = 1 ∷ 9 ∷ 2 ∷ 4 ∷ 0 ∷ 0 ∷ 0 ∷ []
    answer ch (some i) = get_or two_records i []

abbrev shelf_digest : Digest
shelf_digest = record { protocol = 1; capacity = 9; count = 2; version = 4; streak = none }

shelf_parses : parse_digest (1 ∷ 9 ∷ 2 ∷ 4 ∷ 0 ∷ 0 ∷ 0 ∷ []) ≡ ok shelf_digest
unfolding parse_digest
shelf_parses = refl

abbrev shelf_serves : Serves shelf "schedule_digest" "schedule_record" shelf_digest two_records
shelf_serves = record {
  Idle = λ s. s ≡ none;
  Selected = λ i s. s ≡ some i;
  digest_payload = 1 ∷ 9 ∷ 2 ∷ 4 ∷ 0 ∷ 0 ∷ 0 ∷ [];
  digest_parses = shelf_parses;
  count_is = refl;
  reads_digest = λ s idle. (rw idle refl, refl);
  selects = λ i s less idle. ([], refl, refl);
  reads_record = λ i s selected. (rw selected refl, refl);
}

pull_records_lem_example :
    (pull_records shelf "schedule_digest" "schedule_record" none).0 ≡ ok (shelf_digest, two_records)
pull_records_lem_example =
    pull_records_lem shelf "schedule_digest" "schedule_record" shelf_digest two_records shelf_serves
      none refl
