-- ===== src/Tests/Wire.antt =====
-- Records, messages and payloads of src/ptlab/wire.py.
use pinetime_dev_tools.Prelude.{[], ◌∷◌, some, true, ◌≡◌, refl, arith}
use pinetime_dev_tools.Prelude.Int.{pos}
use pinetime_dev_tools.Prelude.Result.{ok}
use pinetime_dev_tools.Prelude.Texts.{codes}
use pinetime_dev_tools.Bytes.{Bytes}
use pinetime_dev_tools.Utf8.{utf8_encode}
use pinetime_dev_tools.Wire.{
  ScheduleFields, pack_schedule, encode_schedule_record, TaskFields, encode_task_record, Digest,
  parse_digest, CompanionStatus, parse_companion_status,
}
use pinetime_dev_tools.Wire.ReadBack.{ScheduleReads, encode_schedule-ScheduleReads}
use pinetime_dev_tools.Wire.Task.{TaskOutcome, encode_task-TaskOutcome}
use pinetime_dev_tools.Wire.Payloads.{
  digest_bytes, DigestFits, parse_digest-digest_bytes, status_bytes, StatusFits,
  parse_status-status_bytes,
}

abbrev reminder : ScheduleFields
reminder = record {
  identifier = pos 7;
  title = codes "Tea";
  hour = pos 16;
  minute = pos 30;
  rule_kind = pos 1;
  anchor = record { year = pos 2026; month = pos 3; day = pos 9 };
  parameter = pos 5;
  enabled = true;
  last_modified = pos 1700000000;
  end_date = some (record { year = pos 2027; month = pos 1; day = pos 2 });
}

abbrev reminder_bytes : Bytes
reminder_bytes =
    7 ∷ 0 ∷ 1 ∷ 16 ∷ 30 ∷ 234 ∷ 7 ∷ 3 ∷ 9 ∷ 5 ∷ 1 ∷ 84 ∷ 101 ∷ 97 ∷ 0 ∷ 0 ∷ 0 ∷ 0 ∷ 0 ∷ 0 ∷ 0 ∷ 0
    ∷ 0 ∷ 0 ∷ 0 ∷ 0 ∷ 0 ∷ 0 ∷ 0 ∷ 0 ∷ 0 ∷ 0 ∷ 0 ∷ 0 ∷ 0 ∷ 0 ∷ 241 ∷ 83 ∷ 101 ∷ 235 ∷ 7 ∷ 1 ∷ 2 ∷ []

reminder_encoded : encode_schedule_record reminder ≡ ok reminder_bytes
unfolding encode_schedule_record utf8_encode pack_schedule
reminder_encoded = refl

encode_schedule-ScheduleReads_example : ScheduleReads reminder reminder_bytes
encode_schedule-ScheduleReads_example =
    encode_schedule-ScheduleReads reminder reminder_bytes reminder_encoded

abbrev chore : TaskFields
chore = record { identifier = pos 3; order = pos 1; title = codes "Milk"; last_modified = pos 99 }

encode_task-TaskOutcome_example : TaskOutcome chore (encode_task_record chore)
encode_task-TaskOutcome_example = encode_task-TaskOutcome chore

abbrev habits : Digest
habits = record { protocol = 1; capacity = 20; count = 3; version = 258; streak = some 12 }

habits_fit : DigestFits habits
habits_fit = record { version_fits = omega arith; streak_fits = omega arith }

parse_digest-digest_bytes_example : parse_digest (digest_bytes habits) ≡ ok habits
parse_digest-digest_bytes_example = parse_digest-digest_bytes habits habits_fit

abbrev watch_status : CompanionStatus
watch_status = record {
  protocol = 1;
  capacity = 5;
  bonded_count = 2;
  eviction_policy = 1;
  reset_epoch = 4;
  eviction_count = 0;
  cccd_overflow_rejections = 0;
  invariant_violations = 0;
  flags = 3;
}

status_fits : StatusFits watch_status
status_fits = record {
  epoch_fits = omega arith;
  evictions_fit = omega arith;
  rejections_fit = omega arith;
  violations_fit = omega arith;
  flags_fit = omega arith;
}

parse_status-status_bytes_example :
    parse_companion_status (status_bytes watch_status) ≡ ok watch_status
parse_status-status_bytes_example = parse_status-status_bytes watch_status status_fits
