-- ===== src/Protocol.antt =====
-- generated/companion_protocol.py: the record table's numbers that the tools read, and the bridge
-- identifiers of the characteristics.
use Prim.Native.Nat.{ℕ}
use Prim.Native.String.{String}
use mathlib.Core.List.{List, [], ◌∷◌}
use mathlib.Core.Option.{Option, some}

abbrev pub schedule_record_version : ℕ
schedule_record_version = 3

abbrev pub schedule_record_size : ℕ
schedule_record_size = 43

abbrev pub task_record_version : ℕ
task_record_version = 2

abbrev pub task_record_size : ℕ
task_record_size = 31

abbrev pub family_status_size : ℕ
family_status_size = 16

abbrev pub state_succeeded : ℕ
state_succeeded = 2

abbrev pub state_failed : ℕ
state_failed = 3

abbrev pub operation_schedule : ℕ
operation_schedule = 1

abbrev pub operation_tasks : ℕ
operation_tasks = 2

-- BRIDGE_CHAR, in the order of the file; `none` is a characteristic without a bridge identifier.
abbrev pub bridge_char : List (String × Option ℕ)
bridge_char =
    ("battery", some 4)
    ∷ ("beacon_control", some 8)
    ∷ ("beacon_key", some 7)
    ∷ ("call_event", some 29)
    ∷ ("companion_status", some 33)
    ∷ ("companion_verify", some 34)
    ∷ ("current_time", some 2)
    ∷ ("dfu_control", some 10)
    ∷ ("dfu_packet", some 11)
    ∷ ("event_read", some 5)
    ∷ ("family_state_status", some 35)
    ∷ ("firmware_revision", some 13)
    ∷ ("fs_transfer", some 12)
    ∷ ("multi_alarm", some 9)
    ∷ ("music_album", some 20)
    ∷ ("music_artist", some 18)
    ∷ ("music_event", some 28)
    ∷ ("music_playback_speed", some 25)
    ∷ ("music_position", some 21)
    ∷ ("music_repeat", some 26)
    ∷ ("music_shuffle", some 27)
    ∷ ("music_status", some 17)
    ∷ ("music_total_length", some 22)
    ∷ ("music_track", some 19)
    ∷ ("music_track_number", some 23)
    ∷ ("music_track_total", some 24)
    ∷ ("new_alert", some 3)
    ∷ ("prayer_settings", some 6)
    ∷ ("schedule_digest", some 1)
    ∷ ("schedule_sync", some 0)
    ∷ ("steps", some 15)
    ∷ ("steps_yesterday", some 16)
    ∷ ("task_read", some 32)
    ∷ ("tasks_digest", some 31)
    ∷ ("tasks_sync", some 30)
    ∷ ("weather", some 14)
    ∷ []
