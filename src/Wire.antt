-- ===== src/Wire.antt =====
-- src/ptlab/wire.py: the records, the synchronisation messages and the status payloads of the
-- companion protocol.
pub mod Layout
pub mod ReadBack
pub mod Task
pub mod Payloads
use pinetime_dev_tools.Prelude.{
  ℕ, ◌+◌, ◌-◌, ◌%◌, ◌^◌, List, [], ◌∷◌, ◌++◌, Option, none, some, Bool, true, false, ◌&&◌, ◌||◌,
  not, ltb, leb, ◌==◌, if◌then◌else◌, length, replicate,
}
use pinetime_dev_tools.Prelude.Int.{ℤ, pos, negsuc, between}
use pinetime_dev_tools.Prelude.Result.{Result, ok, err, require, ◌>>=◌, ◌>>◌}
use pinetime_dev_tools.Prelude.Texts.{Text}
use pinetime_dev_tools.Protocol.{schedule_record_size, task_record_size}
use pinetime_dev_tools.Bytes.{Bytes, pack, overwrite, uint_at}
use pinetime_dev_tools.Utf8.{utf8_encode}

-- One constructor for each `raise` of the encoders and parsers; `struct_error` and `not_utf8` are
-- what `struct.pack`, `bytes((...))` and `str.encode` raise by themselves.
pub data WireError : Type 0 where
  identifier_range rule_kind_range time_invalid parameter_range title_too_long : WireError
  order_range layout_drifted count_range index_range struct_error not_utf8 : WireError
  digest_size status_size : ℕ → WireError

-- A `datetime.date`.
pub record Date : Type 0 where
  pub year : ℤ
  pub month : ℤ
  pub day : ℤ

-- The keyword arguments of `encode_schedule_record`.
pub record ScheduleFields : Type 0 where
  pub identifier : ℤ
  pub title : Text
  pub hour : ℤ
  pub minute : ℤ
  pub rule_kind : ℤ
  pub anchor : Date
  pub parameter : ℤ
  pub enabled : Bool
  pub last_modified : ℤ
  pub end_date : Option Date

abbrev pub from_option {ℓ} : {A : Type ℓ} → WireError → Option A → Result WireError A
from_option e (some a) = ok a
from_option e none = err e

abbrev pub flag : Bool → ℤ
flag true = pos 1
flag false = pos 0

-- "<HBBB HBBBB"
abbrev pub schedule_header : ScheduleFields → List (ℕ × ℤ)
schedule_header f =
    (2, f.identifier)
    ∷ (1, f.rule_kind)
    ∷ (1, f.hour)
    ∷ (1, f.minute)
    ∷ (2, f.anchor.year)
    ∷ (1, f.anchor.month)
    ∷ (1, f.anchor.day)
    ∷ (1, f.parameter)
    ∷ (1, flag f.enabled)
    ∷ []

-- "<HBB"
abbrev pub date_fields : Date → List (ℕ × ℤ)
date_fields d = (2, d.year) ∷ (1, d.month) ∷ (1, d.day) ∷ []

-- struct.pack_into(format, record, offset, ...)
abbrev pub pack_into : List (ℕ × ℤ) → Bytes → ℕ → Result WireError Bytes
pack_into fields target offset = do
  bs ← from_option struct_error (pack fields)
  ok (overwrite offset bs target)

abbrev pub pack_end : Option Date → Bytes → Result WireError Bytes
pack_end none target = ok target
pack_end (some d) target = pack_into (date_fields d) target 39

-- The record is written into zeros once the arguments have passed.
unfoldable pub pack_schedule : ScheduleFields → Bytes → Result WireError Bytes
pack_schedule f title_bytes = do
  headed ← pack_into (schedule_header f) (replicate schedule_record_size 0) 0
  modified ← pack_into ((4, f.last_modified) ∷ []) (overwrite 11 title_bytes headed) 35
  pack_end f.end_date modified

unfoldable pub encode_schedule_record : ScheduleFields → Result WireError Bytes
encode_schedule_record f = do
  require (between 0 0xffff f.identifier) identifier_range
  require (between 0 3 f.rule_kind) rule_kind_range
  require (between 0 23 f.hour && between 0 59 f.minute) time_invalid
  require (between 0 0xff f.parameter) parameter_range
  title_bytes ← from_option not_utf8 (utf8_encode f.title)
  require (not (ltb 23 (length title_bytes))) title_too_long
  pack_schedule f title_bytes

-- The keyword arguments of `encode_task_record`.
pub record TaskFields : Type 0 where
  pub identifier : ℤ
  pub order : ℤ
  pub title : Text
  pub last_modified : ℤ

-- "<HB24sI", the fields before and behind the text.
abbrev pub task_head : TaskFields → List (ℕ × ℤ)
task_head f = (2, f.identifier) ∷ (1, f.order) ∷ []

abbrev pub task_last : TaskFields → List (ℕ × ℤ)
task_last f = (4, f.last_modified) ∷ []

unfoldable pub task_bytes : TaskFields → Bytes → Result WireError Bytes
task_bytes f title_bytes = do
  head ← from_option struct_error (pack (task_head f))
  last ← from_option struct_error (pack (task_last f))
  let bs = head ++ ((title_bytes ++ replicate (24 - length title_bytes) 0) ++ last)
  require (length bs == task_record_size) layout_drifted
  ok bs

unfoldable pub encode_task_record : TaskFields → Result WireError Bytes
encode_task_record f = do
  require (between 0 0xffff f.identifier) identifier_range
  require (between 0 0xff f.order) order_range
  title_bytes ← from_option not_utf8 (utf8_encode f.title)
  require (not (ltb 23 (length title_bytes))) title_too_long
  task_bytes f title_bytes

unfoldable pub begin_sync : ℤ → ℤ → Result WireError Bytes
begin_sync count version = do
  require (between 0 0xff count) count_range
  from_option struct_error (pack ((1, pos 0) ∷ (1, pos 0) ∷ (1, count) ∷ (4, version) ∷ []))

-- `bytes((1, record_version, index))` refuses what is no byte.
unfoldable pub record_message : ℤ → Bytes → ℤ → Result WireError Bytes
record_message index record_bytes record_version = do
  require (between 0 0xff index) index_range
  head ← from_option struct_error (pack ((1, pos 1) ∷ (1, record_version) ∷ (1, index) ∷ []))
  ok (head ++ record_bytes)

unfoldable pub commit_sync : ℤ → Result WireError Bytes
commit_sync count = do
  require (between 0 0xff count) count_range
  from_option struct_error (pack ((1, pos 2) ∷ (1, pos 0) ∷ (1, count) ∷ []))

abbrev pub abort_sync : Bytes
abort_sync = 3 ∷ 0 ∷ []

-- `zlib.crc32` is the argument.
unfoldable pub family_mutation_token : (Bytes → ℕ) → Bytes → ℕ
family_mutation_token crc32 payload =
    let token = crc32 payload % 2 ^ 32 in if token == 0 then 1 else token

pub record Digest : Type 0 where
  pub protocol : ℕ
  pub capacity : ℕ
  pub count : ℕ
  pub version : ℕ
  pub streak : Option ℕ

unfoldable pub parse_digest : Bytes → Result WireError Digest
parse_digest payload = do
  require (length payload == 7 || length payload == 9) (digest_size (length payload))
  ok (record {
    protocol = uint_at 1 0 payload;
    capacity = uint_at 1 1 payload;
    count = uint_at 1 2 payload;
    version = uint_at 4 3 payload;
    streak = if length payload == 9 then some (uint_at 2 7 payload) else none;
  })

pub record CompanionStatus : Type 0 where
  pub protocol : ℕ
  pub capacity : ℕ
  pub bonded_count : ℕ
  pub eviction_policy : ℕ
  pub reset_epoch : ℕ
  pub eviction_count : ℕ
  pub cccd_overflow_rejections : ℕ
  pub invariant_violations : ℕ
  pub flags : ℕ

-- "<BBBBIIHHI"
unfoldable pub parse_companion_status : Bytes → Result WireError CompanionStatus
parse_companion_status payload = do
  require (length payload == 20) (status_size (length payload))
  ok (record {
    protocol = uint_at 1 0 payload;
    capacity = uint_at 1 1 payload;
    bonded_count = uint_at 1 2 payload;
    eviction_policy = uint_at 1 3 payload;
    reset_epoch = uint_at 4 4 payload;
    eviction_count = uint_at 4 8 payload;
    cccd_overflow_rejections = uint_at 2 12 payload;
    invariant_violations = uint_at 2 14 payload;
    flags = uint_at 4 16 payload;
  })
