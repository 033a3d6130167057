-- ===== src/Hardware/Contract.antt =====
-- `CharacteristicContract` of src/ptlab/hardware.py, and its `load` over the characteristics of
-- protocol/companion.json.
use pinetime_dev_tools.Prelude.{List, [], ◌∷◌, Option, none, some, String, str_eq, if◌then◌else◌}
use pinetime_dev_tools.Prelude.Result.{Result, ok, err, ◌>>=◌}
use pinetime_dev_tools.Hardware.{Failure, hardware, key_error, protocol_is_missing}

pub record CharacteristicContract : Type 0 where
  pub battery : String
  pub firmware_revision : String
  pub companion_status : String
  pub companion_verify : String

-- An object of the list "characteristics", whose two keys may be absent.
pub record Item : Type 0 where
  pub name : Option String
  pub characteristic_uuid : Option String

abbrev pub field : String → Option String → Result Failure String
field key none = err (key_error key)
field key (some value) = ok value

-- The items of the dict, in the order in which they are set.
unfoldable pub characteristics : List Item → Result Failure (List (String × String))
characteristics [] = ok []
characteristics (item ∷ items) = do
  name ← field "name" item.name
  uuid ← field "characteristic_uuid" item.characteristic_uuid
  rest ← characteristics items
  ok ((name, uuid) ∷ rest)

-- characteristics[name]: the last item of the name counts.
unfoldable pub uuid_of : String → List (String × String) → Option String
uuid_of name [] = none
uuid_of name ((n, uuid) ∷ items) = elim (uuid_of name items) [
  | some found ↦ some found
  | none ↦ if str_eq n name then some uuid else none
]

abbrev pub required : String → List (String × String) → Result Failure String
required name items = elim (uuid_of name items) [
  | none ↦ err (hardware (protocol_is_missing name))
  | some uuid ↦ ok uuid
]

unfoldable pub load_contract : List Item → Result Failure CharacteristicContract
unfolding characteristics uuid_of
load_contract items = do
  uuids ← characteristics items
  battery ← required "battery" uuids
  firmware_revision ← required "firmware_revision" uuids
  companion_status ← required "companion_status" uuids
  companion_verify ← required "companion_verify" uuids
  ok (record {
    battery = battery;
    firmware_revision = firmware_revision;
    companion_status = companion_status;
    companion_verify = companion_verify;
  })
