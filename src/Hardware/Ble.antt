-- ===== src/Hardware/Ble.antt =====
-- `BleakHardware` of src/ptlab/hardware.py. Bleak is a parameter: what its calls return, and what
-- they do to the world `W`; `D` are its devices and `C` its connections.
pub mod Reads
pub mod Raises
pub mod Probe
pub mod Pairing
use pinetime_dev_tools.Prelude.{
  ℕ, ◌+◌, ◌/◌, ◌%◌, List, [], ◌∷◌, ◌++◌, map, Option, none, some, Bool, true, false, not, ◌&&◌,
  ◌||◌, ltb, leb, ◌==◌, if◌then◌else◌, String, any,
}
use pinetime_dev_tools.Prelude.Result.{Result, ok, err, require, map_err}
use pinetime_dev_tools.Prelude.State.{Exec, pure, raise, lift, modify, ◌>>=◌, ◌>>◌}
use pinetime_dev_tools.Prelude.Texts.{Text, codes}
use pinetime_dev_tools.Bytes.{Bytes}
use pinetime_dev_tools.Wire.{CompanionStatus, parse_companion_status}
use pinetime_dev_tools.Control.Response.{same_text}
use pinetime_dev_tools.Hardware.Contract.{CharacteristicContract}
use pinetime_dev_tools.Hardware.Status.{validate_status_pair}
use pinetime_dev_tools.Hardware.{
  Outside, HardwareError, not_advertising, unexpected_verify_failure, bad_battery_payload,
  characteristic_absent, no_cccd, readable_before_bonding, pairing_may_evict, status_changed,
  bonded_count_regressed, eviction_count_regressed, cccd_not_restored, ValueError,
  bad_status_payload, Failure, hardware, value, calling, is_given, BleEndpoint, Unicode, contains,
}

abbrev pub bleak_markers : List Text
bleak_markers =
    codes "insufficient authentication"
    ∷ codes "authentication required"
    ∷ codes "not authorized"
    ∷ codes "not permitted"
    ∷ codes "att error: 0x05"
    ∷ codes "att error 0x05"
    ∷ []

pub record Bleak (W : Type 0) (D : Type 0) (C : Type 0) : Type 0 where
  pub find_device_by_address : Option String → ℕ → Option String → Exec W Outside (Option D)
  pub find_device_by_name : Option String → ℕ → Option String → Exec W Outside (Option D)
  -- The last argument is `pair=True`.
  pub connect : D → ℕ → Option String → Bool → Exec W Outside C
  pub disconnect : C → W → W
  pub read_gatt_char : C → String → Exec W Outside Bytes
  pub read_gatt_descriptor : C → ℕ → Exec W Outside Bytes
  -- The descriptors of a characteristic, each with its UUID and its handle.
  pub get_characteristic : C → String → Option (List (Text × ℕ))
  pub start_notify : C → String → Exec W Outside (Unit {0})
  -- asyncio.sleep, in milliseconds, with what the callback is given meanwhile.
  pub sleep : ℕ → W → List Bytes × W

pub record ProbeResult : Type 0 where
  pub endpoint : BleEndpoint
  pub firmware_revision : Text
  pub battery_percent : ℕ
  pub public_status : CompanionStatus
  pub verified_status : CompanionStatus
  pub gate_checked : Bool
  pub gate_rejected : Option Bool
  pub cccd_checked : Bool
  pub cccd_after_reconnect : Option Bytes
  pub notifications : List Bytes

-- What `_read_public` returns.
pub record PublicRead (D : Type 0) : Type 0 where
  pub device : D
  pub status : Bytes
  pub battery : ℕ
  pub revision : Text
  pub rejected : Option Bool

-- text.rstrip("\0")
unfoldable pub strip_nul : Text → Text
strip_nul [] = []
strip_nul (c ∷ cs) = kept c (strip_nul cs)
  where
    kept : ℕ → Text → Text
    kept x [] = if x == 0 then [] else x ∷ []
    kept x (y ∷ ys) = x ∷ y ∷ ys

-- `_backend_kwargs`
abbrev pub adapter_of : BleEndpoint → Option String
adapter_of e = if is_given e.adapter then e.adapter else none

abbrev pub one_byte : {W : Type 0} → Bytes → Exec W Failure ℕ
one_byte [] = raise (hardware bad_battery_payload)
one_byte (b ∷ []) = pure b
one_byte (b ∷ c ∷ cs) = raise (hardware bad_battery_payload)

abbrev cccd_uuid : Text
cccd_uuid = codes "00002902-0000-1000-8000-00805f9b34fb"

abbrev pub parsed_status : {W : Type 0} → Bytes → Exec W Failure CompanionStatus
parsed_status payload =
    lift (map_err (λ e. value bad_status_payload) (parse_companion_status payload))

abbrev pub hardware_check :
    {W : Type 0} → Result HardwareError (Unit {0}) → Exec W Failure (Unit {0})
hardware_check r = lift (map_err hardware r)

abbrev pub cccd_enabled : Bytes → Bool
cccd_enabled bs = same_text bs (0x01 ∷ 0x00 ∷ [])

abbrev pub gate_passes : Bool → Option Bool → Bool
gate_passes false rejected = true
gate_passes true none = false
gate_passes true (some b) = b

module _ {W D C : Type 0} (bleak : Bleak W D C) (unicode : Unicode)
    (contract : CharacteristicContract) (timeout : ℕ) where
  -- The value of an `await` on a scan.
  abbrev pub found : Option D → Exec W Failure D
  found none = raise (hardware not_advertising)
  found (some d) = pure d

  -- `_find`; `wait` is its time-out.
  unfoldable pub find : BleEndpoint → ℕ → Exec W Failure D
  find e wait = do
    device ← calling (
        if is_given e.address
        then bleak.find_device_by_address e.address wait (adapter_of e)
        else bleak.find_device_by_name e.name wait (adapter_of e))
    found device

  abbrev pub closing : {A : Type 0} → C → Exec W Failure A → Exec W Failure A
  closing c body w = let (r, v) = body w in (r, bleak.disconnect c v)

  -- async with client_type(...) as client: the connection is closed on every way out.
  abbrev pub with_client :
      {A : Type 0} → D → BleEndpoint → Bool → (C → Exec W Failure A) → Exec W Failure A
  with_client d e pair body = do
    c ← calling (bleak.connect d timeout (adapter_of e) pair)
    closing c (body c)

  -- `_is_authentication_rejection`
  abbrev pub is_rejection : Outside → Bool
  is_rejection error =
      any (λ marker. contains marker (unicode.casefold error.message)) bleak_markers

  -- The outcome of the read that is expected to be rejected.
  abbrev pub gate_outcome : Result Outside Bytes → Result Failure (Option Bool)
  gate_outcome (ok payload) = ok (some false)
  gate_outcome (err e) =
      if is_rejection e then ok (some true) else err (hardware unexpected_verify_failure)

  abbrev pub check_gate : Bool → C → Exec W Failure (Option Bool)
  check_gate false c w = (ok none, w)
  check_gate true c w =
      let (r, v) = bleak.read_gatt_char c contract.companion_verify w in (gate_outcome r, v)

  -- The reads of `_read_public` on an open connection.
  unfoldable pub public_reads : Bool → C → Exec W Failure (Bytes × Bytes × Text × Option Bool)
  unfolding strip_nul
  public_reads check_authentication_gate c = do
    status ← calling (bleak.read_gatt_char c contract.companion_status)
    battery ← calling (bleak.read_gatt_char c contract.battery)
    revision ← calling (bleak.read_gatt_char c contract.firmware_revision)
    rejected ← check_gate check_authentication_gate c
    pure (status, battery, strip_nul (unicode.decode_replacing revision), rejected)

  -- `_read_public`
  unfoldable pub read_public : BleEndpoint → Bool → Exec W Failure (PublicRead D)
  unfolding find public_reads
  read_public e check_authentication_gate = do
    device ← find e timeout
    reads ← with_client device e false (public_reads check_authentication_gate)
    battery ← one_byte reads.1
    pure (record {
      device = device;
      status = reads.0;
      battery = battery;
      revision = reads.2;
      rejected = reads.3;
    })

  -- `read_battery`
  unfoldable pub read_battery : BleEndpoint → Exec W Failure ℕ
  unfolding find
  read_battery e = do
    device ← find e timeout
    payload ← with_client device e false (λ c. calling (bleak.read_gatt_char c contract.battery))
    one_byte payload

  unfoldable pub first_cccd : List (Text × ℕ) → Option ℕ
  first_cccd [] = none
  first_cccd ((uuid, handle) ∷ ds) =
      if same_text (unicode.lower uuid) cccd_uuid then some handle else first_cccd ds

  abbrev pub cccd_in : Option (List (Text × ℕ)) → Exec W Failure ℕ
  cccd_in none = raise (hardware characteristic_absent)
  cccd_in (some ds) = elim (first_cccd ds) [
    | none ↦ raise (hardware no_cccd)
    | some handle ↦ pure handle
  ]

  -- `_cccd_descriptor`: the handle of the descriptor.
  unfoldable pub cccd_descriptor : C → Exec W Failure ℕ
  unfolding first_cccd
  cccd_descriptor c = cccd_in (bleak.get_characteristic c contract.battery)

  -- The notifications that come while the connection is held.
  abbrev pub subscribe : Bool → C → Exec W Failure (List Bytes)
  subscribe false c = pure []
  subscribe true c = do
    handle ← cccd_descriptor c
    calling (bleak.start_notify c contract.battery)
    λ w. let (ns, v) = bleak.sleep 500 w in (ok ns, v)

  -- The authenticated connection of `probe`.
  unfoldable pub verify_paired :
      CompanionStatus → Bool → C → Exec W Failure (CompanionStatus × List Bytes)
  unfolding cccd_descriptor validate_status_pair
  verify_paired public verify_cccd c = do
    payload ← calling (bleak.read_gatt_char c contract.companion_verify)
    verified ← parsed_status payload
    hardware_check (validate_status_pair public verified)
    notifications ← subscribe verify_cccd c
    pure (verified, notifications)

  unfoldable pub read_cccd : C → Exec W Failure (Option Bytes)
  unfolding cccd_descriptor
  read_cccd c = do
    handle ← cccd_descriptor c
    raw_cccd ← calling (bleak.read_gatt_descriptor c handle)
    hardware_check (require (cccd_enabled raw_cccd) cccd_not_restored)
    pure (some raw_cccd)

  -- The CCCD's value, behind a second connection.
  unfoldable pub restored_cccd : BleEndpoint → Bool → Exec W Failure (Option Bytes)
  unfolding find read_cccd
  restored_cccd e false = pure none
  restored_cccd e true = do device ← find e timeout; with_client device e false read_cccd

  -- What `probe` does behind the public reads.
  unfoldable pub probe_behind :
      BleEndpoint → Bool → Bool → Bool → PublicRead D → Exec W Failure ProbeResult
  unfolding verify_paired restored_cccd
  probe_behind e verify_cccd require_rejection allow_eviction read = do
    hardware_check (require (gate_passes require_rejection read.rejected) readable_before_bonding)
    public ← parsed_status read.status
    hardware_check
        (require (ltb public.bonded_count public.capacity || allow_eviction) pairing_may_evict)
    paired ← with_client read.device e true (verify_paired public verify_cccd)
    cccd_value ← restored_cccd e verify_cccd
    pure (record {
      endpoint = e;
      firmware_revision = read.revision;
      battery_percent = read.battery;
      public_status = public;
      verified_status = paired.0;
      gate_checked = require_rejection;
      gate_rejected = read.rejected;
      cccd_checked = verify_cccd;
      cccd_after_reconnect = cccd_value;
      notifications = paired.1;
    })

  unfoldable pub probe : BleEndpoint → Bool → Bool → Bool → Exec W Failure ProbeResult
  unfolding read_public probe_behind
  probe e verify_cccd require_rejection allow_eviction = do
    read ← read_public e require_rejection
    probe_behind e verify_cccd require_rejection allow_eviction read
