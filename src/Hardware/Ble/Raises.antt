-- ===== src/Hardware/Ble/Raises.antt =====
-- `BleakHardware.probe` of src/ptlab/hardware.py raises no KeyError.
use pinetime_dev_tools.Prelude.{
  ℕ, ltb, ◌||◌, String, List, [], ◌∷◌, Option, none, some, Bool, true, false, ◌≢◌, if◌then◌else◌,
  Bool-cases, inl, inr,
}
use pinetime_dev_tools.Prelude.Result.{Result, ok, err, require, map_err}
use pinetime_dev_tools.Prelude.State.{Exec, raise, pure}
use pinetime_dev_tools.Prelude.Texts.{Text}
use pinetime_dev_tools.Bytes.{Bytes}
use pinetime_dev_tools.Wire.{CompanionStatus, parse_companion_status, WireError}
use pinetime_dev_tools.Hardware.{
  Outside, Failure, key_error, not_advertising, characteristic_absent, no_cccd, bad_battery_payload,
  bad_status_payload, value, cccd_not_restored, readable_before_bonding, pairing_may_evict,
  hardware, calling, is_given, BleEndpoint, Unicode,
}
use pinetime_dev_tools.Hardware.Status.{validate_status_pair}
use pinetime_dev_tools.Hardware.Contract.{CharacteristicContract}
use pinetime_dev_tools.Hardware.Calm.{
  Calm, calling-Calm, hardware-Calm, hardware_raised-Calm, pure-Calm, bind-Calm,
}
use pinetime_dev_tools.Hardware.Ble.{
  Bleak, PublicRead, find, found, with_client, closing, check_gate, gate_outcome, is_rejection,
  public_reads, one_byte, read_public, adapter_of, parsed_status, verify_paired, subscribe,
  hardware_check, cccd_enabled, gate_passes, first_cccd, cccd_in, cccd_descriptor, read_cccd,
  restored_cccd, probe_behind, probe,
}

one_byte-Calm : {W : Type 0} (bs : Bytes) → Calm (one_byte {W = W} bs)
one_byte-Calm [] = hardware_raised-Calm bad_battery_payload
one_byte-Calm (b ∷ []) = pure-Calm b
one_byte-Calm (b ∷ c ∷ cs) = hardware_raised-Calm bad_battery_payload

parsed_status-Calm : {W : Type 0} (bs : Bytes) → Calm (parsed_status {W = W} bs)
parsed_status-Calm bs k w = go (parse_companion_status bs)
  where
    go :
        (r : Result WireError CompanionStatus)
        → map_err (λ e. value bad_status_payload) r ≢ err (key_error k)
    go (ok status) = λ e. cc
    go (err x) = λ e. cc

module _ {W D C : Type 0} (bleak : Bleak W D C) (unicode : Unicode)
    (contract : CharacteristicContract) (timeout : ℕ) where
  found-Calm : (o : Option D) → Calm (found bleak unicode contract timeout o)
  found-Calm none = hardware_raised-Calm not_advertising
  found-Calm (some d) = pure-Calm d

  find-Calm : (e : BleEndpoint) (wait : ℕ) → Calm (find bleak unicode contract timeout e wait)
  unfolding find
  find-Calm e wait =
      bind-Calm
        (calling (
          if is_given e.address
          then bleak.find_device_by_address e.address wait (adapter_of e)
          else bleak.find_device_by_name e.name wait (adapter_of e)))
        (found bleak unicode contract timeout)
        (calling-Calm (
          if is_given e.address
          then bleak.find_device_by_address e.address wait (adapter_of e)
          else bleak.find_device_by_name e.name wait (adapter_of e)))
        found-Calm

  with_client-Calm :
      {A : Type 0} (d : D) (e : BleEndpoint) (pair : Bool) (body : C → Exec W Failure A)
      → ((c : C) → Calm (body c))
      → Calm (with_client bleak unicode contract timeout d e pair body)
  with_client-Calm d e pair body h =
      bind-Calm (calling (bleak.connect d timeout (adapter_of e) pair))
        (λ c. closing bleak unicode contract timeout c (body c))
        (calling-Calm (bleak.connect d timeout (adapter_of e) pair)) h

  check_gate-Calm : (gate : Bool) (c : C) → Calm (check_gate bleak unicode contract timeout gate c)
  check_gate-Calm false c k w = λ e. cc
  check_gate-Calm true c k w = go (bleak.read_gatt_char c contract.companion_verify w).0
    where
      go :
          (r : Result Outside Bytes)
          → gate_outcome bleak unicode contract timeout r ≢ err (key_error k)
      go (ok payload) = λ e. cc
      go (err x) = elim (Bool-cases (is_rejection bleak unicode contract timeout x)) [
        | inl told ↦ rw told (λ e. cc)
        | inr other ↦ rw other (λ e. cc)
      ]

  read-Calm : (c : C) (uuid : String) → Calm (calling (bleak.read_gatt_char c uuid))
  read-Calm c uuid = calling-Calm (bleak.read_gatt_char c uuid)

  public_reads-Calm :
      (gate : Bool) (c : C) → Calm (public_reads bleak unicode contract timeout gate c)
  unfolding public_reads
  public_reads-Calm gate c =
      bind-Calm (calling (bleak.read_gatt_char c contract.companion_status)) _ (read-Calm c _)
        (λ status.
          bind-Calm (calling (bleak.read_gatt_char c contract.battery)) _ (read-Calm c _)
            (λ battery.
              bind-Calm (calling (bleak.read_gatt_char c contract.firmware_revision)) _
                (read-Calm c _)
                (λ revision.
                  bind-Calm (check_gate bleak unicode contract timeout gate c) _
                    (check_gate-Calm gate c) (λ rejected. pure-Calm _))))

  read_public-Calm :
      (e : BleEndpoint) (gate : Bool) → Calm (read_public bleak unicode contract timeout e gate)
  unfolding read_public
  read_public-Calm e gate =
      let reads = public_reads bleak unicode contract timeout gate in
      bind-Calm (find bleak unicode contract timeout e timeout) _ (find-Calm e timeout) (λ device.
        bind-Calm (with_client bleak unicode contract timeout device e false reads) _
          (with_client-Calm device e false reads (public_reads-Calm gate))
          (λ got. bind-Calm (one_byte got.1) _ (one_byte-Calm got.1) (λ battery. pure-Calm _)))

  cccd_descriptor-Calm : (c : C) → Calm (cccd_descriptor bleak unicode contract timeout c)
  unfolding cccd_descriptor
  cccd_descriptor-Calm c = go (bleak.get_characteristic c contract.battery)
    where
      go : (o : Option (List (Text × ℕ))) → Calm (cccd_in bleak unicode contract timeout o)
      go none = hardware_raised-Calm characteristic_absent
      go (some ds) = described (first_cccd bleak unicode contract timeout ds)
        where
          described :
              (o : Option ℕ)
              → Calm {W = W} {A = ℕ}
                  (elim o [ none ↦ raise (hardware no_cccd) | some handle ↦ pure handle ])
          described none = hardware_raised-Calm no_cccd
          described (some handle) = pure-Calm handle

  subscribe-Calm :
      (verify_cccd : Bool) (c : C) → Calm (subscribe bleak unicode contract timeout verify_cccd c)
  subscribe-Calm false c = pure-Calm []
  subscribe-Calm true c =
      bind-Calm (cccd_descriptor bleak unicode contract timeout c) _ (cccd_descriptor-Calm c)
        (λ handle.
          bind-Calm (calling (bleak.start_notify c contract.battery)) _
            (calling-Calm (bleak.start_notify c contract.battery)) (λ u k w e. cc))

  verify_paired-Calm :
      (public : CompanionStatus) (verify_cccd : Bool) (c : C)
      → Calm (verify_paired bleak unicode contract timeout public verify_cccd c)
  unfolding verify_paired
  verify_paired-Calm public verify_cccd c =
      bind-Calm (calling (bleak.read_gatt_char c contract.companion_verify)) _ (read-Calm c _)
        (λ payload.
          bind-Calm (parsed_status {W = W} payload) _ (parsed_status-Calm payload) (λ verified.
            bind-Calm (hardware_check (validate_status_pair public verified)) _
              (hardware-Calm (validate_status_pair public verified))
              (λ u.
                bind-Calm (subscribe bleak unicode contract timeout verify_cccd c) _
                  (subscribe-Calm verify_cccd c) (λ notifications. pure-Calm _))))

  read_cccd-Calm : (c : C) → Calm (read_cccd bleak unicode contract timeout c)
  unfolding read_cccd
  read_cccd-Calm c =
      bind-Calm (cccd_descriptor bleak unicode contract timeout c) _ (cccd_descriptor-Calm c)
        (λ handle.
          bind-Calm (calling (bleak.read_gatt_descriptor c handle)) _
            (calling-Calm (bleak.read_gatt_descriptor c handle))
            (λ raw_cccd.
              bind-Calm (hardware_check (require (cccd_enabled raw_cccd) cccd_not_restored)) _
                (hardware-Calm (require (cccd_enabled raw_cccd) cccd_not_restored))
                (λ u. pure-Calm _)))

  restored_cccd-Calm :
      (e : BleEndpoint) (verify_cccd : Bool)
      → Calm (restored_cccd bleak unicode contract timeout e verify_cccd)
  unfolding restored_cccd
  restored_cccd-Calm e false = pure-Calm none
  restored_cccd-Calm e true =
      bind-Calm (find bleak unicode contract timeout e timeout) _ (find-Calm e timeout) (λ device.
        with_client-Calm device e false (read_cccd bleak unicode contract timeout) read_cccd-Calm)

  probe_behind-Calm :
      (e : BleEndpoint) (verify_cccd require_rejection allow_eviction : Bool) (read : PublicRead D)
      → Calm (
          probe_behind bleak unicode contract timeout e verify_cccd require_rejection allow_eviction
            read)
  unfolding probe_behind
  probe_behind-Calm e verify_cccd require_rejection allow_eviction read =
      bind-Calm
        (hardware_check
          (require (gate_passes require_rejection read.rejected) readable_before_bonding))
        _
        (hardware-Calm
          (require (gate_passes require_rejection read.rejected) readable_before_bonding))
        (λ u.
          bind-Calm (parsed_status {W = W} read.status) _ (parsed_status-Calm read.status)
            (λ public.
              bind-Calm
                (hardware_check (
                  require (ltb public.bonded_count public.capacity || allow_eviction)
                    pairing_may_evict))
                _
                (hardware-Calm (
                  require (ltb public.bonded_count public.capacity || allow_eviction)
                    pairing_may_evict))
                (λ u.
                  let body = verify_paired bleak unicode contract timeout public verify_cccd in
                  bind-Calm (with_client bleak unicode contract timeout read.device e true body) _
                    (with_client-Calm read.device e true body
                      (verify_paired-Calm public verify_cccd))
                    (λ paired.
                      bind-Calm (restored_cccd bleak unicode contract timeout e verify_cccd) _
                        (restored_cccd-Calm e verify_cccd) (λ value. pure-Calm _)))))

  pub probe-Calm :
      (e : BleEndpoint) (verify_cccd require_rejection allow_eviction : Bool)
      → Calm (probe bleak unicode contract timeout e verify_cccd require_rejection allow_eviction)
  unfolding probe
  probe-Calm e verify_cccd require_rejection allow_eviction =
      bind-Calm (read_public bleak unicode contract timeout e require_rejection) _
        (read_public-Calm e require_rejection)
        (probe_behind-Calm e verify_cccd require_rejection allow_eviction)
