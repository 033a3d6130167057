-- ===== src/Hardware/Ble/Probe.antt =====
-- What a probe of src/ptlab/hardware.py that returns has checked, and what the watch gave it.
use pinetime_dev_tools.Prelude.{
  ℕ, List, [], ◌∷◌, Option, none, some, Bool, true, false, ◌||◌, ltb, ◌==◌, ==_iff, ◌≡◌, refl, sym,
  ap, ap₂, subst, &&_elim, ◌∙◌,
}
use pinetime_dev_tools.Prelude.Result.{Result, ok, err, require}
use pinetime_dev_tools.Prelude.State.{pair_value, pair_result, bind_ran}
use pinetime_dev_tools.Prelude.Texts.{Text}
use pinetime_dev_tools.Bytes.{Bytes}
use pinetime_dev_tools.Control.Response.{same_text}
use pinetime_dev_tools.Wire.{CompanionStatus}
use pinetime_dev_tools.Hardware.{
  HardwareError, readable_before_bonding, pairing_may_evict, cccd_not_restored, BleEndpoint,
  Unicode, calling,
}
use pinetime_dev_tools.Hardware.Status.{validate_status_pair, Consistent, validate-Consistent}
use pinetime_dev_tools.Hardware.Contract.{CharacteristicContract}
use pinetime_dev_tools.Hardware.Ble.Reads.{
  calling_ran, parsed_status_ran, Connects, Reads, Shows, Rejects, with_client_ran, read_ran,
  Unpaired, read_public-Unpaired,
}
use pinetime_dev_tools.Hardware.Ble.{
  strip_nul, Bleak, ProbeResult, PublicRead, find, with_client, cccd_descriptor, parsed_status,
  hardware_check, subscribe, verify_paired, read_cccd, restored_cccd, cccd_enabled, gate_passes,
  probe_behind, read_public, probe,
}

-- What a probe that returned says of the watch: the two readings of its status agree, no peer was
-- put at risk without leave, an unpaired read was rejected where that was asked for, and
-- notifications are enabled behind the reconnection where that was.
pub record Verified (verify_cccd require_rejection allow_eviction : Bool) (r : ProbeResult)
    : Type 0 where
  pub consistent : Consistent r.public_status r.verified_status
  pub room : (ltb r.public_status.bonded_count r.public_status.capacity || allow_eviction) ≡ true
  pub gate_is : r.gate_checked ≡ require_rejection
  pub gate : require_rejection ≡ true → r.gate_rejected ≡ some true
  pub cccd : verify_cccd ≡ true → r.cccd_after_reconnect ≡ some (0x01 ∷ 0x00 ∷ [])

required :
    {W : Type 0} (b : Bool) (e : HardwareError) (w v : W)
    → hardware_check (require b e) w ≡ (ok tt, v)
    → b ≡ true
required true e w v h = refl
required false e w v h = cc

validated :
    {W : Type 0} (public verified : CompanionStatus) (w v : W)
    → hardware_check (validate_status_pair public verified) w ≡ (ok tt, v)
    → Consistent public verified
validated public verified w v h =
    validate-Consistent public verified (go (validate_status_pair public verified) h)
  where
    go : (r : Result HardwareError (Unit {0})) → hardware_check r w ≡ (ok tt, v) → r ≡ ok tt
    go (ok tt) k = refl
    go (err e) k = cc

same_text-eq : (s t : Text) → same_text s t ≡ true → s ≡ t
same_text-eq [] [] h = refl
same_text-eq [] (d ∷ ds) h = cc
same_text-eq (c ∷ cs) [] h = cc
same_text-eq (c ∷ cs) (d ∷ ds) h =
    let (x, y) = &&_elim (c == d) (same_text cs ds) h in
    ap₂ ◌∷◌ ((==_iff c d).0 x) (same_text-eq cs ds y)

module _ {W D C : Type 0} (bleak : Bleak W D C) (unicode : Unicode)
    (contract : CharacteristicContract) (timeout : ℕ) where
  -- A descriptor of the battery characteristic was read enabled, on an unpaired connection.
  pub record Restored (e : BleEndpoint) : Type 0 where
    pub device : D
    pub connection : C
    pub connects : Connects bleak unicode contract timeout e device false connection
    pub handle : ℕ
    pub found :
        (w : W) × ((cccd_descriptor bleak unicode contract timeout connection w).0 ≡ ok handle)
    pub enabled :
        (w : W) × ((bleak.read_gatt_descriptor connection handle w).0 ≡ ok (0x01 ∷ 0x00 ∷ []))

  -- What the watch gave a probe, for what its result says: on an unpaired connection the public
  -- status, the battery and the revision, and a rejection where it was asked for; on a paired one to
  -- the same device the verified status; and the descriptor on a connection behind that where that
  -- was asked for.
  pub record Seen (e : BleEndpoint) (verify_cccd require_rejection : Bool) (r : ProbeResult)
      : Type 0 where
    pub device : D
    pub unpaired : C
    pub unpaired_connects : Connects bleak unicode contract timeout e device false unpaired
    pub public_shown :
        Shows bleak unicode contract timeout unpaired contract.companion_status r.public_status
    pub battery_read :
        Reads bleak unicode contract timeout unpaired contract.battery (r.battery_percent ∷ [])
    pub revision : Bytes
    pub revision_read :
        Reads bleak unicode contract timeout unpaired contract.firmware_revision revision
    pub revision_text : strip_nul (unicode.decode_replacing revision) ≡ r.firmware_revision
    pub rejection : require_rejection ≡ true → Rejects bleak unicode contract timeout unpaired
    pub paired : C
    pub paired_connects : Connects bleak unicode contract timeout e device true paired
    pub verified_shown :
        Shows bleak unicode contract timeout paired contract.companion_verify r.verified_status
    pub restored : verify_cccd ≡ true → Restored e

  paired_ran :
      (public : CompanionStatus) (verify_cccd : Bool) (c : C) (w v : W)
      (got : CompanionStatus × List Bytes)
      → verify_paired bleak unicode contract timeout public verify_cccd c w ≡ (ok got, v)
      → Consistent public got.0
        × Shows bleak unicode contract timeout c contract.companion_verify got.0
  unfolding verify_paired
  paired_ran public verify_cccd c w v got h =
      let (payload, w₁, h₁, k₁) =
        bind_ran (calling (bleak.read_gatt_char c contract.companion_verify)) _ w h in
      let (verified, w₂, h₂, k₂) = bind_ran (parsed_status payload) _ w₁ k₁ in
      let (u, w₃, h₃, k₃) =
        bind_ran (hardware_check (validate_status_pair public verified)) _ w₂ k₂ in
      let (ns, w₄, h₄, k₄) =
        bind_ran (subscribe bleak unicode contract timeout verify_cccd c) _ w₃ k₃ in
      let read : verified ≡ got.0 = ap (λ x. x.0) (pair_value (verified, ns) got w₄ v k₄) in
      let given =
        read_ran bleak unicode contract timeout c contract.companion_verify w w₁ payload h₁ in
      subst
        (λ status.
          Consistent public status
          × Shows bleak unicode contract timeout c contract.companion_verify status)
        read
        (
          validated public verified w₂ w₃ h₃,
          (payload, given, parsed_status_ran payload w₁ w₂ verified h₂),
        )

  read_cccd_ran :
      (c : C) (w v : W) (got : Option Bytes)
      → read_cccd bleak unicode contract timeout c w ≡ (ok got, v)
      → (got ≡ some (0x01 ∷ 0x00 ∷ []))
        × (handle : ℕ) × ((x : W) × ((cccd_descriptor bleak unicode contract timeout c x).0
              ≡ ok handle))
        × ((x : W) × ((bleak.read_gatt_descriptor c handle x).0 ≡ ok (0x01 ∷ 0x00 ∷ [])))
  unfolding read_cccd
  read_cccd_ran c w v got h =
      let (handle, w₁, h₁, k₁) =
        bind_ran (cccd_descriptor bleak unicode contract timeout c) _ w h in
      let (raw_cccd, w₂, h₂, k₂) =
        bind_ran (calling (bleak.read_gatt_descriptor c handle)) _ w₁ k₁ in
      let (u, w₃, h₃, k₃) =
        bind_ran (hardware_check (require (cccd_enabled raw_cccd) cccd_not_restored)) _ w₂ k₂ in
      let bytes =
        same_text-eq raw_cccd (0x01 ∷ 0x00 ∷ [])
          (required (cccd_enabled raw_cccd) cccd_not_restored w₂ w₃ h₃) in
      (
        sym (pair_value (some raw_cccd) got w₃ v k₃) ∙ ap some bytes,
        handle,
        (w, pair_result _ (ok handle) _ w₁ h₁),
        (w₁, calling_ran (bleak.read_gatt_descriptor c handle) w₁ w₂ raw_cccd h₂ ∙ ap ok bytes),
      )

  restored_cccd_ran :
      (e : BleEndpoint) (verify_cccd : Bool) (w v : W) (got : Option Bytes)
      → restored_cccd bleak unicode contract timeout e verify_cccd w ≡ (ok got, v)
      → verify_cccd ≡ true
      → (got ≡ some (0x01 ∷ 0x00 ∷ [])) × Restored e
  unfolding restored_cccd
  restored_cccd_ran e false w v got h on = cc
  restored_cccd_ran e true w v got h on =
      let (device, w₁, h₁, k₁) = bind_ran (find bleak unicode contract timeout e timeout) _ w h in
      let (c, connects, w₂, ran) =
        with_client_ran bleak unicode contract timeout device e false
          (read_cccd bleak unicode contract timeout) w₁ v got k₁ in
      let (bytes, handle, found, enabled) = read_cccd_ran c w₂ _ got ran in
      (
        bytes,
        record {
          device = device;
          connection = c;
          connects = connects;
          handle = handle;
          found = found;
          enabled = enabled;
        },
      )

  pub gate_lem :
      (b : Bool) (rejected : Option Bool)
      → gate_passes b rejected ≡ true
      → b ≡ true
      → rejected ≡ some true
  gate_lem false rejected h on = cc
  gate_lem true none h on = cc
  gate_lem true (some b) h on = ap some h

  abbrev IsProbed : BleEndpoint → Bool → Bool → Bool → ProbeResult → Type 0
  IsProbed e verify_cccd require_rejection allow_eviction r =
      Verified verify_cccd require_rejection allow_eviction r
      × Seen e verify_cccd require_rejection r

  probe_behind_ran :
      (e : BleEndpoint) (verify_cccd require_rejection allow_eviction : Bool) (read : PublicRead D)
      (w v : W) (r : ProbeResult)
      → Unpaired bleak unicode contract timeout e read
      → probe_behind bleak unicode contract timeout e verify_cccd require_rejection allow_eviction
          read w
        ≡ (ok r, v)
      → IsProbed e verify_cccd require_rejection allow_eviction r
  unfolding probe_behind
  probe_behind_ran e verify_cccd require_rejection allow_eviction read w v r unpaired h =
      let passes = gate_passes require_rejection read.rejected in
      let (u, w₁, h₁, k₁) =
        bind_ran (hardware_check (require passes readable_before_bonding)) _ w h in
      let (public, w₂, h₂, k₂) = bind_ran (parsed_status read.status) _ w₁ k₁ in
      let room = ltb public.bonded_count public.capacity || allow_eviction in
      let (u, w₃, h₃, k₃) = bind_ran (hardware_check (require room pairing_may_evict)) _ w₂ k₂ in
      let body = verify_paired bleak unicode contract timeout public verify_cccd in
      let (paired, w₄, h₄, k₄) =
        bind_ran (with_client bleak unicode contract timeout read.device e true body) _ w₃ k₃ in
      let (cccd_value, w₅, h₅, k₅) =
        bind_ran (restored_cccd bleak unicode contract timeout e verify_cccd) _ w₄ k₄ in
      let (c, connects, w', ran) =
        with_client_ran bleak unicode contract timeout read.device e true body w₃ w₄ paired h₄ in
      let (consistent, shown) = paired_ran public verify_cccd c w' _ paired ran in
      let gate =
        gate_lem require_rejection read.rejected
          (required passes readable_before_bonding w w₁ h₁) in
      let restored = restored_cccd_ran e verify_cccd w₄ w₅ cccd_value h₅ in
      let seen = unpaired.public_seen in
      subst (IsProbed e verify_cccd require_rejection allow_eviction) (pair_value _ r w₅ v k₅) (
        record {
          consistent = consistent;
          room = required room pairing_may_evict w₂ w₃ h₃;
          gate_is = refl;
          gate = gate;
          cccd = λ on. (restored on).0;
        },
        record {
          device = read.device;
          unpaired = unpaired.connection;
          unpaired_connects = unpaired.connects;
          public_shown = (read.status, seen.status, parsed_status_ran read.status w₁ w₂ public h₂);
          battery_read = seen.battery;
          revision = seen.revision;
          revision_read = seen.revision_read;
          revision_text = seen.revision_text;
          rejection = λ on. seen.rejection (gate on);
          paired = c;
          paired_connects = connects;
          verified_shown = shown;
          restored = λ on. (restored on).1;
        },
      )

-- A probe that returns has seen what it says. On an unpaired connection the watch gave the public
-- status, the battery and the revision of the result, and where it was asked for it rejected the read
-- of the protected status there; on a paired connection to the same device it gave the verified
-- status. This agrees with the public one in what is stable, and its counts did not go back; no peer
-- was put at risk of eviction without leave; and where it was asked for, the CCCD was found and read
-- back enabled on one more unpaired connection.
pub probe-Verified :
    {W D C : Type 0} (bleak : Bleak W D C) (unicode : Unicode) (contract : CharacteristicContract)
    (timeout : ℕ) (e : BleEndpoint) (verify_cccd require_rejection allow_eviction : Bool) (w v : W)
    (r : ProbeResult)
    → probe bleak unicode contract timeout e verify_cccd require_rejection allow_eviction w
      ≡ (ok r, v)
    → Verified verify_cccd require_rejection allow_eviction r
      × Seen bleak unicode contract timeout e verify_cccd require_rejection r
unfolding probe
probe-Verified bleak unicode contract timeout e verify_cccd require_rejection allow_eviction w v r
      h =
    let (read, w₁, h₁, k₁) =
      bind_ran (read_public bleak unicode contract timeout e require_rejection) _ w h in
    probe_behind_ran bleak unicode contract timeout e verify_cccd require_rejection allow_eviction
      read w₁ v r
      (read_public-Unpaired bleak unicode contract timeout e require_rejection w w₁ read h₁) k₁
