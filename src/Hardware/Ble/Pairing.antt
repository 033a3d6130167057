-- ===== src/Hardware/Ble/Pairing.antt =====
-- When `BleakHardware.probe` of src/ptlab/hardware.py opens a paired connection.
use pinetime_dev_tools.Prelude.{
  ℕ, [], ◌∷◌, Option, none, some, Bool, true, false, ◌||◌, ltb, ◌≡◌, ◌⊎◌, inl, inr, refl, ◌∙◌,
  String, if◌then◌else◌,
}
use pinetime_dev_tools.Prelude.Result.{Result, ok, err, map_err, require}
use pinetime_dev_tools.Prelude.State.{Exec, continue, ◌>>=◌, ◌>>◌, pure}
use pinetime_dev_tools.Bytes.{Bytes}
use pinetime_dev_tools.Wire.{WireError, CompanionStatus, parse_companion_status}
use pinetime_dev_tools.Hardware.{
  readable_before_bonding, pairing_may_evict, Failure, value, bad_status_payload, BleEndpoint,
  Unicode, calling, is_given,
}
use pinetime_dev_tools.Hardware.Contract.{CharacteristicContract}
use pinetime_dev_tools.Hardware.Ble.{
  Bleak, ProbeResult, PublicRead, find, found, with_client, closing, check_gate, public_reads,
  one_byte, read_public, adapter_of, hardware_check, parsed_status, gate_passes, verify_paired,
  restored_cccd, probe_behind, probe,
}
use pinetime_dev_tools.Hardware.Ble.Reads.{Connects, Shows, Rejects, Unpaired, read_public-Unpaired}
use pinetime_dev_tools.Hardware.Ble.Probe.{gate_lem}

-- `pairs` counts at most the paired connections: no other call of Bleak changes it.
pub record CountsPairs {W D C : Type 0} (bleak : Bleak W D C) (pairs : W → ℕ) : Type 0 where
  pub address_keeps :
      (a : Option String) (t : ℕ) (b : Option String) (w : W)
      → pairs (bleak.find_device_by_address a t b w).1 ≡ pairs w
  pub name_keeps :
      (a : Option String) (t : ℕ) (b : Option String) (w : W)
      → pairs (bleak.find_device_by_name a t b w).1 ≡ pairs w
  pub connect_keeps :
      (d : D) (t : ℕ) (a : Option String) (w : W) → pairs (bleak.connect d t a false w).1 ≡ pairs w
  pub disconnect_keeps : (c : C) (w : W) → pairs (bleak.disconnect c w) ≡ pairs w
  pub read_keeps :
      (c : C) (uuid : String) (w : W) → pairs (bleak.read_gatt_char c uuid w).1 ≡ pairs w

module _ {W D C : Type 0} (bleak : Bleak W D C) (unicode : Unicode)
    (contract : CharacteristicContract) (timeout : ℕ) (pairs : W → ℕ) where
  -- The leave to pair: an unpaired connection showed a public status with room for one more peer, or
  -- eviction was allowed; and it rejected the read of the protected status, where that was asked for.
  pub record Leave (e : BleEndpoint) (require_rejection allow_eviction : Bool) : Type 0 where
    pub device : D
    pub unpaired : C
    pub connects : Connects bleak unicode contract timeout e device false unpaired
    pub public : CompanionStatus
    pub shown : Shows bleak unicode contract timeout unpaired contract.companion_status public
    pub room : (ltb public.bonded_count public.capacity || allow_eviction) ≡ true
    pub rejection : require_rejection ≡ true → Rejects bleak unicode contract timeout unpaired

  -- No paired connection was opened from `before` to `after`, or there was leave.
  abbrev pub PairsWithLeave : BleEndpoint → Bool → Bool → W → W → Type 0
  PairsWithLeave e require_rejection allow_eviction before after =
      (pairs after ≡ pairs before) ⊎ Leave e require_rejection allow_eviction

  abbrev Keeps : {A : Type 0} → Exec W Failure A → Type 0
  Keeps m = (w : W) → pairs (m w).1 ≡ pairs w

  Keeps-bind :
      {A B : Type 0} (m : Exec W Failure A) (f : A → Exec W Failure B)
      → Keeps m
      → ((a : A) → Keeps (f a))
      → Keeps (m >>= f)
  Keeps-bind {A} m f hm hf w = go (m w).0 (m w).1 (hm w)
    where
      go : (r : Result Failure A) (v : W) → pairs v ≡ pairs w → pairs (continue r f v).1 ≡ pairs w
      go (ok a) v e = hf a v ∙ e
      go (err x) v e = e

  module _ (law : CountsPairs bleak pairs) where
    found-Keeps : (o : Option D) → Keeps (found bleak unicode contract timeout o)
    found-Keeps none w = refl
    found-Keeps (some d) w = refl

    find-Keeps : (e : BleEndpoint) → Keeps (find bleak unicode contract timeout e timeout)
    unfolding find
    find-Keeps e = go (is_given e.address)
      where
        go :
            (b : Bool)
            → Keeps (
                calling (
                  if b
                  then bleak.find_device_by_address e.address timeout (adapter_of e)
                  else bleak.find_device_by_name e.name timeout (adapter_of e))
                >>= found bleak unicode contract timeout)
        go true =
            Keeps-bind (calling (bleak.find_device_by_address e.address timeout (adapter_of e)))
              (found bleak unicode contract timeout)
              (law.address_keeps e.address timeout (adapter_of e)) found-Keeps
        go false =
            Keeps-bind (calling (bleak.find_device_by_name e.name timeout (adapter_of e)))
              (found bleak unicode contract timeout) (law.name_keeps e.name timeout (adapter_of e))
              found-Keeps

    unpaired-Keeps :
        {A : Type 0} (d : D) (e : BleEndpoint) (body : C → Exec W Failure A)
        → ((c : C) → Keeps (body c))
        → Keeps (with_client bleak unicode contract timeout d e false body)
    unpaired-Keeps d e body h =
        Keeps-bind (calling (bleak.connect d timeout (adapter_of e) false))
          (λ c. closing bleak unicode contract timeout c (body c))
          (law.connect_keeps d timeout (adapter_of e))
          (λ c w. law.disconnect_keeps c (body c w).1 ∙ h c w)

    check_gate-Keeps :
        (gate : Bool) (c : C) → Keeps (check_gate bleak unicode contract timeout gate c)
    check_gate-Keeps false c w = refl
    check_gate-Keeps true c w = law.read_keeps c contract.companion_verify w

    public_reads-Keeps :
        (gate : Bool) (c : C) → Keeps (public_reads bleak unicode contract timeout gate c)
    unfolding public_reads
    public_reads-Keeps gate c =
        Keeps-bind (calling (bleak.read_gatt_char c contract.companion_status)) _
          (law.read_keeps c contract.companion_status)
          (λ status.
            Keeps-bind (calling (bleak.read_gatt_char c contract.battery)) _
              (law.read_keeps c contract.battery)
              (λ battery.
                Keeps-bind (calling (bleak.read_gatt_char c contract.firmware_revision)) _
                  (law.read_keeps c contract.firmware_revision)
                  (λ revision.
                    Keeps-bind (check_gate bleak unicode contract timeout gate c) _
                      (check_gate-Keeps gate c) (λ rejected w. refl))))

    one_byte-Keeps : (bs : Bytes) → Keeps (one_byte bs)
    one_byte-Keeps [] w = refl
    one_byte-Keeps (b ∷ []) w = refl
    one_byte-Keeps (b ∷ c ∷ cs) w = refl

    read_public-Keeps :
        (e : BleEndpoint) (gate : Bool) → Keeps (read_public bleak unicode contract timeout e gate)
    unfolding read_public
    read_public-Keeps e gate =
        Keeps-bind (find bleak unicode contract timeout e timeout) _ (find-Keeps e) (λ device.
          Keeps-bind
            (with_client bleak unicode contract timeout device e false
              (public_reads bleak unicode contract timeout gate))
            _ (unpaired-Keeps device e _ (public_reads-Keeps gate))
            (λ reads. Keeps-bind (one_byte reads.1) _ (one_byte-Keeps reads.1) (λ battery w. refl)))

  -- The checks behind the public reads, of which each one that fails ends the probe where it is.
  behind-PairsWithLeave :
      (e : BleEndpoint) (verify_cccd require_rejection allow_eviction : Bool) (read : PublicRead D)
      (w : W)
      → Unpaired bleak unicode contract timeout e read
      → PairsWithLeave e require_rejection allow_eviction w
          (probe_behind bleak unicode contract timeout e verify_cccd require_rejection
            allow_eviction read w).1
  unfolding probe_behind
  behind-PairsWithLeave e verify_cccd require_rejection allow_eviction read w unpaired =
      on_gate (gate_passes require_rejection read.rejected) refl
    where
      paired : CompanionStatus → Exec W Failure ProbeResult
      paired public = do
        got ←
            with_client bleak unicode contract timeout read.device e true
              (verify_paired bleak unicode contract timeout public verify_cccd)
        cccd_value ← restored_cccd bleak unicode contract timeout e verify_cccd
        pure (record {
          endpoint = e;
          firmware_revision = read.revision;
          battery_percent = read.battery;
          public_status = public;
          verified_status = got.0;
          gate_checked = require_rejection;
          gate_rejected = read.rejected;
          cccd_checked = verify_cccd;
          cccd_after_reconnect = cccd_value;
          notifications = got.1;
        })

      on_room :
          (public : CompanionStatus) (room : Bool)
          → parse_companion_status read.status ≡ ok public
          → gate_passes require_rejection read.rejected ≡ true
          → (ltb public.bonded_count public.capacity || allow_eviction) ≡ room
          → PairsWithLeave e require_rejection allow_eviction w
              ((hardware_check (require room pairing_may_evict) >> paired public) w).1
      on_room public false parses passes e' = inl refl
      on_room public true parses passes e' = inr (record {
        device = read.device;
        unpaired = unpaired.connection;
        connects = unpaired.connects;
        public = public;
        shown = (read.status, unpaired.public_seen.status, parses);
        room = e';
        rejection = λ on.
            unpaired.public_seen.rejection
              (gate_lem bleak unicode contract timeout require_rejection read.rejected passes on);
      })

      on_status :
          (r : Result WireError CompanionStatus)
          → parse_companion_status read.status ≡ r
          → gate_passes require_rejection read.rejected ≡ true
          → PairsWithLeave e require_rejection allow_eviction w
              (continue
                (map_err (λ x. value bad_status_payload) r)
                (λ public.
                  hardware_check (
                    require
                      (ltb public.bonded_count public.capacity || allow_eviction)
                      pairing_may_evict)
                  >> paired public)
                w).1
      on_status (err x) parses passes = inl refl
      on_status (ok public) parses passes = on_room public _ parses passes refl

      on_gate :
          (passes : Bool)
          → gate_passes require_rejection read.rejected ≡ passes
          → PairsWithLeave e require_rejection allow_eviction w
              ((hardware_check (require passes readable_before_bonding)
                  >> (parsed_status read.status >>= λ public.
                      hardware_check (
                        require
                          (ltb public.bonded_count public.capacity || allow_eviction)
                          pairing_may_evict)
                      >> paired public))
                w).1
      on_gate false e' = inl refl
      on_gate true e' = on_status (parse_companion_status read.status) refl e'

-- However a probe ends, it opens no paired connection unless it has leave: an unpaired connection
-- showed it a public status with room for one more peer, or eviction was allowed; and where it was
-- asked for, the watch rejected the unpaired read of the protected status.
pub probe-PairsWithLeave :
    {W D C : Type 0} (bleak : Bleak W D C) (unicode : Unicode) (contract : CharacteristicContract)
    (timeout : ℕ) (pairs : W → ℕ) (e : BleEndpoint)
    (verify_cccd require_rejection allow_eviction : Bool) (w : W)
    → CountsPairs bleak pairs
    → PairsWithLeave bleak unicode contract timeout pairs e require_rejection allow_eviction w
        (probe bleak unicode contract timeout e verify_cccd require_rejection allow_eviction w).1
unfolding probe
probe-PairsWithLeave {W} {D} bleak unicode contract timeout pairs e verify_cccd require_rejection
      allow_eviction w law =
    go (read_public bleak unicode contract timeout e require_rejection w).0 _ refl
      (read_public-Keeps bleak unicode contract timeout pairs law e require_rejection w)
  where
    go :
        (r : Result Failure (PublicRead D)) (v : W)
        → read_public bleak unicode contract timeout e require_rejection w ≡ (r, v)
        → pairs v ≡ pairs w
        → PairsWithLeave bleak unicode contract timeout pairs e require_rejection allow_eviction w
            (continue r
              (probe_behind bleak unicode contract timeout e verify_cccd require_rejection
                allow_eviction)
              v).1
    go (err x) v ran kept = inl kept
    go (ok read) v ran kept =
        elim (behind-PairsWithLeave bleak unicode contract timeout pairs e verify_cccd
          require_rejection allow_eviction read v
          (read_public-Unpaired bleak unicode contract timeout e require_rejection w v read ran)) [
            | inl same ↦ inl (same ∙ kept)
            | inr leave ↦ inr leave
          ]
