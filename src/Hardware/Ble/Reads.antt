-- ===== src/Hardware/Ble/Reads.antt =====
-- What the calls of `BleakHardware` in src/ptlab/hardware.py that returned were given by the watch.
use pinetime_dev_tools.Prelude.{
  ℕ, String, [], ◌∷◌, Option, none, some, Bool, true, false, ◌≡◌, refl, ap, subst, ◌∙◌, Bool-cases,
  inl, inr,
}
use pinetime_dev_tools.Prelude.Result.{Result, ok, err, map_err}
use pinetime_dev_tools.Prelude.State.{Exec, bind_ran, pair_value, pair_result}
use pinetime_dev_tools.Prelude.Texts.{Text}
use pinetime_dev_tools.Bytes.{Bytes}
use pinetime_dev_tools.Wire.{WireError, CompanionStatus, parse_companion_status}
use pinetime_dev_tools.Hardware.{
  Outside, Failure, outside, value, bad_status_payload, hardware, unexpected_verify_failure,
  BleEndpoint, Unicode, calling,
}
use pinetime_dev_tools.Hardware.Contract.{CharacteristicContract}
use pinetime_dev_tools.Hardware.Ble.{
  Bleak, PublicRead, find, with_client, adapter_of, parsed_status, one_byte, is_rejection,
  gate_outcome, check_gate, public_reads, read_public, strip_nul,
}

pub calling_ran :
    {W A : Type 0} (m : Exec W Outside A) (w v : W) (a : A)
    → calling m w ≡ (ok a, v)
    → (m w).0 ≡ ok a
calling_ran {W} {A} m w v a h = go (m w).0 refl h
  where
    go :
        (r : Result Outside A)
        → (m w).0 ≡ r
        → ◌≡◌ {A = Result Failure A × W} (map_err outside r, (m w).1) (ok a, v)
        → (m w).0 ≡ ok a
    go (ok b) e k = e ∙ ap ok (pair_value b a (m w).1 v k)
    go (err x) e k = cc

pub parsed_status_ran :
    {W : Type 0} (payload : Bytes) (w v : W) (status : CompanionStatus)
    → parsed_status payload w ≡ (ok status, v)
    → parse_companion_status payload ≡ ok status
parsed_status_ran {W} payload w v status h = go (parse_companion_status payload) refl h
  where
    go :
        (r : Result WireError CompanionStatus)
        → parse_companion_status payload ≡ r
        → ◌≡◌ {A = Result Failure CompanionStatus × W}
            (map_err (λ e. value bad_status_payload) r, w)
            (ok status, v)
        → parse_companion_status payload ≡ ok status
    go (ok b) e k = e ∙ ap ok (pair_value b status w v k)
    go (err x) e k = cc

one_byte_ran : {W : Type 0} (bs : Bytes) (w v : W) (b : ℕ) → one_byte bs w ≡ (ok b, v) → bs ≡ b ∷ []
one_byte_ran [] w v b h = cc
one_byte_ran (x ∷ []) w v b h = ap (λ y. y ∷ []) (pair_value x b w v h)
one_byte_ran (x ∷ y ∷ ys) w v b h = cc

module _ {W D C : Type 0} (bleak : Bleak W D C) (unicode : Unicode)
    (contract : CharacteristicContract) (timeout : ℕ) where
  -- A connection to a device was opened, paired or not.
  abbrev pub Connects : BleEndpoint → D → Bool → C → Type 0
  Connects e d pair c = (w : W) × ((bleak.connect d timeout (adapter_of e) pair w).0 ≡ ok c)

  -- A read of a characteristic on a connection gave these bytes.
  abbrev pub Reads : C → String → Bytes → Type 0
  Reads c uuid payload = (w : W) × ((bleak.read_gatt_char c uuid w).0 ≡ ok payload)

  -- A read on a connection gave a status.
  abbrev pub Shows : C → String → CompanionStatus → Type 0
  Shows c uuid status =
      (payload : Bytes) × Reads c uuid payload × (parse_companion_status payload ≡ ok status)

  -- A read of the protected characteristic raised, with an error that tells of a missing
  -- authentication.
  abbrev pub Rejects : C → Type 0
  Rejects c =
      (w : W) × (x : Outside) × ((bleak.read_gatt_char c contract.companion_verify w).0 ≡ err x)
      × (is_rejection bleak unicode contract timeout x ≡ true)

  -- A body on a connection that returned did so on some connection that was opened.
  pub with_client_ran :
      {A : Type 0} (d : D) (e : BleEndpoint) (pair : Bool) (body : C → Exec W Failure A) (w v : W)
      (got : A)
      → with_client bleak unicode contract timeout d e pair body w ≡ (ok got, v)
      → (c : C) × Connects e d pair c × (w' : W) × (body c w' ≡ (ok got, (body c w').1))
  with_client_ran d e pair body w v got h =
      let (c, w', h₁, k₁) =
        bind_ran (calling (bleak.connect d timeout (adapter_of e) pair)) _ w h in
      let ran = pair_result (body c w').0 (ok got) (bleak.disconnect c (body c w').1) v k₁ in
      (
        c,
        (w, calling_ran (bleak.connect d timeout (adapter_of e) pair) w w' c h₁),
        w',
        ap (λ x. (x, (body c w').1)) ran,
      )

  pub read_ran :
      (c : C) (uuid : String) (w v : W) (payload : Bytes)
      → calling (bleak.read_gatt_char c uuid) w ≡ (ok payload, v)
      → Reads c uuid payload
  read_ran c uuid w v payload h = (w, calling_ran (bleak.read_gatt_char c uuid) w v payload h)

  check_gate_ran :
      (gate : Bool) (c : C) (w v : W) (rejected : Option Bool)
      → check_gate bleak unicode contract timeout gate c w ≡ (ok rejected, v)
      → rejected ≡ some true
      → Rejects c
  check_gate_ran false c w v rejected h on = absurd (apart (pair_value none rejected w v h ∙ on))
    where
      apart : ◌≡◌ {A = Option Bool} none (some true) → ⊥
      apart k = cc
  check_gate_ran true c w v rejected h on =
      go (bleak.read_gatt_char c contract.companion_verify w).0 refl
        (pair_result _ (ok rejected) _ v h)
    where
      readable : ◌≡◌ {A = Result Failure (Option Bool)} (ok (some false)) (ok (some true)) → ⊥
      readable k = cc

      go :
          (r : Result Outside Bytes)
          → (bleak.read_gatt_char c contract.companion_verify w).0 ≡ r
          → gate_outcome bleak unicode contract timeout r ≡ ok rejected
          → Rejects c
      go (ok payload) e k = absurd (readable (k ∙ ap ok on))
      go (err x) e k = elim (Bool-cases (is_rejection bleak unicode contract timeout x)) [
        | inl told ↦ (w, x, e, told)
        | inr other ↦ absurd (raised (rw other at k))
      ]
        where
          raised :
              ◌≡◌ {A = Result Failure (Option Bool)}
                (err (hardware unexpected_verify_failure))
                (ok rejected)
              → ⊥
          raised j = cc

  -- What the reads on an unpaired connection gave.
  pub record PublicSeen (c : C) (got : Bytes × Bytes × Text × Option Bool) : Type 0 where
    pub status : Reads c contract.companion_status got.0
    pub battery : Reads c contract.battery got.1
    pub revision : Bytes
    pub revision_read : Reads c contract.firmware_revision revision
    pub revision_text : strip_nul (unicode.decode_replacing revision) ≡ got.2
    pub rejection : got.3 ≡ some true → Rejects c

  public_reads-PublicSeen :
      (gate : Bool) (c : C) (w v : W) (got : Bytes × Bytes × Text × Option Bool)
      → public_reads bleak unicode contract timeout gate c w ≡ (ok got, v)
      → PublicSeen c got
  unfolding public_reads
  public_reads-PublicSeen gate c w v got h =
      let (status, w₁, h₁, k₁) =
        bind_ran (calling (bleak.read_gatt_char c contract.companion_status)) _ w h in
      let (battery, w₂, h₂, k₂) =
        bind_ran (calling (bleak.read_gatt_char c contract.battery)) _ w₁ k₁ in
      let (revision, w₃, h₃, k₃) =
        bind_ran (calling (bleak.read_gatt_char c contract.firmware_revision)) _ w₂ k₂ in
      let (rejected, w₄, h₄, k₄) =
        bind_ran (check_gate bleak unicode contract timeout gate c) _ w₃ k₃ in
      subst (PublicSeen c) (pair_value _ got w₄ v k₄) (record {
        status = read_ran c contract.companion_status w w₁ status h₁;
        battery = read_ran c contract.battery w₁ w₂ battery h₂;
        revision = revision;
        revision_read = read_ran c contract.firmware_revision w₂ w₃ revision h₃;
        revision_text = refl;
        rejection = check_gate_ran gate c w₃ w₄ rejected h₄;
      })

  -- The same of the unpaired connection to a device.
  pub record Unpaired (e : BleEndpoint) (read : PublicRead D) : Type 0 where
    pub connection : C
    pub connects : Connects e read.device false connection
    pub public_seen :
        PublicSeen connection (read.status, read.battery ∷ [], read.revision, read.rejected)

  pub read_public-Unpaired :
      (e : BleEndpoint) (gate : Bool) (w v : W) (read : PublicRead D)
      → read_public bleak unicode contract timeout e gate w ≡ (ok read, v)
      → Unpaired e read
  unfolding read_public
  read_public-Unpaired e gate w v read h =
      let (device, w₁, h₁, k₁) = bind_ran (find bleak unicode contract timeout e timeout) _ w h in
      let body = public_reads bleak unicode contract timeout gate in
      let (reads, w₂, h₂, k₂) =
        bind_ran (with_client bleak unicode contract timeout device e false body) _ w₁ k₁ in
      let (battery, w₃, h₃, k₃) = bind_ran (one_byte reads.1) _ w₂ k₂ in
      let (c, connects, w', ran) = with_client_ran device e false body w₁ w₂ reads h₂ in
      subst (Unpaired e) (pair_value _ read w₃ v k₃) (record {
        connection = c;
        connects = connects;
        public_seen =
            subst (λ bs. PublicSeen c (reads.0, bs, reads.2, reads.3))
              (one_byte_ran reads.1 w₂ w₃ battery h₃)
              (public_reads-PublicSeen gate c w' _ reads ran);
      })
