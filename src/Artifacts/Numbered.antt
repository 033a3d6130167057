-- ===== src/Artifacts/Numbered.antt =====
-- The sequence numbers of the records of src/ptlab/artifacts.py and src/ptlab/transcript.py.
use pinetime_dev_tools.Prelude.{
  ℕ, suc, ◌+◌, ◌≤◌, List, [], ◌∷◌, ◌++◌, length, All, none, some, ◌≡◌, refl, subst, ap, arith,
  String,
}
use pinetime_dev_tools.Prelude.Result.{Result, ok, err}
use pinetime_dev_tools.Prelude.State.{Exec}
use pinetime_dev_tools.Hardware.{Outside}
use pinetime_dev_tools.Artifacts.{
  Json, number, text, Fields, get_field, Writer, emit_record, emit_event, emit_transcript, written,
}

-- A call of `emit` of either class.
pub data Emission : Type 0 where
  event : String → Fields → Emission
  message : String → String → String → Fields → Emission

abbrev pub extra_fields : Emission → Fields
extra_fields (event name fields) = fields
extra_fields (message channel direction kind fields) = fields

abbrev pub line_fields : Emission → Fields
line_fields (event name fields) = ("event", text name) ∷ fields
line_fields (message channel direction kind fields) =
    ("channel", text channel) ∷ ("direction", text direction) ∷ ("kind", text kind) ∷ fields

-- The numbers of the records increase, from `lo` on, and are below `hi`.
abbrev pub Increasing : ℕ → List Fields → ℕ → Type 0
Increasing lo [] hi = lo ≤ hi
Increasing lo (line ∷ lines) hi =
    (n : ℕ) × (get_field "sequence" line ≡ some (number n)) × (lo ≤ n) × Increasing (suc n) lines hi

-- They are lo, lo + 1, ..., hi - 1.
abbrev pub Consecutive : ℕ → List Fields → ℕ → Type 0
Consecutive lo [] hi = lo ≡ hi
Consecutive lo (line ∷ lines) hi =
    (get_field "sequence" line ≡ some (number lo)) × Consecutive (suc lo) lines hi

Increasing-weaken :
    (lo hi : ℕ) (lines : List Fields) → Increasing lo lines hi → Increasing lo lines (suc hi)
Increasing-weaken lo hi [] h = omega arith
Increasing-weaken lo hi (line ∷ lines) (n, e, k, rest) =
    (n, e, k, Increasing-weaken (suc n) hi lines rest)

Increasing-add :
    (lo hi : ℕ) (lines : List Fields) (line : Fields)
    → Increasing lo lines hi
    → get_field "sequence" line ≡ some (number hi)
    → Increasing lo (lines ++ line ∷ []) (suc hi)
Increasing-add lo hi [] line h e = (hi, e, h, omega arith)
Increasing-add lo hi (x ∷ lines) line (n, d, k, rest) e =
    (n, d, k, Increasing-add (suc n) hi lines line rest e)

Consecutive-add :
    (lo hi : ℕ) (lines : List Fields) (line : Fields)
    → Consecutive lo lines hi
    → get_field "sequence" line ≡ some (number hi)
    → Consecutive lo (lines ++ line ∷ []) (suc hi)
Consecutive-add lo hi [] line h e = (rw h e, ap suc h)
Consecutive-add lo hi (x ∷ lines) line (d, rest) e =
    (d, Consecutive-add (suc lo) hi lines line rest e)

module _ {W : Type 0} (utc_now : W → Json) (append : Fields → Exec W Outside (Unit {0})) where
  abbrev line : Emission → Writer W → Fields
  line e s = ("sequence", number s.sequence) ∷ ("timestamp", utc_now s.world) ∷ line_fields e

  unfoldable pub emit : Emission → Exec (Writer W) Outside (Unit {0})
  unfolding emit_event emit_transcript
  emit (event name fields) = emit_event utc_now append name fields
  emit (message channel direction kind fields) =
      emit_transcript utc_now append channel direction kind fields

  emit-emit_record :
      (e : Emission) (s : Writer W) → emit e s ≡ emit_record utc_now append (line_fields e) s
  unfolding emit
  emit-emit_record (event name fields) s = refl
  emit-emit_record (message channel direction kind fields) s = refl

  -- Calls of `emit` one after another, each whether or not those before it raised.
  unfoldable pub emit_all : List Emission → Writer W → Writer W
  emit_all [] s = s
  emit_all (e ∷ es) s = emit_all es (emit e s).1

  extra_number :
      (e : Emission) (n : ℕ) (stamp : Json)
      → get_field "sequence" (extra_fields e) ≡ none
      → get_field "sequence" (("sequence", number n) ∷ ("timestamp", stamp) ∷ line_fields e)
        ≡ some (number n)
  unfolding get_field
  extra_number (event name fields) n stamp h = rw h refl
  extra_number (message channel direction kind fields) n stamp h = rw h refl

  emit-Increasing :
      (e : Emission) (s : Writer W)
      → get_field "sequence" (extra_fields e) ≡ none
      → Increasing 0 s.lines s.sequence
      → Increasing 0 (emit e s).1.lines (emit e s).1.sequence
        × ((emit e s).1.sequence ≡ suc s.sequence)
  emit-Increasing e s h k =
      rw (emit-emit_record e s) (go (append (line e s) s.world).0 (append (line e s) s.world).1)
    where
      go :
          (r : Result Outside (Unit {0})) (w : W)
          → let after =
              (written utc_now append
                (line e s)
                r
                (record s { sequence = suc s.sequence; world = w })).1 in
            Increasing 0 after.lines after.sequence × (after.sequence ≡ suc s.sequence)
      go (ok x) w =
          (Increasing-add 0 s.sequence s.lines (line e s) k (extra_number e s.sequence _ h), refl)
      go (err x) w = (Increasing-weaken 0 s.sequence s.lines k, refl)

  emit-Consecutive :
      (e : Emission) (s : Writer W)
      → ((fields : Fields) (w : W) → (append fields w).0 ≡ ok tt)
      → get_field "sequence" (extra_fields e) ≡ none
      → Consecutive 0 s.lines s.sequence
      → Consecutive 0 (emit e s).1.lines (emit e s).1.sequence
  emit-Consecutive e s succeeds h k =
      rw (emit-emit_record e s, succeeds (line e s) s.world)
        (Consecutive-add 0 s.sequence s.lines (line e s) k (extra_number e s.sequence _ h))

  all-Increasing :
      (es : List Emission) (s : Writer W)
      → All (λ e. get_field "sequence" (extra_fields e) ≡ none) es
      → Increasing 0 s.lines s.sequence
      → Increasing 0 (emit_all es s).lines (emit_all es s).sequence
        × ((emit_all es s).sequence ≡ s.sequence + length es)
  unfolding emit_all
  all-Increasing [] s h k = (k, omega arith)
  all-Increasing (e ∷ es) s (h, hs) k =
      let (first, next) = emit-Increasing e s h k in
      let (rest, total) = all-Increasing es (emit e s).1 hs first in
      (rest, omega (arith, next, total))

  all-Consecutive :
      (es : List Emission) (s : Writer W)
      → ((fields : Fields) (w : W) → (append fields w).0 ≡ ok tt)
      → All (λ e. get_field "sequence" (extra_fields e) ≡ none) es
      → Consecutive 0 s.lines s.sequence
      → Consecutive 0 (emit_all es s).lines (emit_all es s).sequence
  unfolding emit_all
  all-Consecutive [] s succeeds h k = k
  all-Consecutive (e ∷ es) s succeeds (h, hs) k =
      all-Consecutive es (emit e s).1 succeeds hs (emit-Consecutive e s succeeds h k)

-- Whatever records a writer is asked for, each whether or not the writes before it failed, provided
-- that no caller passes a field named "sequence": the sequence numbers in its file increase and are
-- below the next one, and each call uses up one number.
pub emit_all-Increasing :
    {W : Type 0} (utc_now : W → Json) (append : Fields → Exec W Outside (Unit {0}))
    (es : List Emission) (w : W)
    → All (λ e. get_field "sequence" (extra_fields e) ≡ none) es
    → let after = emit_all utc_now append es (record { sequence = 0; lines = []; world = w }) in
      Increasing 0 after.lines after.sequence × (after.sequence ≡ length es)
emit_all-Increasing utc_now append es w h =
    let (increasing, total) =
      all-Increasing utc_now append es (record { sequence = 0; lines = []; world = w }) h
        (omega arith) in
    (increasing, omega (arith, total))

-- Where no caller passes a field named "sequence" and no write fails, the numbers in the file are 0, 1, 2, ... up to the number of the
-- calls, without a gap.
pub emit_all-Consecutive :
    {W : Type 0} (utc_now : W → Json) (append : Fields → Exec W Outside (Unit {0}))
    (es : List Emission) (w : W)
    → ((fields : Fields) (v : W) → (append fields v).0 ≡ ok tt)
    → All (λ e. get_field "sequence" (extra_fields e) ≡ none) es
    → let after = emit_all utc_now append es (record { sequence = 0; lines = []; world = w }) in
      Consecutive 0 after.lines (length es)
emit_all-Consecutive utc_now append es w succeeds h =
    let (increasing, total) = emit_all-Increasing utc_now append es w h in
    let start : Writer _ = record { sequence = 0; lines = []; world = w } in
    subst (Consecutive 0 (emit_all utc_now append es start).lines) total
      (all-Consecutive utc_now append es start succeeds h refl)
