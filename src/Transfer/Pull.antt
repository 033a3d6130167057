-- ===== src/Transfer/Pull.antt =====
-- A pull from a watch that serves a list of records.
use pinetime_dev_tools.Prelude.{
  ℕ, zero, suc, ◌+◌, ◌<◌, List, [], ◌∷◌, String, length, get_or, drop, ◌≡◌, refl, sym, ap, ◌∙◌,
  arith,
}
use pinetime_dev_tools.Prelude.Result.{ok}
use pinetime_dev_tools.Bytes.{Bytes}
use pinetime_dev_tools.Wire.{Digest, parse_digest}
use pinetime_dev_tools.Transfer.{Device, pull_each, pull_records}

-- What the tools rely on: in a state where nothing is selected (`Idle`) the digest is read; writing
-- an index that is below the number of records selects it; reading a selected record returns it.
pub record Serves {S : Type 0} (dev : Device S) (digest reading : String) (d : Digest)
    (records : List Bytes) : Type 1 where
  pub Idle : S → Type 0
  pub Selected : ℕ → S → Type 0
  pub digest_payload : Bytes
  pub digest_parses : parse_digest digest_payload ≡ ok d
  pub count_is : d.count ≡ length records
  pub reads_digest :
      (s : S)
      → Idle s
      → ((dev.read digest s).0 ≡ ok (record { status = 0; payload = digest_payload }))
        × Idle (dev.read digest s).1
  pub selects :
      (i : ℕ) (s : S)
      → i < length records
      → Idle s
      → (answer : Bytes) × ((dev.write reading (i ∷ []) s).0
          ≡ ok (record { status = 0; payload = answer }))
        × Selected i (dev.write reading (i ∷ []) s).1
  pub reads_record :
      (i : ℕ) (s : S)
      → Selected i s
      → ((dev.read reading s).0 ≡ ok (record { status = 0; payload = get_or records i [] }))
        × Idle (dev.read reading s).1

-- What is left of a list from an index on.
drop-get_or : (i : ℕ) (l : List Bytes) → i < length l → drop i l ≡ get_or l i [] ∷ drop (suc i) l
drop-get_or i [] h = absurd (omega arith)
drop-get_or zero (x ∷ xs) h = refl
drop-get_or (suc i) (x ∷ xs) h = drop-get_or i xs (omega arith)

drop_all : (l : List Bytes) (i : ℕ) → length l ≡ i → drop i l ≡ []
drop_all [] zero h = refl
drop_all [] (suc i) h = refl
drop_all (x ∷ xs) zero h = absurd (omega arith)
drop_all (x ∷ xs) (suc i) h = drop_all xs i (omega arith)

module _ {S : Type 0} (dev : Device S) (digest reading : String) (d : Digest) (records : List Bytes)
    (w : Serves dev digest reading d records) where
  pull_each-drop :
      (left i : ℕ) (s : S)
      → i + left ≡ length records
      → w.Idle s
      → (pull_each dev reading i left s).0 ≡ ok (drop i records)
  unfolding pull_each
  pull_each-drop zero i s e h = ap ok (sym (drop_all records i (omega arith)))
  pull_each-drop (suc left) i s e h =
      let (answer, p, selected) = w.selects i s (omega arith) h in
      let t = (dev.write reading (i ∷ []) s).1 in
      let (q, idle) = w.reads_record i t selected in
      let rest = pull_each-drop left (i + 1) (dev.read reading t).1 (omega arith) idle in
      rw (p, q)
        (rw rest (
          let idx : i + 1 ≡ suc i = omega arith in
          ap (λ t. ok (get_or records i [] ∷ drop t records)) idx
          ∙ ap ok (sym (drop-get_or i records (omega arith)))))

-- From a watch that serves a list of records under a digest that counts them, a pull returns that
-- digest and exactly these records, in their order.
pub pull_records_lem :
    {S : Type 0} (dev : Device S) (digest reading : String) (d : Digest) (records : List Bytes)
    (w : Serves dev digest reading d records) (s : S)
    → w.Idle s
    → (pull_records dev digest reading s).0 ≡ ok (d, records)
unfolding pull_records
pull_records_lem dev digest reading d records w s h =
    let (p, idle) = w.reads_digest s h in
    let rest =
      pull_each-drop dev digest reading d records w (length records) 0 (dev.read digest s).1
        (omega arith) idle in
    rw (p, w.digest_parses, w.count_is) (rw rest refl)
