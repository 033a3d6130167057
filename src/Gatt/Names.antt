-- ===== src/Gatt/Names.antt =====
-- `resolve_characteristic` of src/ptlab/gatt.py, over the generated table of bridge identifiers.
use pinetime_dev_tools.Prelude.{
  ℕ, List, [], ◌∷◌, Option, none, some, Bool, true, false, ◌&&◌, ◌==◌, if◌then◌else◌, String,
  str_eq, eq_iff, ◌≡◌, refl, arith, all, Bool-cases, ◌⊎◌, inl, inr, ap, ==_iff, &&_elim,
}
use pinetime_dev_tools.Prelude.Result.{Result, ok, err}
use pinetime_dev_tools.Protocol.{bridge_char}

-- The argument is a name or an identifier.
pub data Characteristic : Type 0 where
  by_name : String → Characteristic
  by_id : ℕ → Characteristic

-- The three ValueErrors.
pub data NameError : Type 0 where
  unknown_name no_bridge_id unknown_id : NameError

abbrev Table : Type 0
Table = List (String × Option ℕ)

-- BRIDGE_CHAR[name]
pub lookup : String → Table → Option (Option ℕ)
lookup name [] = none
lookup name ((n, v) ∷ t) = if str_eq n name then some v else lookup name t

abbrev is_id : ℕ → Option ℕ → Bool
is_id i none = false
is_id i (some v) = v == i

-- next(name for name, value in BRIDGE_CHAR.items() if value == characteristic), where there is one.
pub name_of : ℕ → Table → Option String
name_of i [] = none
name_of i ((n, v) ∷ t) = if is_id i v then some n else name_of i t

abbrev named : String → Option (Option ℕ) → Result NameError (String × ℕ)
named name none = err unknown_name
named name (some none) = err no_bridge_id
named name (some (some v)) = ok (name, v)

abbrev identified : ℕ → Option String → Result NameError (String × ℕ)
identified i none = err unknown_id
identified i (some n) = ok (n, i)

-- An identifier is in _GENERATED_IDS exactly if some name has it.
unfoldable pub resolve_characteristic : Characteristic → Result NameError (String × ℕ)
unfolding lookup name_of
resolve_characteristic (by_name name) = named name (lookup name bridge_char)
resolve_characteristic (by_id i) = identified i (name_of i bridge_char)

-- An entry of a table.
abbrev IsEntry : String → Option ℕ → Table → Type 0
IsEntry n v [] = ⊥
IsEntry n v ((m, w) ∷ t) = ((m ≡ n) × (w ≡ v)) ⊎ IsEntry n v t

lookup-IsEntry : (n : String) (v : Option ℕ) (t : Table) → lookup n t ≡ some v → IsEntry n v t
unfolding lookup
lookup-IsEntry n v [] h = cc
lookup-IsEntry n v ((m, w) ∷ t) h = elim (Bool-cases (str_eq m n)) [
  | inl same ↦ inl ((eq_iff m n).0 same, cc (rw same at h))
  | inr other ↦ inr (lookup-IsEntry n v t (rw other at h))
]

is_id-eq : (i : ℕ) (w : Option ℕ) → is_id i w ≡ true → w ≡ some i
is_id-eq i none h = cc
is_id-eq i (some j) h = ap some ((==_iff j i).0 h)

name_of-IsEntry : (i : ℕ) (n : String) (t : Table) → name_of i t ≡ some n → IsEntry n (some i) t
unfolding name_of
name_of-IsEntry i n [] h = cc
name_of-IsEntry i n ((m, w) ∷ t) h = elim (Bool-cases (is_id i w)) [
  | inl same ↦ inl (cc (rw same at h), is_id-eq i w same)
  | inr other ↦ inr (name_of-IsEntry i n t (rw other at h))
]

abbrev holds : Option (Option ℕ) → ℕ → Bool
holds (some (some j)) i = j == i
holds _ i = false

abbrev is_name : Option String → String → Bool
is_name (some m) n = str_eq m n
is_name none n = false

-- The table names an entry in both directions.
abbrev agrees : String × Option ℕ → Bool
agrees (n, none) = true
agrees (n, some i) = holds (lookup n bridge_char) i && is_name (name_of i bridge_char) n

all_agree : all agrees bridge_char ≡ true
unfolding lookup name_of
all_agree = refl

all-IsEntry :
    (p : String × Option ℕ → Bool) (n : String) (v : Option ℕ) (t : Table)
    → all p t ≡ true
    → IsEntry n v t
    → p (n, v) ≡ true
all-IsEntry p n v [] h e = absurd e
all-IsEntry p n v ((m, w) ∷ t) h (inl (same, value)) =
    rw (← same, ← value) (&&_elim (p (m, w)) (all p t) h).0
all-IsEntry p n v ((m, w) ∷ t) h (inr e) = all-IsEntry p n v t (&&_elim (p (m, w)) (all p t) h).1 e

holds-eq : (o : Option (Option ℕ)) (i : ℕ) → holds o i ≡ true → o ≡ some (some i)
holds-eq none i h = cc
holds-eq (some none) i h = cc
holds-eq (some (some j)) i h = ap (λ k. some (some k)) ((==_iff j i).0 h)

is_name-eq : (o : Option String) (n : String) → is_name o n ≡ true → o ≡ some n
is_name-eq none n h = cc
is_name-eq (some m) n h = ap some ((eq_iff m n).0 h)

-- Of an entry of the generated table, both the name and the identifier lead to the pair.
IsEntry-resolves :
    (n : String) (i : ℕ)
    → IsEntry n (some i) bridge_char
    → (lookup n bridge_char ≡ some (some i)) × (name_of i bridge_char ≡ some n)
IsEntry-resolves n i e =
    let (a, b) =
      &&_elim (holds (lookup n bridge_char) i) (is_name (name_of i bridge_char) n)
        (all-IsEntry agrees n (some i) bridge_char all_agree e) in
    (holds-eq (lookup n bridge_char) i a, is_name-eq (name_of i bridge_char) n b)

named-eq :
    (n m : String) (i : ℕ) (o : Option (Option ℕ))
    → named n o ≡ ok (m, i)
    → (m ≡ n) × (o ≡ some (some i))
named-eq n m i none h = cc
named-eq n m i (some none) h = cc
named-eq n m i (some (some j)) h = ground arith

identified-eq :
    (i j : ℕ) (n : String) (o : Option String) → identified i o ≡ ok (n, j) → (j ≡ i) × (o ≡ some n)
identified-eq i j n none h = cc
identified-eq i j n (some m) h = ground arith

-- Over the generated table a name and an identifier that are accepted are two spellings of one
-- characteristic: resolving the identifier that a name gave returns that name, and the other way
-- round, and an accepted argument comes back as its own half of the pair.
pub resolve_inverse :
    (n m : String) (i j : ℕ)
    → (resolve_characteristic (by_name n) ≡ ok (m, i)
        → (m ≡ n) × (resolve_characteristic (by_id i) ≡ ok (n, i)))
      × (resolve_characteristic (by_id i) ≡ ok (n, j)
          → (j ≡ i) × (resolve_characteristic (by_name n) ≡ ok (n, i)))
unfolding resolve_characteristic
resolve_inverse n m i j = (
  λ h.
      let (e, f) = named-eq n m i (lookup n bridge_char) h in
      let (_, back) = IsEntry-resolves n i (lookup-IsEntry n (some i) bridge_char f) in
      (e, ap (identified i) back),
  λ h.
      let (e, f) = identified-eq i j n (name_of i bridge_char) h in
      let (back, _) = IsEntry-resolves n i (name_of-IsEntry i n bridge_char f) in
      (e, ap (named n) back),
)
