-- ===== src/Control/Lines/Rounds.antt =====
-- One round of the loop of `LineParser.feed` in src/ptlab/control.py.
use mathlib.Core.Option
use pinetime_dev_tools.Prelude.{
  ℕ, suc, ◌+◌, ◌<◌, ◌≤◌, List, [], ◌∷◌, ◌++◌, Option, none, some, true, false, ltb, ◌==◌,
  if◌then◌else◌, length, take, drop, Bool-cases, inl, inr, ◌≡◌, subst, ==_iff, refl, ap, ◌∙◌, arith,
}
use pinetime_dev_tools.Prelude.Result.{ok, err}
use pinetime_dev_tools.Prelude.Texts.{Text}
use pinetime_dev_tools.Bytes.{Bytes}
use pinetime_dev_tools.Utf8.{utf8_decode}
use pinetime_dev_tools.Control.Lines.{
  line_too_long, find_newline, strip_return, add_line, LineOutcome, on_text, feed_loop,
}

pub find_newline-line :
    (bs rest : Bytes)
    → find_newline bs ≡ none
    → find_newline (bs ++ b'\n' ∷ rest) ≡ some (length bs)
unfolding find_newline
find_newline-line [] rest h = refl
find_newline-line (b ∷ bs) rest h = elim (Bool-cases (b == b'\n')) [
  | inl newline ↦ absurd (found newline)
  | inr other ↦ rw other (rw (find_newline-line bs rest (later other)) refl)
]
  where
    found : b == b'\n' ≡ true → ⊥
    found e = absurd_some (rw e at h)
      where
        absurd_some : ◌≡◌ {A = Option ℕ} (some 0) none → ⊥
        absurd_some x = cc

    map_none : (o : Option ℕ) → Option.map suc o ≡ none → o ≡ none
    map_none none e = refl
    map_none (some n) e = cc

    later : b == b'\n' ≡ false → find_newline bs ≡ none
    later e = map_none (find_newline bs) (rw e at h)

-- One round of the loop.
abbrev pub round :
    ℕ → Bytes → List Text → Option ℕ → (Bytes → List Text → LineOutcome) → LineOutcome
round maximum buffer lines o k = elim o [
  | none ↦ if ltb maximum (length buffer) then (err line_too_long, []) else (ok lines, buffer)
  | some newline ↦
      let left = drop (newline + 1) buffer in
      let next =
        on_text (utf8_decode (strip_return (take newline buffer))) left
          (λ line. k left (add_line lines line)) in
      if ltb maximum newline then (err line_too_long, []) else next
]

pub loop-round :
    (fuel maximum : ℕ) (buffer : Bytes) (lines : List Text)
    → feed_loop (suc fuel) maximum buffer lines
      ≡ round maximum buffer lines (find_newline buffer) (feed_loop fuel maximum)
unfolding feed_loop
loop-round fuel maximum buffer lines = refl

pub strip_return-return : (bs : Bytes) → strip_return (bs ++ b'\r' ∷ []) ≡ bs
unfolding strip_return
strip_return-return [] = refl
strip_return-return (b ∷ []) = refl
strip_return-return (b ∷ c ∷ cs) = ap (λ l. b ∷ l) (strip_return-return (c ∷ cs))

pub drop-line : (bs rest : Bytes) (x : ℕ) → drop (length bs + 1) (bs ++ x ∷ rest) ≡ rest
drop-line [] rest x = refl
drop-line (b ∷ bs) rest x =
    let idx : length (b ∷ bs) + 1 ≡ suc (length bs + 1) = omega arith in
    ap (λ n. drop n ((b ∷ bs) ++ x ∷ rest)) idx ∙ drop-line bs rest x

-- The bytes in front of the first line feed, and those behind it.
pub find_newline-splits :
    (b : Bytes) (n : ℕ)
    → find_newline b ≡ some n
    → (b ≡ take n b ++ b'\n' ∷ drop (suc n) b)
      × (find_newline (take n b) ≡ none)
      × (length (take n b) ≤ n)
      × (n < length b)
unfolding find_newline
find_newline-splits [] n e = cc
find_newline-splits (x ∷ xs) n e = elim (Bool-cases (x == b'\n')) [
  | inl newline ↦
      subst Splits (first (rw newline at e))
        (ap (λ y. y ∷ xs) ((==_iff x b'\n').0 newline), refl, omega arith, omega arith)
  | inr other ↦
      let (m, found, same) = behind (find_newline xs) n (rw other at e) in
      let (cut, one, short, less) = find_newline-splits xs m found in
      subst Splits same
        (ap (λ l. x ∷ l) cut, rw other (rw one refl), omega (arith, short), omega (arith, less))
]
  where
    Splits : ℕ → Type 0
    Splits k =
        (x ∷ xs ≡ take k (x ∷ xs) ++ b'\n' ∷ drop (suc k) (x ∷ xs))
        × (find_newline (take k (x ∷ xs)) ≡ none)
        × (length (take k (x ∷ xs)) ≤ k)
        × (k < length (x ∷ xs))

    first : ◌≡◌ {A = Option ℕ} (some 0) (some n) → 0 ≡ n
    first k = cc

    behind :
        (o : Option ℕ) (k : ℕ) → Option.map suc o ≡ some k → (m : ℕ) × (o ≡ some m) × (suc m ≡ k)
    behind none k h = cc
    behind (some m) k h = (m, refl, cc)
