-- ===== src/Sim/Wakes.antt =====
-- `_screen_is_off` of src/ptlab/sim.py against what the log means.
use pinetime_dev_tools.Prelude.{
  List, [], ◌∷◌, ◌++◌, All, Bool, true, false, ◌&&◌, &&_elim, ◌≡◌, ◌↔◌, ◌⊎◌, inl, inr, refl, sym,
  ap, ◌∙◌, Bool-cases,
}
use pinetime_dev_tools.Prelude.Texts.{Text}
use pinetime_dev_tools.Hardware.Adb.{splitlines}
use pinetime_dev_tools.Sim.Machine.{Machine, Simulator}
use pinetime_dev_tools.Sim.Input.{is_sleep, is_wakeup, off_next, off_after, screen_is_off}

-- A line that does not switch the screen on; one that tells of both switches it off.
abbrev Quiet : Text → Type 0
Quiet line = is_wakeup line ≡ true → is_sleep line ≡ true

-- Some line tells that the screen went to sleep, and none behind it that it woke up.
pub record SleepsLast (lines : List Text) : Type 0 where
  pub before : List Text
  pub line : Text
  pub after : List Text
  pub split : lines ≡ before ++ line ∷ after
  pub slept : is_sleep line ≡ true
  pub quiet : All Quiet after

off_after-append :
    (xs ys : List Text) (off : Bool) → off_after off (xs ++ ys) ≡ off_after (off_after off xs) ys
unfolding off_after
off_after-append [] ys off = refl
off_after-append (x ∷ xs) ys off = off_after-append xs ys (off_next x off)

off_after-Quiet : (lines : List Text) → All Quiet lines → off_after true lines ≡ true
unfolding off_after
off_after-Quiet [] h = refl
off_after-Quiet (x ∷ xs) (h, hs) = elim (Bool-cases (is_sleep x)) [
  | inl slept ↦ rw slept (off_after-Quiet xs hs)
  | inr awake ↦ elim (Bool-cases (is_wakeup x)) [
    | inl woke ↦ let slept = h woke in cc
    | inr quiet ↦ rw (awake, quiet) (off_after-Quiet xs hs)
  ]
]

off_after-cases :
    (lines : List Text) (off : Bool)
    → off_after off lines ≡ true
    → SleepsLast lines ⊎ ((off ≡ true) × All Quiet lines)
unfolding off_after
off_after-cases [] off h = inr (h, tt)
off_after-cases (x ∷ xs) off h = go (off_after-cases xs (off_next x off) h)
  where
    further : SleepsLast xs → SleepsLast (x ∷ xs)
    further k = record {
      before = x ∷ k.before;
      line = k.line;
      after = k.after;
      split = ap (◌∷◌ x) k.split;
      slept = k.slept;
      quiet = k.quiet;
    }

    go :
        SleepsLast xs ⊎ ((off_next x off ≡ true) × All Quiet xs)
        → SleepsLast (x ∷ xs) ⊎ ((off ≡ true) × All Quiet (x ∷ xs))
    go (inl k) = inl (further k)
    go (inr (e, quiet)) = elim (Bool-cases (is_sleep x)) [
      | inl slept ↦
          inl (record {
            before = [];
            line = x;
            after = xs;
            split = refl;
            slept = slept;
            quiet = quiet;
          })
      | inr awake ↦ elim (Bool-cases (is_wakeup x)) [
        | inl woke ↦ let never : false ≡ true = sym (rw (awake, woke) refl) ∙ e in cc
        | inr still ↦
            let kept : off ≡ true = sym (rw (awake, still) refl) ∙ e in
            inr (kept, ((λ woke. cc), quiet))
      ]
    ]

-- The screen is taken to be off exactly if there is a log and some line of it tells that the screen
-- went to sleep, with no line behind it that tells only that it woke up.
pub screen_is_off-SleepsLast :
    {W : Type 0} (m : Machine W) (sim : Simulator) (w : W)
    → (screen_is_off m sim w ≡ true) ↔ (
        (m.exists sim.layout.stdout w ≡ true)
        × SleepsLast (splitlines (m.read_text sim.layout.stdout w)))
unfolding screen_is_off off_after
screen_is_off-SleepsLast m sim w = (found, back)
  where
    lines : List Text
    lines = splitlines (m.read_text sim.layout.stdout w)

    told : SleepsLast lines ⊎ ((false ≡ true) × All Quiet lines) → SleepsLast lines
    told (inl k) = k
    told (inr (e, quiet)) = cc

    found :
        (m.exists sim.layout.stdout w && off_after false lines) ≡ true
        → (m.exists sim.layout.stdout w ≡ true) × SleepsLast lines
    found h =
        let (e, k) = &&_elim (m.exists sim.layout.stdout w) (off_after false lines) h in
        (e, told (off_after-cases lines false k))

    back :
        (m.exists sim.layout.stdout w ≡ true) × SleepsLast lines
        → (m.exists sim.layout.stdout w && off_after false lines) ≡ true
    back (e, k) = rw e (
        ap (off_after false) k.split
        ∙ off_after-append k.before (k.line ∷ k.after) false
        ∙ switched (off_after false k.before) k.line k.after k.slept k.quiet)
      where
        switched :
            (off : Bool) (line : Text) (after : List Text)
            → is_sleep line ≡ true
            → All Quiet after
            → off_after off (line ∷ after) ≡ true
        switched off line after slept quiet = rw slept (off_after-Quiet after quiet)
