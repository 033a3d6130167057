-- ===== src/Hardware/Acceptance/Lookup.antt =====
-- The peers that the steps of a plan name.
use pinetime_dev_tools.Prelude.{
  List, [], ◌∷◌, Option, none, some, true, if◌then◌else◌, String, str_eq, eq_iff, eq_refl, All, ◌≡◌,
  ◌≢◌, ◌⊎◌, refl, sym, ap, ◌∙◌, Bool-cases, inl, inr,
}
use pinetime_dev_tools.Prelude.Result.{ok}
use pinetime_dev_tools.Hardware.Plan.{AcceptancePeer, AcceptancePlan, RawPlan, load}
use pinetime_dev_tools.Hardware.Plan.WellFormed.{Named, load-WellFormed}
use pinetime_dev_tools.Hardware.Acceptance.{peer_of}

-- A peer with the label is found under it.
abbrev pub Found : List AcceptancePeer → String → Type 0
Found peers l = (p : AcceptancePeer) × (peer_of l peers ≡ some p) × (p.label ≡ l)

-- The rest of the list is looked at first.
abbrev behind : String → AcceptancePeer → Option AcceptancePeer → Option AcceptancePeer
behind l p o = elim o [ some q ↦ some q | none ↦ if str_eq p.label l then some p else none ]

peer_of-cons :
    (l : String) (p : AcceptancePeer) (ps : List AcceptancePeer)
    → peer_of l (p ∷ ps) ≡ behind l p (peer_of l ps)
unfolding peer_of
peer_of-cons l p ps = refl

-- What is found has the label.
found_or_none : (l : String) (ps : List AcceptancePeer) → (peer_of l ps ≡ none) ⊎ Found ps l
found_or_none l [] = inl (unfold peer_of in refl)
found_or_none l (p ∷ ps) = elim (found_or_none l ps) [
  | inr (q, e, same) ↦ inr (q, peer_of-cons l p ps ∙ ap (behind l p) e, same)
  | inl absent ↦ elim (Bool-cases (str_eq p.label l)) [
    | inl here ↦ inr (
      p,
      peer_of-cons l p ps ∙ ap (behind l p) absent ∙ ap (λ b. if b then some p else none) here,
      (eq_iff p.label l).0 here,
    )
    | inr other ↦
        inl (
          peer_of-cons l p ps ∙ ap (behind l p) absent ∙ ap (λ b. if b then some p else none) other)
  ]
]

kept :
    (l : String) (p : AcceptancePeer) (ps : List AcceptancePeer)
    → Found ps l
    → peer_of l (p ∷ ps) ≢ none
kept l p ps (q, found, same) h = apart (sym (peer_of-cons l p ps ∙ ap (behind l p) found) ∙ h)
  where
    apart : ◌≡◌ {A = Option AcceptancePeer} (some q) none → ⊥
    apart x = cc

missing :
    (l : String) (p : AcceptancePeer) (ps : List AcceptancePeer)
    → l ≡ p.label
    → peer_of l (p ∷ ps) ≢ none
missing l p ps e h = elim (found_or_none l ps) [
  | inr found ↦ kept l p ps found h
  | inl absent ↦ apart (
      sym (
        peer_of-cons l p ps
        ∙ ap (behind l p) absent
        ∙ ap (λ b. if b then some p else none) same_label)
      ∙ h)
]
  where
    apart : ◌≡◌ {A = Option AcceptancePeer} (some p) none → ⊥
    apart x = cc

    same_label : str_eq p.label l ≡ true
    same_label = ap (λ t. str_eq p.label t) e ∙ eq_refl p.label

peer_of-Named : (l : String) (ps : List AcceptancePeer) → Named ps l → Found ps l
peer_of-Named l [] h = absurd h
peer_of-Named l (p ∷ ps) h = elim (found_or_none l (p ∷ ps)) [
  | inr found ↦ found
  | inl absent ↦ elim h [
    | inl here ↦ absurd (missing l p ps here absent)
    | inr later ↦ absurd (kept l p ps (peer_of-Named l ps later) absent)
  ]
]

Named-Found : (ps : List AcceptancePeer) (ls : List String) → All (Named ps) ls → All (Found ps) ls
Named-Found ps [] h = tt
Named-Found ps (l ∷ ls) (h, hs) = (peer_of-Named l ps h, Named-Found ps ls hs)

-- Each step of a plan that loads finds a peer under its label.
pub load-Found :
    (raw : RawPlan) (plan : AcceptancePlan)
    → load raw ≡ ok plan
    → All (Found plan.peers) plan.sequence
load-Found raw plan h =
    Named-Found plan.peers plan.sequence (load-WellFormed raw plan h).steps_known
