-- ===== src/Hardware/Plan/WellFormed.antt =====
-- What an acceptance plan that loads is.
use pinetime_dev_tools.Prelude.{
  suc, ◌≤◌, List, [], ◌∷◌, map, Option, none, some, Bool, true, false, ◌&&◌, ◌||◌, leb, leb→le,
  ◌==◌, ==_iff, &&_elim, String, str_eq, eq_iff, eq_refl, length, all, any, All, Bool-cases, inl,
  inr, ◌≡◌, ◌≢◌, ◌⊎◌, refl, subst, arith,
}
use pinetime_dev_tools.Prelude.Result.{
  Result, ok, err, require, map_err, ◌>>=◌, bind-eq-ok, require-eq-ok,
}
use pinetime_dev_tools.Hardware.{ValueError, is_given, BleEndpoint, make_endpoint, strip}
use pinetime_dev_tools.Hardware.Plan.{
  AcceptancePeer, CapacityCheck, AcceptancePlan, PlanError, RawPlan, is_in, count_distinct,
  Identity, android, linux, same_identity, identity, label_of, bad_endpoint, no_serial,
  unsupported_kind, capacity_unknown, capacity_too_few, capacity_not_distinct, bad_schema_version,
  no_watch_label, too_few_peers, shared_identity, short_sequence, unknown_step, is_one,
  list_or_empty, has_text, capacity_of, check_peer, check_peers, capacity_values, check_capacity,
  load_capacity, check_plan, load,
}

-- No two elements are equal.
abbrev pub Distinct {ℓ} : {A : Type ℓ} → List A → Type ℓ
Distinct [] = Unit
Distinct (x ∷ xs) = All (λ y. x ≢ y) xs × Distinct xs

||_false : (a b : Bool) → (a || b) ≡ false → (a ≡ false) × (b ≡ false)
||_false true b h = cc
||_false false b h = (refl, h)

both_absurd : (b : Bool) → b ≡ true → b ≡ false → ⊥
both_absurd b h k = cc

module _ {ℓ} {A : Type ℓ} (same : A → A → Bool) (reflexive : (x : A) → same x x ≡ true) where
  count-le : (xs : List A) → count_distinct same xs ≤ length xs
  unfolding count_distinct
  count-le [] = omega arith
  count-le (x ∷ xs) = grind (arith, count-le xs)

  not_in : (x : A) (xs : List A) → is_in same x xs ≡ false → All (λ y. x ≢ y) xs
  not_in x [] h = tt
  not_in x (y ∷ ys) h =
      let (here, later) = ||_false (same x y) (any (same x) ys) h in
      (
        (λ e. both_absurd (same x y) (subst (λ z. same x z ≡ true) e (reflexive x)) here),
        not_in x ys later,
      )

  count-Distinct : (xs : List A) → count_distinct same xs ≡ length xs → Distinct xs
  unfolding count_distinct
  count-Distinct [] h = tt
  count-Distinct (x ∷ xs) h = elim (Bool-cases (is_in same x xs)) [
    | inl found ↦ absurd (omega (arith, rw found at h, count-le xs))
    | inr new ↦
        let rest : suc (count_distinct same xs) ≡ suc (length xs) = rw new at h in
        (not_in x xs new, count-Distinct xs (omega arith))
  ]

-- A Linux peer is named by its address or by its name, an Android peer by its serial.
abbrev pub IsUsable : AcceptancePeer → Type 0
IsUsable peer =
    ((peer.kind ≡ "linux")
      × ((e : BleEndpoint) × (make_endpoint peer.address peer.name peer.adapter ≡ ok e)))
    ⊎ ((peer.kind ≡ "android") × (is_given peer.serial ≡ true))

-- A label that a peer has.
abbrev pub Named : List AcceptancePeer → String → Type 0
Named [] l = ⊥
Named (p ∷ ps) l = (l ≡ p.label) ⊎ Named ps l

abbrev CapacityFits : List AcceptancePeer → Option CapacityCheck → Type 0
CapacityFits peers none = Unit
CapacityFits peers (some c) =
    (6 ≤ length peers) × Distinct (capacity_values c) × All (Named peers) (capacity_values c)

-- A plan that can be run: at least two peers, whose labels and whose Android serials or BlueZ
-- adapters differ, each of them usable; at least three steps, all at known peers; and the three
-- peers of the capacity check, if there is one, are known and differ, among at least six.
pub record WellFormed (plan : AcceptancePlan) : Type 0 where
  pub two_peers : 2 ≤ length plan.peers
  pub labels_differ : Distinct (map label_of plan.peers)
  pub identities_differ : Distinct (map identity plan.peers)
  pub peers_usable : All IsUsable plan.peers
  pub three_steps : 3 ≤ length plan.sequence
  pub two_visited : 2 ≤ count_distinct str_eq plan.sequence
  pub steps_known : All (Named plan.peers) plan.sequence
  pub capacity_fits : CapacityFits plan.peers plan.capacity_check

str_refl : (s : String) → str_eq s s ≡ true
str_refl s = eq_refl s

in_Named :
    (l : String) (peers : List AcceptancePeer)
    → is_in str_eq l (map label_of peers) ≡ true
    → Named peers l
in_Named l [] h = cc
in_Named l (p ∷ ps) h = elim (Bool-cases (str_eq l p.label)) [
  | inl same ↦ inl ((eq_iff l p.label).0 same)
  | inr other ↦ inr (in_Named l ps (rw other at h))
]

all-Named :
    (peers : List AcceptancePeer) (ls : List String)
    → all (λ l. is_in str_eq l (map label_of peers)) ls ≡ true
    → All (Named peers) ls
all-Named peers [] h = tt
all-Named peers (l ∷ ls) h =
    let (x, y) =
      &&_elim (is_in str_eq l (map label_of peers))
        (all (λ k. is_in str_eq k (map label_of peers)) ls) h in
    (in_Named l peers x, all-Named peers ls y)

identity_refl : (i : Identity) → same_identity i i ≡ true
identity_refl (android none) = refl
identity_refl (android (some s)) = str_refl s
identity_refl (linux s) = str_refl s

endpoint_made :
    (r : Result ValueError BleEndpoint)
    → ◌≡◌ {A = Result PlanError (Unit {0})} (map_err bad_endpoint r >>= λ e. ok tt) (ok tt)
    → (e : BleEndpoint) × (r ≡ ok e)
endpoint_made (ok e) h = (e, refl)
endpoint_made (err x) h = cc

check-IsUsable : (peer : AcceptancePeer) → check_peer peer ≡ ok tt → IsUsable peer
check-IsUsable peer h = elim (Bool-cases (str_eq peer.kind "linux")) [
  | inl on_linux ↦
      let (e, made) =
        endpoint_made (make_endpoint peer.address peer.name peer.adapter) (simp on_linux at h) in
      inl ((eq_iff peer.kind "linux").0 on_linux, (e, made))
  | inr other ↦ elim (Bool-cases (str_eq peer.kind "android")) [
    | inl on_android ↦ inr (
      (eq_iff peer.kind "android").0 on_android,
      require-eq-ok (is_given peer.serial) no_serial (simp (other, on_android) at h),
    )
    | inr neither ↦ absurd (refused (simp (other, neither) at h))
  ]
]
  where
    refused : ◌≡◌ {A = Result PlanError (Unit {0})} (err unsupported_kind) (ok tt) → ⊥
    refused e = cc

peers-IsUsable : (peers : List AcceptancePeer) → check_peers peers ≡ ok tt → All IsUsable peers
unfolding check_peers
peers-IsUsable [] h = tt
peers-IsUsable (p ∷ ps) h =
    let (u, h₁, k₁) = bind-eq-ok (check_peer p) _ h in (check-IsUsable p h₁, peers-IsUsable ps k₁)

capacity_lem :
    (peers : List AcceptancePeer) (fields : Option (List (String × String)))
    (c : Option CapacityCheck)
    → load_capacity peers fields ≡ ok c
    → CapacityFits peers c
unfolding load_capacity check_capacity
capacity_lem peers none none h = tt
capacity_lem peers none (some c) h = cc
capacity_lem peers (some fields) c h =
    let (d, h₁, k₁) = bind-eq-ok (capacity_of fields) _ h in
    let (u, h₂, k₂) = bind-eq-ok (check_capacity peers d) _ k₁ in
    let (u, h₃, k₃) =
      bind-eq-ok
        (require (all (λ v. is_in str_eq v (map label_of peers)) (capacity_values d))
          capacity_unknown)
        _ h₂ in
    let (u, h₄, k₄) = bind-eq-ok (require (leb 6 (length peers)) capacity_too_few) _ k₃ in
    let known =
      require-eq-ok (all (λ v. is_in str_eq v (map label_of peers)) (capacity_values d))
        capacity_unknown h₃ in
    let many = require-eq-ok (leb 6 (length peers)) capacity_too_few h₄ in
    let three =
      require-eq-ok (count_distinct str_eq (capacity_values d) == 3) capacity_not_distinct k₄ in
    subst (CapacityFits peers) (ok_inj (some d) c k₂) (
      leb→le 6 (length peers) many,
      count-Distinct str_eq str_refl (capacity_values d) ((==_iff _ _).0 three),
      all-Named peers (capacity_values d) known,
    )
  where
    ok_inj :
        (a b : Option CapacityCheck)
        → ◌≡◌ {A = Result PlanError (Option CapacityCheck)} (ok a) (ok b)
        → a ≡ b
    ok_inj a b e = cc

-- The checks of the peers and of the sequence, each of which passed.
record Checked (peers : List AcceptancePeer) (sequence : List String) : Type 0 where
  two_peers : 2 ≤ length peers
  labels_differ : Distinct (map label_of peers)
  identities_differ : Distinct (map identity peers)
  peers_usable : All IsUsable peers
  three_steps : 3 ≤ length sequence
  two_visited : 2 ≤ count_distinct str_eq sequence
  steps_known : All (Named peers) sequence

check_plan-Checked :
    (peers : List AcceptancePeer) (sequence : List String)
    → check_plan peers sequence ≡ ok tt
    → Checked peers sequence
unfolding check_plan
check_plan-Checked peers sequence h =
    let labels = map label_of peers in
    let ids = map identity peers in
    let enough = leb 2 (length peers) in
    let unique = count_distinct str_eq labels == length labels in
    let apart = count_distinct same_identity ids == length ids in
    let long = leb 3 (length sequence) in
    let varied = leb 2 (count_distinct str_eq sequence) in
    let known = all (λ step. is_in str_eq step labels) sequence in
    let (u, h₁, k₁) = bind-eq-ok (require (enough && unique) too_few_peers) _ h in
    let (u, h₂, k₂) = bind-eq-ok (check_peers peers) _ k₁ in
    let (u, h₃, k₃) = bind-eq-ok (require apart shared_identity) _ k₂ in
    let (u, h₄, k₄) = bind-eq-ok (require (long && varied) short_sequence) _ k₃ in
    let (two, differ) = &&_elim enough unique (require-eq-ok (enough && unique) too_few_peers h₁) in
    let (three, visited) = &&_elim long varied (require-eq-ok (long && varied) short_sequence h₄) in
    record {
      two_peers = leb→le 2 (length peers) two;
      labels_differ = count-Distinct str_eq str_refl labels ((==_iff _ _).0 differ);
      identities_differ =
          count-Distinct same_identity identity_refl ids
            ((==_iff _ _).0 (require-eq-ok apart shared_identity h₃));
      peers_usable = peers-IsUsable peers h₂;
      three_steps = leb→le 3 (length sequence) three;
      two_visited = leb→le 2 (count_distinct str_eq sequence) visited;
      steps_known = all-Named peers sequence (require-eq-ok known unknown_step k₄);
    }

-- A plan that `load` accepts is well-formed.
pub load-WellFormed : (raw : RawPlan) (plan : AcceptancePlan) → load raw ≡ ok plan → WellFormed plan
unfolding load
load-WellFormed raw plan h =
    let peers = list_or_empty raw.peers in
    let sequence = list_or_empty raw.sequence in
    let (u, h₁, k₁) = bind-eq-ok (require (is_one raw.schema_version) bad_schema_version) _ h in
    let (u, h₂, k₂) =
      bind-eq-ok (require (has_text (strip (list_or_empty raw.watch_label))) no_watch_label) _ k₁ in
    let (u, h₃, k₃) = bind-eq-ok (check_plan peers sequence) _ k₂ in
    let (capacity, h₄, k₄) = bind-eq-ok (load_capacity peers raw.capacity_check) _ k₃ in
    let c = check_plan-Checked peers sequence h₃ in
    subst WellFormed (ok_inj _ plan k₄) (record {
      two_peers = c.two_peers;
      labels_differ = c.labels_differ;
      identities_differ = c.identities_differ;
      peers_usable = c.peers_usable;
      three_steps = c.three_steps;
      two_visited = c.two_visited;
      steps_known = c.steps_known;
      capacity_fits = capacity_lem peers raw.capacity_check capacity h₄;
    })
  where
    ok_inj :
        (a b : AcceptancePlan) → ◌≡◌ {A = Result PlanError AcceptancePlan} (ok a) (ok b) → a ≡ b
    ok_inj a b e = cc
