-- ===== src/Hardware/Plan.antt =====
-- `AcceptancePlan.load` of src/ptlab/hardware.py. The document has been read by orjson, and its
-- values have the types of the fields below; the TypeErrors of other documents are not modelled.
pub mod WellFormed
use pinetime_dev_tools.Prelude.{
  ℕ, zero, suc, ◌+◌, List, [], ◌∷◌, ◌++◌, map, Option, none, some, Bool, true, false, not, ◌&&◌,
  ◌||◌, ltb, leb, ◌==◌, if◌then◌else◌, String, str_eq, length, all, any,
}
use pinetime_dev_tools.Prelude.Int.{ℤ, pos, negsuc}
use pinetime_dev_tools.Prelude.Result.{Result, ok, err, require, map_err, ◌>>=◌, ◌>>◌}
use pinetime_dev_tools.Prelude.Texts.{Text}
use pinetime_dev_tools.Hardware.{ValueError, is_given, BleEndpoint, make_endpoint, strip}

pub record AcceptancePeer : Type 0 where
  pub label : String
  pub kind : String
  pub address : Option String
  pub name : Option String
  pub adapter : Option String
  pub serial : Option String
  pub allow_eviction : Bool

pub record CapacityCheck : Type 0 where
  pub survivor : String
  pub evicted : String
  pub new_peer : String

pub record AcceptancePlan : Type 0 where
  pub watch_label : Text
  pub peers : List AcceptancePeer
  pub sequence : List String
  pub capacity_check : Option CapacityCheck

-- The ValueErrors of `load`.
pub data PlanError : Type 0 where
  bad_schema_version no_watch_label too_few_peers no_serial unsupported_kind : PlanError
  bad_endpoint : ValueError → PlanError
  shared_identity short_sequence unknown_step : PlanError
  capacity_fields capacity_unknown capacity_too_few capacity_not_distinct : PlanError

-- The JSON object; `none` is a key that is missing. The keys of `capacity_check` are different.
pub record RawPlan : Type 0 where
  pub schema_version : Option ℤ
  pub watch_label : Option Text
  pub peers : Option (List AcceptancePeer)
  pub sequence : Option (List String)
  pub capacity_check : Option (List (String × String))

module _ {ℓ} {A : Type ℓ} (same : A → A → Bool) where
  abbrev pub is_in : A → List A → Bool
  is_in x xs = any (same x) xs

  -- len(set(xs))
  unfoldable pub count_distinct : List A → ℕ
  count_distinct [] = 0
  count_distinct (x ∷ xs) = let n = count_distinct xs in if is_in x xs then n else suc n

pub data Identity : Type 0 where
  android : Option String → Identity
  linux : String → Identity

abbrev same_option : Option String → Option String → Bool
same_option none none = true
same_option none (some t) = false
same_option (some s) none = false
same_option (some s) (some t) = str_eq s t

abbrev pub same_identity : Identity → Identity → Bool
same_identity (android s) (android t) = same_option s t
same_identity (android s) (linux t) = false
same_identity (linux s) (android t) = false
same_identity (linux s) (linux t) = str_eq s t

abbrev default_adapter : Option String → String
default_adapter none = "default"
default_adapter (some s) = if str_eq s "" then "default" else s

abbrev pub identity : AcceptancePeer → Identity
identity peer =
    if str_eq peer.kind "android" then android peer.serial else linux (default_adapter peer.adapter)

abbrev pub label_of : AcceptancePeer → String
label_of peer = peer.label

-- The body of the loop over the peers.
abbrev pub check_peer : AcceptancePeer → Result PlanError (Unit {0})
check_peer peer =
    if str_eq peer.kind "linux"
    then (map_err bad_endpoint (make_endpoint peer.address peer.name peer.adapter) >>= λ e. ok tt)
    else if str_eq peer.kind "android"
    then require (is_given peer.serial) no_serial
    else err unsupported_kind

unfoldable pub check_peers : List AcceptancePeer → Result PlanError (Unit {0})
check_peers [] = ok tt
check_peers (peer ∷ peers) = do check_peer peer; check_peers peers

-- capacity[key]
abbrev pub get_key : String → List (String × String) → Option String
get_key key [] = none
get_key key ((k, v) ∷ fields) = if str_eq k key then some v else get_key key fields

abbrev capacity_keys : List String
capacity_keys = "survivor" ∷ "evicted" ∷ "new_peer" ∷ []

abbrev values_of : List (String × String) → List String
values_of fields = map (λ (k, v). v) fields

abbrev all_three : Option String → Option String → Option String → Result PlanError CapacityCheck
all_three (some s) (some e) (some n) = ok (record { survivor = s; evicted = e; new_peer = n })
all_three none e n = err capacity_fields
all_three (some s) none n = err capacity_fields
all_three (some s) (some e) none = err capacity_fields

-- The keys are just the three that are required.
abbrev pub capacity_of : List (String × String) → Result PlanError CapacityCheck
capacity_of fields =
    if all (λ (k, v). is_in str_eq k capacity_keys) fields
    then all_three (get_key "survivor" fields) (get_key "evicted" fields)
        (get_key "new_peer" fields)
    else err capacity_fields

abbrev pub capacity_values : CapacityCheck → List String
capacity_values c = c.survivor ∷ c.evicted ∷ c.new_peer ∷ []

-- The checks of `capacity_check` behind its keys.
unfoldable pub check_capacity : List AcceptancePeer → CapacityCheck → Result PlanError (Unit {0})
unfolding count_distinct
check_capacity peers c = do
  require (all (λ v. is_in str_eq v (map label_of peers)) (capacity_values c)) capacity_unknown
  require (leb 6 (length peers)) capacity_too_few
  require (count_distinct str_eq (capacity_values c) == 3) capacity_not_distinct

unfoldable pub load_capacity :
    List AcceptancePeer → Option (List (String × String)) → Result PlanError (Option CapacityCheck)
unfolding check_capacity
load_capacity peers none = ok none
load_capacity peers (some fields) = do c ← capacity_of fields; check_capacity peers c; ok (some c)

abbrev pub is_one : Option ℤ → Bool
is_one (some (pos n)) = n == 1
is_one (some (negsuc n)) = false
is_one none = false

abbrev pub list_or_empty : {A : Type 0} → Option (List A) → List A
list_or_empty none = []
list_or_empty (some l) = l

abbrev pub has_text : Text → Bool
has_text [] = false
has_text (c ∷ cs) = true

-- The checks of the peers and of the sequence.
unfoldable pub check_plan : List AcceptancePeer → List String → Result PlanError (Unit {0})
unfolding count_distinct check_peers
check_plan peers sequence = do
  require
      (leb 2 (length peers)
        && count_distinct str_eq (map label_of peers) == length (map label_of peers))
      too_few_peers
  check_peers peers
  require (count_distinct same_identity (map identity peers) == length (map identity peers))
      shared_identity
  require (leb 3 (length sequence) && leb 2 (count_distinct str_eq sequence)) short_sequence
  require (all (λ step. is_in str_eq step (map label_of peers)) sequence) unknown_step

unfoldable pub load : RawPlan → Result PlanError AcceptancePlan
unfolding check_plan load_capacity
load raw = do
  require (is_one raw.schema_version) bad_schema_version
  let watch_label = strip (list_or_empty raw.watch_label)
  require (has_text watch_label) no_watch_label
  let peers = list_or_empty raw.peers
  let sequence = list_or_empty raw.sequence
  check_plan peers sequence
  capacity ← load_capacity peers raw.capacity_check
  ok (record {
    watch_label = watch_label;
    peers = peers;
    sequence = sequence;
    capacity_check = capacity;
  })
