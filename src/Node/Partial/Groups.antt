-- ===== src/Node/Partial/Groups.antt =====
-- node/partial.go: the groups of a manager, sealed and pruned by key. A topic stands for what
-- `partialKindFor` reads in its name.
pub mod Floors
use eth_slot_sim.Base.{
  ℕ, Bool, true, false, not, ◌&&◌, ◌||◌, List, [], ◌∷◌, ◌++◌, Option, none, some, ltb, leb, ◌==◌,
  if◌then◌else◌, lookup, store, keep,
}
use eth_slot_sim.Node.Kinds.{Kind, attestation, finality_vote, kind_value, kind_eq}
use eth_slot_sim.Node.Partial.Buckets.{PartialBucket, new_partial_bucket}

pub data Topic : Type 0 where
  attestation_subnet : ℕ → Topic
  finality_subnet : ℕ → Topic
  other_topic : ℕ → Topic

abbrev pub topic_eq : Topic → Topic → Bool
topic_eq (attestation_subnet m) (attestation_subnet n) = m == n
topic_eq (finality_subnet m) (finality_subnet n) = m == n
topic_eq (other_topic m) (other_topic n) = m == n
topic_eq _ _ = false

abbrev pub partial_kind_for : Topic → Option (Kind × ℕ)
partial_kind_for (attestation_subnet s) = some (attestation, s)
partial_kind_for (finality_subnet s) = some (finality_vote, s)
partial_kind_for (other_topic n) = none

-- A group, with the topic and the key that it is stored under.
pub record PartialGroup : Type 0 where
  pub topic : Topic
  pub key : ℕ
  pub kind : Kind
  pub subnet : ℕ
  pub committee_size : ℕ
  pub buckets : List (ℕ × PartialBucket)
  pub sealed : Bool

-- `floor` by the value of a kind.
pub record PartialManager : Type 0 where
  pub max_peers : ℕ
  pub max_iwant : ℕ
  pub groups : List PartialGroup
  pub floor : List (ℕ × ℕ)

abbrev pub is_group : Topic → ℕ → PartialGroup → Bool
is_group topic key g = topic_eq g.topic topic && g.key == key

abbrev pub find_group : Topic → ℕ → List PartialGroup → Option PartialGroup
find_group topic key [] = none
find_group topic key (g ∷ gs) =
    let rest = find_group topic key gs in if is_group topic key g then some g else rest

-- The group is written back.
abbrev pub put_group : PartialGroup → List PartialGroup → List PartialGroup
put_group g' [] = []
put_group g' (g ∷ gs) =
    let rest = put_group g' gs in if is_group g'.topic g'.key g then g' ∷ gs else g ∷ rest

abbrev pub new_group : Topic → ℕ → Kind → ℕ → ℕ → PartialGroup
new_group topic key kind subnet size = record {
  topic = topic;
  key = key;
  kind = kind;
  subnet = subnet;
  committee_size = size;
  buckets = [];
  sealed = false;
}

-- A new group is stored, unless its committee is empty.
abbrev pub make_group :
    Bool → PartialGroup → PartialManager → Option (PartialManager × PartialGroup)
make_group true g m = none
make_group false g m = some (record m { groups = m.groups ++ g ∷ [] }, g)

-- `getOrCreateGroup`, given the group that is there and what the topic is.
abbrev pub found_or_made :
    (Kind → ℕ → ℕ → ℕ)
    → Topic
    → ℕ
    → PartialManager
    → Option PartialGroup
    → Option (Kind × ℕ)
    → Option (PartialManager × PartialGroup)
found_or_made size_of topic key m (some g) _ = some (m, g)
found_or_made size_of topic key m none none = none
found_or_made size_of topic key m none (some (kind, subnet)) =
    let size = size_of kind subnet key in
    make_group (size == 0) (new_group topic key kind subnet size) m

-- With the resolver's committee size; `none` is an error.
unfoldable pub get_or_create_group :
    (Kind → ℕ → ℕ → ℕ) → Topic → ℕ → PartialManager → Option (PartialManager × PartialGroup)
get_or_create_group size_of topic key m =
    found_or_made size_of topic key m (find_group topic key m.groups) (partial_kind_for topic)

abbrev pub bucket : ℕ → PartialGroup → PartialBucket
bucket d g = elim (lookup d g.buckets) [ none ↦ new_partial_bucket d | some b ↦ b ]

abbrev pub with_bucket : ℕ → PartialBucket → PartialGroup → PartialGroup
with_bucket d b g = record g { buckets = store d b g.buckets }

-- Whether a kind's groups are pruned up to a key and beyond.
abbrev pub is_below_floor : List (ℕ × ℕ) → Kind → ℕ → Bool
is_below_floor floor kind key = elim (lookup (kind_value kind) floor) [
  | none ↦ false
  | some fl ↦ leb key fl
]

abbrev pub is_up_to : Kind → ℕ → PartialGroup → Bool
is_up_to kind key g = kind_eq g.kind kind && leb g.key key

abbrev pub seal_up_to : Kind → ℕ → List PartialGroup → List PartialGroup
seal_up_to kind key [] = []
seal_up_to kind key (g ∷ gs) =
    (if is_up_to kind key g then record g { sealed = true } else g) ∷ seal_up_to kind key gs

unfoldable pub seal : Kind → ℕ → PartialManager → PartialManager
seal kind key m = record m { groups = seal_up_to kind key m.groups }

unfoldable pub prune : Kind → ℕ → PartialManager → PartialManager
prune kind key m = record m {
  groups = keep (λ g. not (is_up_to kind key g)) m.groups;
  floor = elim (lookup (kind_value kind) m.floor) [
    | none ↦ store (kind_value kind) key m.floor
    | some fl ↦ if ltb fl key then store (kind_value kind) key m.floor else m.floor
  ];
}
