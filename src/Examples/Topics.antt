-- ===== src/Examples/Topics.antt =====
-- The table of the twelve kinds, and a contribution topic that a prefix starts as well.
use eth_slot_sim.Base.{ℕ, ◌<◌, ◌^◌, arith, ◌≡◌, refl, true, false, List, none, some}
use eth_slot_sim.Node.Kinds.{sync_message, finality_vote}
use eth_slot_sim.Node.Registry.{
  consensus, fcvote, text_eq, has_prefix, is_empty, find_topic, descriptor_for,
}
use eth_slot_sim.Node.Registry.Numbers.{
  digits, decimal, subnet_topic, finality_vote_topic, partial_kind_for,
}
use eth_slot_sim.Node.Registry.Families.{partial_kind_for-subnet_topic}
use eth_slot_sim.Node.Registry.Table.{
  prefix_entry, registry, exacts, registry_lookups, registry_accepted,
}
use eth_slot_sim.Node.Registry.Resolution.{build_lookups-descriptor_for}

build_lookups-descriptor_for_example :
    let d = prefix_entry sync_message "/eth2/00000000/sync_committee_" consensus false in
    (is_empty d.topic ≡ false → descriptor_for registry_lookups d.topic ≡ some d)
    × ((t : List ℕ)
        → is_empty d.prefix ≡ false
        → has_prefix t d.prefix ≡ true
        → find_topic t registry_lookups.exact ≡ none
        → descriptor_for registry_lookups t ≡ some d)
build_lookups-descriptor_for_example =
    build_lookups-descriptor_for registry registry_lookups registry_accepted 4
      (prefix_entry sync_message "/eth2/00000000/sync_committee_" consensus false) refl

no_exact : find_topic (finality_vote_topic 105) exacts ≡ none
unfolding find_topic subnet_topic decimal digits text_eq
no_exact = refl

subnet_105_small : 105 < 2 ^ 63
subnet_105_small = omega arith

partial_kind_for-subnet_topic_example :
    partial_kind_for registry_lookups (finality_vote_topic 105) ≡ some (finality_vote, 105)
partial_kind_for-subnet_topic_example =
    partial_kind_for-subnet_topic registry registry_lookups registry_accepted 7
      (prefix_entry finality_vote "/eth2/00000000/finality_vote_" fcvote true) refl refl 105
      subnet_105_small no_exact
