-- ===== src/Node/Registry/Table.antt =====
-- node/registry.go: the table of the twelve kinds, with the topics of validator/.
use Prim.Native.String.{String}
use eth_slot_sim.Base.{◌≡◌, refl, Bool, true, false, List, [], ◌∷◌}
use eth_slot_sim.Node.Kinds.{
  Kind, block, attestation, aggregate, column, sync_message, sync_contribution, ac_vote,
  finality_vote, finality_aggregate, consensus_block, execution_payload, ptc_vote,
}
use eth_slot_sim.Node.Registry.{
  codes, Lookups, accepted, text_eq, has_prefix, add_exact, add_prefix, add_entry, after_entry,
  build_from, build_lookups, VerifyClass, fixed, column_class, consensus, ac, fcvote, fcagg, ptc,
  Descriptor,
}

abbrev pub exact_entry : Kind → String → VerifyClass → Descriptor
exact_entry kind topic class = record {
  kind = kind;
  topic = codes topic;
  prefix = [];
  class = class;
  partial = false;
}

abbrev pub prefix_entry : Kind → String → VerifyClass → Bool → Descriptor
prefix_entry kind prefix class partial = record {
  kind = kind;
  topic = [];
  prefix = codes prefix;
  class = class;
  partial = partial;
}

abbrev pub registry : List Descriptor
registry =
    exact_entry block "/eth2/00000000/beacon_block/ssz_snappy" fixed
    ∷ prefix_entry attestation "/eth2/00000000/beacon_attestation_" consensus true
    ∷ exact_entry aggregate "/eth2/00000000/beacon_aggregate_and_proof/ssz_snappy" consensus
    ∷ prefix_entry column "/eth2/00000000/data_column_sidecar_" column_class false
    ∷ prefix_entry sync_message "/eth2/00000000/sync_committee_" consensus false
    ∷ exact_entry sync_contribution
        "/eth2/00000000/sync_committee_contribution_and_proof/ssz_snappy" consensus
    ∷ exact_entry ac_vote "/eth2/00000000/availability_vote/ssz_snappy" ac
    ∷ prefix_entry finality_vote "/eth2/00000000/finality_vote_" fcvote true
    ∷ exact_entry finality_aggregate "/eth2/00000000/finality_aggregate_and_proof/ssz_snappy" fcagg
    ∷ exact_entry consensus_block "/eth2/00000000/consensus_block/ssz_snappy" fixed
    ∷ exact_entry execution_payload "/eth2/00000000/execution_payload/ssz_snappy" fixed
    ∷ exact_entry ptc_vote "/eth2/00000000/payload_attestation_message/ssz_snappy" ptc
    ∷ []

-- `exactTopics` and `prefixTopics`.
abbrev pub exacts : List Descriptor
exacts =
    exact_entry block "/eth2/00000000/beacon_block/ssz_snappy" fixed
    ∷ exact_entry aggregate "/eth2/00000000/beacon_aggregate_and_proof/ssz_snappy" consensus
    ∷ exact_entry sync_contribution
        "/eth2/00000000/sync_committee_contribution_and_proof/ssz_snappy" consensus
    ∷ exact_entry ac_vote "/eth2/00000000/availability_vote/ssz_snappy" ac
    ∷ exact_entry finality_aggregate "/eth2/00000000/finality_aggregate_and_proof/ssz_snappy" fcagg
    ∷ exact_entry consensus_block "/eth2/00000000/consensus_block/ssz_snappy" fixed
    ∷ exact_entry execution_payload "/eth2/00000000/execution_payload/ssz_snappy" fixed
    ∷ exact_entry ptc_vote "/eth2/00000000/payload_attestation_message/ssz_snappy" ptc
    ∷ []

abbrev pub families : List Descriptor
families =
    prefix_entry attestation "/eth2/00000000/beacon_attestation_" consensus true
    ∷ prefix_entry column "/eth2/00000000/data_column_sidecar_" column_class false
    ∷ prefix_entry sync_message "/eth2/00000000/sync_committee_" consensus false
    ∷ prefix_entry finality_vote "/eth2/00000000/finality_vote_" fcvote true
    ∷ []

abbrev pub registry_lookups : Lookups
registry_lookups = record {
  exact = exacts;
  prefixes = families;
  kinds = 12 ∷ 11 ∷ 10 ∷ 9 ∷ 8 ∷ 7 ∷ 6 ∷ 5 ∷ 4 ∷ 3 ∷ 2 ∷ 1 ∷ [];
}

-- The table is accepted.
pub registry_accepted : build_lookups registry ≡ accepted registry_lookups
unfolding build_lookups build_from after_entry add_entry add_exact add_prefix text_eq has_prefix
registry_accepted = refl
