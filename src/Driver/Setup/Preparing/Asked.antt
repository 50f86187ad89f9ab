-- ===== src/Driver/Setup/Preparing/Asked.antt =====
-- driver/runner.go: a topic that `Prepare` subscribes is one that is asked for.
use eth_slot_sim.Base.{
  ℕ, ◌≡◌, ◌<◌, refl, subst, inl, inr, true, List, [], ◌∷◌, ◌++◌, map, ltb, contains, arith,
}
use eth_slot_sim.Node.Registry.{codes}
use eth_slot_sim.Node.Registry.Numbers.{attestation_topic}
use eth_slot_sim.Validator.{column_topic}
use eth_slot_sim.Node.Topics.{has_text}
use eth_slot_sim.Node.Topics.Lifetime.{global_topics}
use eth_slot_sim.Driver.Setup.{Runner, is_on}
use eth_slot_sim.Driver.Setup.Preparing.{int_topic, when_topics, own_topics}
use eth_slot_sim.Driver.Setup.Preparing.Listed.{in_either, in_when, in_cons, in_one, in_map}

-- A topic whose mesh the node is to be in: the block family always, and what its phases and its part
-- in the plan ask for.
pub data IsWanted (r : Runner) (u : List ℕ) : Type 0 where
  block : u ≡ codes "/eth2/00000000/beacon_block/ssz_snappy" → IsWanted r u
  consensus_block : u ≡ codes "/eth2/00000000/consensus_block/ssz_snappy" → IsWanted r u
  execution_payload : u ≡ codes "/eth2/00000000/execution_payload/ssz_snappy" → IsWanted r u
  aggregates :
      r.phases.attest ≡ true
      → r.chain.view.has_aggregators ≡ true
      → u ≡ codes "/eth2/00000000/beacon_aggregate_and_proof/ssz_snappy"
      → IsWanted r u
  attestations :
      (s : ℕ)
      → r.phases.attest ≡ true
      → contains r.chain.view.subscribed_subnets s ≡ true
      → u ≡ attestation_topic s
      → IsWanted r u
  columns :
      (c : ℕ)
      → 0 < r.chain.view.num_columns
      → contains r.chain.view.custody_columns c ≡ true
      → u ≡ column_topic c
      → IsWanted r u
  contributions :
      r.phases.sync ≡ true
      → u ≡ codes "/eth2/00000000/sync_committee_contribution_and_proof/ssz_snappy"
      → IsWanted r u
  sync_messages :
      r.phases.sync ≡ true
      → r.chain.view.sync_member ≡ true
      → u ≡ int_topic (codes "/eth2/00000000/sync_committee_") r.chain.view.sync_subnet
      → IsWanted r u
  ptc_votes :
      is_on r.phases.epbs ≡ true
      → u ≡ codes "/eth2/00000000/payload_attestation_message/ssz_snappy"
      → IsWanted r u
  ac_votes :
      r.phases.decoupled ≡ true
      → u ≡ codes "/eth2/00000000/availability_vote/ssz_snappy"
      → IsWanted r u
  finality_aggregates :
      r.phases.decoupled ≡ true
      → u ≡ codes "/eth2/00000000/finality_aggregate_and_proof/ssz_snappy"
      → IsWanted r u
  finality_votes :
      r.phases.decoupled ≡ true
      → r.chain.view.finality_member ≡ true
      → u ≡ int_topic (codes "/eth2/00000000/finality_vote_") r.chain.view.finality_subnet
      → IsWanted r u

-- The topics of a member of the sync committee, and of a finality subnet.
abbrev pub sync_subnets : Runner → List (List ℕ)
sync_subnets r =
    when_topics r.chain.view.sync_member
      (int_topic (codes "/eth2/00000000/sync_committee_") r.chain.view.sync_subnet ∷ [])

abbrev pub finality_subnets : Runner → List (List ℕ)
finality_subnets r =
    when_topics r.chain.view.finality_member
      (int_topic (codes "/eth2/00000000/finality_vote_") r.chain.view.finality_subnet ∷ [])

abbrev pub aggregate_topics : Runner → List (List ℕ)
aggregate_topics r =
    when_topics r.chain.view.has_aggregators
      (codes "/eth2/00000000/beacon_aggregate_and_proof/ssz_snappy" ∷ [])

-- The topics of each phase.
abbrev pub attest_topics : Runner → List (List ℕ)
attest_topics r = aggregate_topics r ++ map attestation_topic r.chain.view.subscribed_subnets

abbrev pub column_topics : Runner → List (List ℕ)
column_topics r =
    when_topics (ltb 0 r.chain.view.num_columns) (map column_topic r.chain.view.custody_columns)

abbrev pub sync_topics : Runner → List (List ℕ)
sync_topics r =
    codes "/eth2/00000000/sync_committee_contribution_and_proof/ssz_snappy" ∷ sync_subnets r

abbrev pub ptc_topics : Runner → List (List ℕ)
ptc_topics r =
    when_topics (is_on r.phases.epbs)
      (codes "/eth2/00000000/payload_attestation_message/ssz_snappy" ∷ [])

abbrev pub decoupled_topics : Runner → List (List ℕ)
decoupled_topics r =
    codes "/eth2/00000000/availability_vote/ssz_snappy"
    ∷ codes "/eth2/00000000/finality_aggregate_and_proof/ssz_snappy"
    ∷ finality_subnets r

pub own_topics-parts :
    (r : Runner)
    → own_topics r
      ≡ when_topics r.phases.attest (attest_topics r)
        ++ (column_topics r
            ++ (when_topics r.phases.sync (sync_topics r)
                ++ (ptc_topics r ++ when_topics r.phases.decoupled (decoupled_topics r))))
unfolding own_topics
own_topics-parts r = refl

pub global_topics-IsWanted :
    (r : Runner) (u : List ℕ) → has_text u global_topics ≡ true → IsWanted r u
global_topics-IsWanted r u h =
    elim (in_cons u (codes "/eth2/00000000/beacon_block/ssz_snappy")
      (codes "/eth2/00000000/consensus_block/ssz_snappy"
        ∷ codes "/eth2/00000000/execution_payload/ssz_snappy"
        ∷ [])
      h) [
        | inl e ↦ block e
        | inr h ↦
            elim (in_cons u (codes "/eth2/00000000/consensus_block/ssz_snappy")
              (codes "/eth2/00000000/execution_payload/ssz_snappy" ∷ []) h) [
                | inl e ↦ consensus_block e
                | inr h ↦
                    execution_payload
                      (in_one u (codes "/eth2/00000000/execution_payload/ssz_snappy") h)
              ]
      ]

attest_topics-IsWanted :
    (r : Runner) (u : List ℕ)
    → r.phases.attest ≡ true
    → has_text u (attest_topics r) ≡ true
    → IsWanted r u
attest_topics-IsWanted r u on h =
    let subnets = r.chain.view.subscribed_subnets in
    elim (in_either u (aggregate_topics r) (map attestation_topic subnets) h) [
      | inl first ↦
          let (aggs, f) =
            in_when u r.chain.view.has_aggregators
              (codes "/eth2/00000000/beacon_aggregate_and_proof/ssz_snappy" ∷ []) first in
          aggregates on aggs
            (in_one u (codes "/eth2/00000000/beacon_aggregate_and_proof/ssz_snappy") f)
      | inr last ↦ let (s, m, e) = in_map attestation_topic u subnets last in attestations s on m e
    ]

sync_topics-IsWanted :
    (r : Runner) (u : List ℕ)
    → r.phases.sync ≡ true
    → has_text u (sync_topics r) ≡ true
    → IsWanted r u
sync_topics-IsWanted r u on h =
    elim (in_cons u (codes "/eth2/00000000/sync_committee_contribution_and_proof/ssz_snappy")
      (sync_subnets r) h) [
        | inl e ↦ contributions on e
        | inr h ↦
            let subnet =
              int_topic (codes "/eth2/00000000/sync_committee_") r.chain.view.sync_subnet in
            let (member, f) = in_when u r.chain.view.sync_member (subnet ∷ []) h in
            sync_messages on member (in_one u subnet f)
      ]

decoupled_topics-IsWanted :
    (r : Runner) (u : List ℕ)
    → r.phases.decoupled ≡ true
    → has_text u (decoupled_topics r) ≡ true
    → IsWanted r u
decoupled_topics-IsWanted r u on h =
    elim (in_cons u (codes "/eth2/00000000/availability_vote/ssz_snappy")
      (codes "/eth2/00000000/finality_aggregate_and_proof/ssz_snappy" ∷ finality_subnets r) h) [
        | inl e ↦ ac_votes on e
        | inr h ↦
            elim (in_cons u (codes "/eth2/00000000/finality_aggregate_and_proof/ssz_snappy")
              (finality_subnets r) h) [
                | inl e ↦ finality_aggregates on e
                | inr h ↦
                    let subnet =
                      int_topic (codes "/eth2/00000000/finality_vote_")
                        r.chain.view.finality_subnet in
                    let (member, f) = in_when u r.chain.view.finality_member (subnet ∷ []) h in
                    finality_votes on member (in_one u subnet f)
              ]
      ]

pub own_topics-IsWanted :
    (r : Runner) (u : List ℕ) → has_text u (own_topics r) ≡ true → IsWanted r u
own_topics-IsWanted r u h =
    let on_decoupled = when_topics r.phases.decoupled (decoupled_topics r) in
    let after_sync = ptc_topics r ++ on_decoupled in
    let after_columns = when_topics r.phases.sync (sync_topics r) ++ after_sync in
    let after_attest = column_topics r ++ after_columns in
    let h0 = subst (λ ts. has_text u ts ≡ true) (own_topics-parts r) h in
    elim (in_either u (when_topics r.phases.attest (attest_topics r)) after_attest h0) [
      | inl h ↦
          let (on, f) = in_when u r.phases.attest (attest_topics r) h in
          attest_topics-IsWanted r u on f
      | inr h ↦ elim (in_either u (column_topics r) after_columns h) [
        | inl h ↦
            let cols = r.chain.view.custody_columns in
            let (on, f) = in_when u (ltb 0 r.chain.view.num_columns) (map column_topic cols) h in
            let (c, m, e) = in_map column_topic u cols f in columns c (ground (arith, on)) m e
        | inr h ↦ elim (in_either u (when_topics r.phases.sync (sync_topics r)) after_sync h) [
          | inl h ↦
              let (on, f) = in_when u r.phases.sync (sync_topics r) h in
              sync_topics-IsWanted r u on f
          | inr h ↦ elim (in_either u (ptc_topics r) on_decoupled h) [
            | inl h ↦
                let (on, f) =
                  in_when u (is_on r.phases.epbs)
                    (codes "/eth2/00000000/payload_attestation_message/ssz_snappy" ∷ []) h in
                ptc_votes on
                  (in_one u (codes "/eth2/00000000/payload_attestation_message/ssz_snappy") f)
            | inr h ↦
                let (on, f) = in_when u r.phases.decoupled (decoupled_topics r) h in
                decoupled_topics-IsWanted r u on f
          ]
        ]
      ]
    ]
