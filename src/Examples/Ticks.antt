-- ===== src/Examples/Ticks.antt =====
-- A tick of a group with two votes, one mesh peer and one gossip peer.
use eth_slot_sim.Base.{◌⊎◌, ℕ, ◌≡◌, refl, true, false, List, [], ◌∷◌, map, some, arith}
use eth_slot_sim.Node.Kinds.{attestation}
use eth_slot_sim.Node.Partial.Buckets.Votes.{IsTracked}
use eth_slot_sim.Node.Partial.Groups.{PartialGroup, PartialManager, attestation_subnet, find_group}
use eth_slot_sim.Node.Partial.Publishing.{PeerStates, Action, tick_of, publish_actions}
use eth_slot_sim.Node.Partial.Publishing.Served.{view}
use eth_slot_sim.Node.Partial.Publishing.Ticks.{AreServable, AreSent}
use eth_slot_sim.Node.Partial.Publishing.Actions.{publish_actions-AreSent}
use eth_slot_sim.Examples.Votes.{listed, two_votes}

abbrev vote_group : PartialGroup
vote_group = record {
  topic = attestation_subnet 1;
  key = 7;
  kind = attestation;
  subnet = 1;
  committee_size = 4;
  buckets = (9, two_votes) ∷ [];
  sealed = false;
}

abbrev vote_manager : PartialManager
vote_manager = record { max_peers = 2; max_iwant = 1; groups = vote_group ∷ []; floor = [] }

abbrev two_peers : PeerStates
two_peers =
    (4, record { gossip_peer = false; send_available_list = false })
    ∷ (5, record { gossip_peer = true; send_available_list = true })
    ∷ []

two_votes-IsTracked : IsTracked two_votes
two_votes-IsTracked = record { held = λ p. ground arith; apart = λ p. refl }

vote_group-AreServable :
    AreServable (tick_of listed (λ p. true) 7 vote_manager vote_group) vote_group.buckets
vote_group-AreServable = (
  record {
    tracked = two_votes-IsTracked;
    once = λ p. ground arith;
    sends = λ p. omega arith;
    asks = λ p. omega arith;
  },
  tt,
)

publish_actions-AreSent_example :
    (ticked : PartialManager × PeerStates × List (ℕ × Action)) × (publish_actions listed
        (λ p. true)
        (λ p a. true)
        (attestation_subnet 1)
        7
        two_peers
        vote_manager
      ≡ some ticked)
    × AreSent
        (tick_of listed (λ p. true) 7 vote_manager vote_group)
        (map (λ x. view x.1) vote_group.buckets)
        ticked.2
    × ((g' : PartialGroup) × (find_group (attestation_subnet 1) 7 ticked.0.groups ≡ some g')
        × AreServable (tick_of listed (λ p. true) 7 vote_manager vote_group) g'.buckets)
    × ((false ≡ false) ⊎ (ticked.2 ≡ []))
publish_actions-AreSent_example =
    publish_actions-AreSent listed (λ p. true) (λ p a. true) (attestation_subnet 1) 7 two_peers
      vote_manager vote_group refl vote_group-AreServable
