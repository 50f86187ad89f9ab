-- ===== src/Node/Topics/Lifetime.antt =====
-- node/node.go: what a node joins at bring-up, and what `Close` cancels and stops.
use eth_slot_sim.Base.{ℕ, Bool, true, false, List, [], ◌∷◌, ◌++◌, if◌then◌else◌, map}
use eth_slot_sim.Node.Registry.{VerifyClass, Lookups, codes}
use eth_slot_sim.Node.Topics.{cancels, Settings, Node, Answers, new_node, subscribe}

-- `JoinTopics`: on the new maps, the three block topics are subscribed, up to an error.
abbrev pub global_topics : List (List ℕ)
global_topics =
    codes "/eth2/00000000/beacon_block/ssz_snappy"
    ∷ codes "/eth2/00000000/consensus_block/ssz_snappy"
    ∷ codes "/eth2/00000000/execution_payload/ssz_snappy"
    ∷ []

unfoldable pub subscribe_each :
    Settings → Lookups → (List ℕ → Answers) → List (List ℕ) → Node → Node × Bool
unfolding subscribe
subscribe_each o lk answers [] n = (n, true)
subscribe_each o lk answers (t ∷ ts) n =
    let (m, ok) = subscribe o lk (answers t) t n in
    let rest = subscribe_each o lk answers ts m in if ok then rest else (m, false)

unfoldable pub join_topics : Settings → Lookups → (List ℕ → Answers) → Node × Bool
unfolding subscribe_each
join_topics o lk answers = subscribe_each o lk answers global_topics new_node

-- `Close`: every subscription is cancelled. What is stopped is the second part.
unfoldable pub close : Node → Node × List VerifyClass
close n =
    (record n { calls = map (λ s. cancels s.1) n.subs ++ n.calls }, map (λ v. v.0) n.verifiers)
