-- ===== src/Node/Kinds.antt =====
-- node/node.go: the tag of a message.
use eth_slot_sim.Base.{Bool, ℕ, ◌==◌}

pub data Kind : Type 0 where
  block attestation aggregate column sync_message sync_contribution : Kind
  ac_vote finality_vote finality_aggregate consensus_block execution_payload ptc_vote : Kind

-- The predefined value of a tag.
abbrev pub kind_value : Kind → ℕ
kind_value block = 1
kind_value attestation = 2
kind_value aggregate = 3
kind_value column = 4
kind_value sync_message = 5
kind_value sync_contribution = 6
kind_value ac_vote = 7
kind_value finality_vote = 8
kind_value finality_aggregate = 9
kind_value consensus_block = 10
kind_value execution_payload = 11
kind_value ptc_vote = 12

abbrev pub kind_eq : Kind → Kind → Bool
kind_eq a b = kind_value a == kind_value b
