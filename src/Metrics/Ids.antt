-- ===== src/Metrics/Ids.antt =====
-- metrics/tracer.go and node/registry.go: the identity of a message on the publishing side.
use eth_slot_sim.Base.{ℕ, ℤ, pos, minus_one}
use eth_slot_sim.Node.Kinds.{
  Kind, block, attestation, aggregate, column, sync_message, sync_contribution, ac_vote,
  finality_vote, finality_aggregate, consensus_block, execution_payload, ptc_vote,
}

-- `node.Identity`: a field that a kind does not use is -1.
pub record Identity : Type 0 where
  pub slot : ℤ
  pub subnet : ℤ
  pub attester : ℤ
  pub origin : ℤ

pub record MsgId : Type 0 where
  pub kind : Kind
  pub identity : Identity

abbrev pub block_id : ℕ → ℕ → MsgId
block_id slot origin = record {
  kind = block;
  identity = record {
    slot = pos slot;
    subnet = minus_one;
    attester = minus_one;
    origin = pos origin;
  };
}

abbrev pub consensus_block_id : ℕ → ℕ → MsgId
consensus_block_id slot origin = record {
  kind = consensus_block;
  identity = record {
    slot = pos slot;
    subnet = minus_one;
    attester = minus_one;
    origin = pos origin;
  };
}

abbrev pub execution_payload_id : ℕ → ℕ → MsgId
execution_payload_id slot origin = record {
  kind = execution_payload;
  identity = record {
    slot = pos slot;
    subnet = minus_one;
    attester = minus_one;
    origin = pos origin;
  };
}

abbrev pub ptc_vote_id : ℕ → ℕ → ℕ → MsgId
ptc_vote_id slot val origin = record {
  kind = ptc_vote;
  identity = record {
    slot = pos slot;
    subnet = minus_one;
    attester = pos val;
    origin = pos origin;
  };
}

abbrev pub attest_id : ℕ → ℕ → ℕ → ℕ → MsgId
attest_id slot subnet attester origin = record {
  kind = attestation;
  identity = record {
    slot = pos slot;
    subnet = pos subnet;
    attester = pos attester;
    origin = pos origin;
  };
}

abbrev pub aggregate_id : ℕ → ℕ → ℕ → MsgId
aggregate_id slot subnet aggregator = record {
  kind = aggregate;
  identity = record {
    slot = pos slot;
    subnet = pos subnet;
    attester = pos aggregator;
    origin = minus_one;
  };
}

abbrev pub column_id : ℕ → ℕ → ℕ → MsgId
column_id slot col origin = record {
  kind = column;
  identity = record {
    slot = pos slot;
    subnet = pos col;
    attester = minus_one;
    origin = pos origin;
  };
}

abbrev pub sync_message_id : ℕ → ℤ → ℕ → MsgId
sync_message_id slot subnet member = record {
  kind = sync_message;
  identity = record { slot = pos slot; subnet = subnet; attester = pos member; origin = minus_one };
}

abbrev pub sync_contribution_id : ℕ → ℕ → ℕ → MsgId
sync_contribution_id slot subnet aggregator = record {
  kind = sync_contribution;
  identity = record {
    slot = pos slot;
    subnet = pos subnet;
    attester = pos aggregator;
    origin = minus_one;
  };
}

abbrev pub ac_vote_id : ℕ → ℕ → ℕ → MsgId
ac_vote_id slot val origin = record {
  kind = ac_vote;
  identity = record {
    slot = pos slot;
    subnet = minus_one;
    attester = pos val;
    origin = pos origin;
  };
}

abbrev pub finality_vote_id : ℕ → ℕ → ℕ → ℕ → MsgId
finality_vote_id fslot subnet val origin = record {
  kind = finality_vote;
  identity = record {
    slot = pos fslot;
    subnet = pos subnet;
    attester = pos val;
    origin = pos origin;
  };
}

abbrev pub finality_aggregate_id : ℕ → ℕ → ℕ → MsgId
finality_aggregate_id fslot subnet aggregator = record {
  kind = finality_aggregate;
  identity = record {
    slot = pos fslot;
    subnet = pos subnet;
    attester = pos aggregator;
    origin = minus_one;
  };
}
