-- ===== src/Validator.antt =====
-- validator/: the messages that a duty publishes. A payload is its number of filler bytes; the size
-- of a message, which protobuf measures, is a parameter.
pub mod Filler
use eth_slot_sim.Base.{
  ℕ, ◌+◌, ◌-◌, ◌/◌, ◌%◌, ◌^◌, Bool, true, false, not, List, ltb, ◌==◌, if◌then◌else◌, ℤ, pos,
  negsuc,
}
use eth_slot_sim.Node.Registry.{codes}
use eth_slot_sim.Node.Registry.Numbers.{subnet_topic, attestation_topic, finality_vote_topic}

-- Go's conversion of an `int` that is not negative.
abbrev pub uint32 : ℕ → ℕ
uint32 n = n % 2 ^ 32

-- The messages of pb/, each with its fields in order; the last is the payload.
pub data PbMessage : Type 0 where
  block : ℕ → ℕ → ℕ → PbMessage
  attestation : ℕ → ℕ → ℕ → ℕ → ℕ → ℕ → PbMessage
  aggregate : ℕ → ℕ → ℕ → ℕ → PbMessage
  column : ℕ → ℕ → ℕ → ℕ → PbMessage
  sync_message : ℕ → ℕ → ℕ → ℕ → ℕ → PbMessage
  sync_contribution : ℕ → ℕ → ℕ → ℕ → PbMessage
  ac_vote : ℕ → ℕ → ℕ → ℕ → ℕ → PbMessage
  finality_vote : ℕ → ℕ → ℕ → ℕ → ℕ → PbMessage
  finality_aggregate : ℕ → ℕ → ℕ → ℕ → PbMessage
  consensus_block : ℕ → ℕ → ℕ → PbMessage
  execution_payload : ℕ → ℕ → ℕ → PbMessage
  ptc_vote : ℕ → ℕ → ℕ → Bool → ℕ → PbMessage

-- `Message`, before its payload is marshaled.
pub record Message : Type 0 where
  pub topic : List ℕ
  pub content : PbMessage
  pub slot : ℕ

-- The sentinel of a vote for the prior head.
abbrev pub prior_head : ℕ
prior_head = 2 ^ 32 - 1

abbrev pub voted_of : ℤ → ℕ
voted_of (pos origin) = uint32 origin
voted_of (negsuc n) = prior_head

-- `VotedBlock`, on the field of an attestation.
abbrev pub voted_block : ℕ → Bool
voted_block voted_origin = not (voted_origin == prior_head)

-- `sizedFiller`, by the size of the message without its payload.
unfoldable pub sized_filler : ℕ → ℕ → ℕ
sized_filler overhead target =
    let room = target - overhead - 1 in
    let n = if ltb 127 room then room - 2 else room - 1 in if ltb n 1 then 1 else n

unfoldable pub finality_aggregate_size : ℕ → ℕ
finality_aggregate_size vps = 328 + (vps + 7) / 8

abbrev pub column_topic : ℕ → List ℕ
column_topic i = subnet_topic (codes "/eth2/00000000/data_column_sidecar_") i

abbrev pub sync_message_topic : ℕ → List ℕ
sync_message_topic i = subnet_topic (codes "/eth2/00000000/sync_committee_") i

unfoldable pub make_block : ℕ → ℕ → ℕ → Message
make_block slot origin size = record {
  topic = codes "/eth2/00000000/beacon_block/ssz_snappy";
  content = block (uint32 slot) (uint32 origin) size;
  slot = slot;
}

unfoldable pub make_consensus_block : ℕ → ℕ → ℕ → Message
make_consensus_block slot origin size = record {
  topic = codes "/eth2/00000000/consensus_block/ssz_snappy";
  content = consensus_block (uint32 slot) (uint32 origin) size;
  slot = slot;
}

unfoldable pub make_execution_payload : ℕ → ℕ → ℕ → Message
make_execution_payload slot origin size = record {
  topic = codes "/eth2/00000000/execution_payload/ssz_snappy";
  content = execution_payload (uint32 slot) (uint32 origin) size;
  slot = slot;
}

module _ (size_of : PbMessage → ℕ) where
  -- A message is measured without a payload, and given one of the size that is left.
  abbrev pub filled : (ℕ → PbMessage) → ℕ → PbMessage
  filled message target = message (sized_filler (size_of (message 0)) target)

  unfoldable pub make_attestation : ℕ → ℕ → ℕ → ℕ → ℤ → Message
  make_attestation slot subnet val origin voted_origin = record {
    topic = attestation_topic subnet;
    content =
        filled
          (attestation (uint32 slot) (uint32 subnet) (uint32 val) (uint32 origin)
            (voted_of voted_origin))
          240;
    slot = slot;
  }

  unfoldable pub make_aggregate : ℕ → ℕ → ℕ → Message
  make_aggregate slot subnet origin = record {
    topic = codes "/eth2/00000000/beacon_aggregate_and_proof/ssz_snappy";
    content = filled (aggregate (uint32 slot) (uint32 subnet) (uint32 origin)) 505;
    slot = slot;
  }

  unfoldable pub make_column : ℕ → ℕ → ℕ → Message
  make_column slot col origin = record {
    topic = column_topic col;
    content = filled (column (uint32 slot) (uint32 col) (uint32 origin)) 13220;
    slot = slot;
  }

  unfoldable pub make_sync_message : ℕ → ℕ → ℕ → ℤ → Message
  make_sync_message slot subnet origin voted_origin = record {
    topic = sync_message_topic subnet;
    content =
        filled (sync_message (uint32 slot) (uint32 subnet) (uint32 origin) (voted_of voted_origin))
          144;
    slot = slot;
  }

  unfoldable pub make_sync_contribution : ℕ → ℕ → ℕ → Message
  make_sync_contribution slot subnet origin = record {
    topic = codes "/eth2/00000000/sync_committee_contribution_and_proof/ssz_snappy";
    content = filled (sync_contribution (uint32 slot) (uint32 subnet) (uint32 origin)) 360;
    slot = slot;
  }

  unfoldable pub make_ac_vote : ℕ → ℕ → ℕ → ℤ → Message
  make_ac_vote slot val origin voted_origin = record {
    topic = codes "/eth2/00000000/availability_vote/ssz_snappy";
    content =
        filled (ac_vote (uint32 slot) (uint32 val) (uint32 origin) (voted_of voted_origin)) 240;
    slot = slot;
  }

  unfoldable pub make_finality_vote : ℕ → ℕ → ℕ → ℕ → Message
  make_finality_vote finality_slot subnet val origin = record {
    topic = finality_vote_topic subnet;
    content =
        filled (finality_vote (uint32 finality_slot) (uint32 subnet) (uint32 val) (uint32 origin))
          226;
    slot = finality_slot;
  }

  unfoldable pub make_finality_aggregate : ℕ → ℕ → ℕ → ℕ → Message
  unfolding finality_aggregate_size
  make_finality_aggregate finality_slot subnet origin vps = record {
    topic = codes "/eth2/00000000/finality_aggregate_and_proof/ssz_snappy";
    content =
        filled (finality_aggregate (uint32 finality_slot) (uint32 subnet) (uint32 origin))
          (finality_aggregate_size vps);
    slot = finality_slot;
  }

  unfoldable pub make_ptc_vote : ℕ → ℕ → ℕ → Bool → Message
  make_ptc_vote slot val origin payload_present = record {
    topic = codes "/eth2/00000000/payload_attestation_message/ssz_snappy";
    content = filled (ptc_vote (uint32 slot) (uint32 val) (uint32 origin) payload_present) 176;
    slot = slot;
  }
