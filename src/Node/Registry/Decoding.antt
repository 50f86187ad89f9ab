-- ===== src/Node/Registry/Decoding.antt =====
-- node/registry.go and node/node.go: a message that is received, and its identity.
use eth_slot_sim.Base.{ℕ, List, Option, some, ◌>>=◌, ℤ, pos, minus_one}
use eth_slot_sim.Node.Kinds
use eth_slot_sim.Node.Kinds.{Kind}
use eth_slot_sim.Node.Registry.{Lookups, descriptor_for}
use eth_slot_sim.Metrics.Ids.{Identity}
use eth_slot_sim.Validator.{
  PbMessage, block, attestation, aggregate, column, sync_message, sync_contribution, ac_vote,
  finality_vote, finality_aggregate, consensus_block, execution_payload, ptc_vote,
}

abbrev identity : ℕ → ℤ → ℤ → ℤ → Identity
identity slot subnet attester origin = record {
  slot = pos slot;
  subnet = subnet;
  attester = attester;
  origin = origin;
}

-- The extractors of the table, each on the message of its kind.
abbrev pub identity_of : PbMessage → Identity
identity_of (block slot origin _) = identity slot minus_one minus_one (pos origin)
identity_of (attestation slot subnet val origin _ _) =
    identity slot (pos subnet) (pos val) (pos origin)
identity_of (aggregate slot subnet origin _) = identity slot (pos subnet) (pos origin) minus_one
identity_of (column slot col origin _) = identity slot (pos col) minus_one (pos origin)
identity_of (sync_message slot subnet origin _ _) =
    identity slot (pos subnet) (pos origin) minus_one
identity_of (sync_contribution slot subnet origin _) =
    identity slot (pos subnet) (pos origin) minus_one
identity_of (ac_vote slot val origin _ _) = identity slot minus_one (pos val) (pos origin)
identity_of (finality_vote fslot subnet val origin _) =
    identity fslot (pos subnet) (pos val) (pos origin)
identity_of (finality_aggregate fslot subnet origin _) =
    identity fslot (pos subnet) (pos origin) minus_one
identity_of (consensus_block slot origin _) = identity slot minus_one minus_one (pos origin)
identity_of (execution_payload slot origin _) = identity slot minus_one minus_one (pos origin)
identity_of (ptc_vote slot val origin _ _) = identity slot minus_one (pos val) (pos origin)

-- `GetOrigin`
abbrev pub get_origin : PbMessage → ℕ
get_origin (block _ origin _) = origin
get_origin (attestation _ _ _ origin _ _) = origin
get_origin (aggregate _ _ origin _) = origin
get_origin (column _ _ origin _) = origin
get_origin (sync_message _ _ origin _ _) = origin
get_origin (sync_contribution _ _ origin _) = origin
get_origin (ac_vote _ _ origin _ _) = origin
get_origin (finality_vote _ _ _ origin _) = origin
get_origin (finality_aggregate _ _ origin _) = origin
get_origin (consensus_block _ origin _) = origin
get_origin (execution_payload _ origin _) = origin
get_origin (ptc_vote _ _ origin _ _) = origin

-- The message that the decode function of a kind unmarshals.
abbrev pub kind_of : PbMessage → Kind
kind_of (block _ _ _) = Kinds.block
kind_of (attestation _ _ _ _ _ _) = Kinds.attestation
kind_of (aggregate _ _ _ _) = Kinds.aggregate
kind_of (column _ _ _ _) = Kinds.column
kind_of (sync_message _ _ _ _ _) = Kinds.sync_message
kind_of (sync_contribution _ _ _ _) = Kinds.sync_contribution
kind_of (ac_vote _ _ _ _ _) = Kinds.ac_vote
kind_of (finality_vote _ _ _ _ _) = Kinds.finality_vote
kind_of (finality_aggregate _ _ _ _) = Kinds.finality_aggregate
kind_of (consensus_block _ _ _) = Kinds.consensus_block
kind_of (execution_payload _ _ _) = Kinds.execution_payload
kind_of (ptc_vote _ _ _ _ _) = Kinds.ptc_vote

pub record Received : Type 0 where
  pub kind : Kind
  pub object : PbMessage
  pub id : Identity
  pub origin : ℕ
  pub at : ℕ

-- With `proto.Unmarshal` into the message of a kind; `none` is an error.
module _ {W : Type 0} (unmarshal : Kind → W → Option PbMessage) (lk : Lookups) where
  unfoldable pub decode : List ℕ → W → ℕ → Option Received
  decode topic bytes at = descriptor_for lk topic >>= λ d. unmarshal d.kind bytes >>= λ m.
      some
        (record { kind = d.kind; object = m; id = identity_of m; origin = get_origin m; at = at })
