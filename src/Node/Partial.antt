-- ===== src/Node/Partial.antt =====
-- node/partial.go: the vote store of the partial-message transport. An attestation_data and a
-- signature are labels. The set `validated` is kept ascending, so that ranging over it and sorting
-- is to read it; the groups of all topics are one list. The bitmap library is a parameter.
pub mod Buckets
pub mod Groups
pub mod Incoming
pub mod Publishing
