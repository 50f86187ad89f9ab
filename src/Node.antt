-- ===== src/Node.antt =====
-- node/: the passive half of the simulator.
pub mod Kinds
pub mod Registry
pub mod Topics
pub mod Verifier
pub mod Partial
