-- ===== src/Examples.antt =====
-- Concrete plans and states, and the theorems at them.
pub mod Plans
pub mod Duties
pub mod Slots
pub mod Queues
pub mod Rounds
pub mod Votes
pub mod Graphs
pub mod Records
pub mod Setups
pub mod Topics
pub mod Meshes
pub mod Wires
pub mod Fleets
pub mod Ticks
pub mod Nodes
