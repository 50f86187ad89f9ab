-- ===== src/Driver.antt =====
-- driver/: the orchestration half of the simulator.
pub mod Resolver
pub mod Coupling
pub mod Slot
pub mod Finality
pub mod Setup
pub mod Fleet
