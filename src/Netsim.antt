-- ===== src/Netsim.antt =====
-- netsim/: the peer graphs of the simulated network.
pub mod Graph
pub mod Topology
