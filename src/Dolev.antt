-- ===== src/Dolev.antt =====
-- distbench-py/distbench/algorithms/dolev.py: reliable communication over node-disjoint paths.
pub mod State
pub mod Graph
pub mod Handlers
pub mod Soundness
pub mod Machine
pub mod Empties
pub mod Broadcast
