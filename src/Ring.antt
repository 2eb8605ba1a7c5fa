-- ===== src/Ring.antt =====
-- distbench-py/distbench/algorithms/chang_roberts.py: leader election in a ring.
pub mod Node
pub mod Flight
pub mod Turns
pub mod Election
