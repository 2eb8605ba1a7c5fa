-- ===== src/Naive.antt =====
-- distbench-py/distbench/algorithms/dolev_naive.py: Dolev's broadcast with a greedy search for
-- disjoint paths.
pub mod Paths
pub mod Node
