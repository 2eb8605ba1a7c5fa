-- ===== src/Optimized.antt =====
-- distbench-py/distbench/algorithms/bracha_optimized.py: Bracha's broadcast with echo amplification,
-- single-hop SEND and committees that generate the messages.
pub mod Committee
pub mod Node
pub mod Handlers
pub mod Start
pub mod Expected
pub mod Effect
pub mod Outsider
