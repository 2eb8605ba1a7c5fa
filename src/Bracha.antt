-- ===== src/Bracha.antt =====
-- distbench-py/distbench/algorithms/bracha.py: Bracha's reliable broadcast over a Dolev child.
pub mod Message
pub mod Ledger
pub mod Slot
pub mod Node
pub mod Effect
pub mod Progress
pub mod Turns
pub mod System
pub mod Payload
