-- ===== src/Launch.antt =====
-- distbench-py/distbench/main.py and config.py: from a configuration file to the nodes of a run.
pub mod Config
pub mod Mappings
pub mod Nodes
pub mod Offline
pub mod Together
pub mod Tcp
pub mod Placed
