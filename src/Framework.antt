-- ===== src/Framework.antt =====
-- distbench-py/distbench: the framework that runs an algorithm on a node.
pub mod Messages
pub mod Community
pub mod Node
pub mod Lifecycle
pub mod Connection
pub mod Signing
pub mod Tree
pub mod Encoding
