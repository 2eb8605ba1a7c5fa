-- ===== src/Transport.antt =====
-- distbench-py/distbench/transport: how the bytes of a message get to another node.
pub mod Framing
pub mod Server
pub mod Ends
pub mod Requests
pub mod Connection
pub mod Exchange
pub mod Failure
pub mod Local
