-- ===== src/Hub.antt =====
-- crates/hub: the coordinator of a distributed build.
pub mod Dag
pub mod Server
mod Examples
