-- ===== src/Artifact.antt =====
-- crates/artifact-store (src/local.rs) and crates/scheduler/src/postinstall_cache.rs, over a disk on
-- which several names may stand for one file.
pub mod Disk
pub mod Store
pub mod Postinstall
pub mod Phase
pub mod Samples
mod Examples
