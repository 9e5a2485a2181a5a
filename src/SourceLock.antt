-- ===== src/SourceLock.antt =====
-- scripts/source_lock.py: the lock of the Yocto sources and their checkouts.
pub mod Paths
pub mod Values
pub mod Validate
pub mod Parse
pub mod Git
pub mod Inspect
pub mod Sync
pub mod Ready
pub mod Kept
pub mod Separate
pub mod Status
pub mod Materialized
pub mod Spec
pub mod Reads
pub mod Sources
pub mod Loop
pub mod Locked
pub mod Normal
pub mod Examples
pub mod Checkouts
