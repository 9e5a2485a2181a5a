-- ===== src/RuntimeEvidence.antt =====
-- scripts/runtime_evidence.py: the evidence of a run of the QEMU EDU tests.
pub mod Suite
pub mod Values
pub mod Paths
pub mod Validate
pub mod Judge
pub mod Select
pub mod Build
pub mod Reads
pub mod RunOrder
pub mod Among
pub mod Latest
pub mod Passed
pub mod Parts
pub mod Accepted
pub mod Built
pub mod Counts
pub mod Examples
