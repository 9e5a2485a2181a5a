-- ===== src/Workflow.antt =====
-- scripts/validate_workflow.py: the maintenance tasks and their policy.
pub mod Floats
pub mod Policy
pub mod Tasks
pub mod Models
pub mod Spec
pub mod Scan
pub mod Related
pub mod Sound
pub mod Fine
pub mod Complete
pub mod Examples
