-- ===== src/Diagnostics.antt =====
-- scripts/diagnostics.py: the read-only status, doctor, inspect and evidence commands.
pub mod Checks
pub mod Patterns
pub mod Environment
pub mod Context
pub mod Transitions
pub mod Commands
pub mod Steps
pub mod Aggregate
pub mod Runs
pub mod Exit
pub mod Found
pub mod Kept
pub mod Selected
pub mod Consistent
pub mod Examples
