-- ===== src/Diagnostics/Context.antt =====
-- scripts/diagnostics.py: `Context`, whose methods make one check each. A method returns the check
-- and the context that it leaves, or raises.
mod State
mod Project
mod Inputs
mod Evidence
unfoldable pub use State.*
unfoldable pub use Project.*
unfoldable pub use Inputs.*
unfoldable pub use Evidence.*
