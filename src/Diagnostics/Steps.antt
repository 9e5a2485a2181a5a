-- ===== src/Diagnostics/Steps.antt =====
-- What each method of `Context` in scripts/diagnostics.py leaves behind.
pub mod Records
pub mod Held
pub mod Backed
pub mod Order
pub mod Derived
pub mod Owed
pub mod Chain
