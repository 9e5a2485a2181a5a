-- ===== src/Shape.antt =====
-- scripts/source_lock.py and its copies in scripts/lab_config.py: the bounds on a parsed JSON
-- input, the guard against duplicate keys, and the parser of bounded bytes.
pub mod Walk
pub mod Weight
pub mod Bounds
pub mod Parse
pub mod Unique
pub mod Accepted
pub mod Examples
