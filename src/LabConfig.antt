-- ===== src/LabConfig.antt =====
-- scripts/lab_config.py: the manifests of the labs, their index and the catalog.
pub mod Values
pub mod Profiles
pub mod Fields
pub mod Manifest
pub mod Index
pub mod Catalog
pub mod Select
pub mod Apart
pub mod Sound
pub mod Chosen
pub mod Bytes
pub mod Declared
pub mod Reads
pub mod Rules
pub mod Ruled
pub mod Accepted
pub mod Examples
pub mod Selection
