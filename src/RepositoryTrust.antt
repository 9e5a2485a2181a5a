-- ===== src/RepositoryTrust.antt =====
-- scripts/repository_trust.py: the trust policy of the hosted repository and its evidence.
pub mod Values
pub mod Arrays
pub mod Policy
pub mod Facts
pub mod Observation
pub mod Statuses
pub mod Evidence
pub mod Approved
pub mod Accepted
pub mod Examples
