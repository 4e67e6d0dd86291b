-- ===== src/Asset.antt =====
-- asset/: what a declared path of an asset may be.
pub mod PathPolicy
pub mod Reconciliation
