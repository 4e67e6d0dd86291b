-- ===== src/Asset/Reconciliation.antt =====
-- asset/reconciliation/: what became of each registry record and of each observation.
pub mod Models
pub mod Pairs
pub mod Classification
