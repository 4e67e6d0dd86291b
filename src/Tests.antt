-- ===== src/Tests.antt =====
-- The theorems at concrete inputs.
mod Data
mod Stores
mod Paths
mod Renders
mod Restores
mod Recoveries
mod Reconciliations
mod Journals
mod Episodes
mod Assets
