-- ===== src/Restore.antt =====
-- restore/: what a recovery sees of the live installation, plans, and moves aside.
pub mod Disk
pub mod Disposition
pub mod Classification
pub mod Planning
pub mod Capture
pub mod System
pub mod Stability
pub mod Staging
pub mod Authorization
pub mod Verification
pub mod Protocol
pub mod Attempt
pub mod Execution
pub mod Manager
pub mod Journal
