-- ===== src/Episode.antt =====
-- episode/, timeline/ and media/: episodes are created, and assembled into a Resolve project.
pub mod World
pub mod Definition
pub mod Manager
