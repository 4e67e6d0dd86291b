-- ===== src/Store.antt =====
-- The SQLite store: src/redline_core/db. `Rows` has the rows, `Sql` the statements, the others the
-- methods of `Database`, and the children of those the proofs.
pub mod Rows
pub mod Sql
pub mod Episodes
pub mod RenderJobs
pub mod Archives
pub mod Consistency
pub mod History
