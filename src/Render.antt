-- ===== src/Render.antt =====
-- src/redline_core/render: planning an output, and the manager that queues, polls, cancels and
-- starts renders over the store and Resolve.
pub mod World
pub mod Plan
pub mod Status
pub mod Manager
