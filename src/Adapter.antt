-- ===== src/Adapter.antt =====
-- resolve/: the in-memory adapter, which stands in for DaVinci Resolve.
pub mod Mock
