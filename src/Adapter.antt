-- ===== src/Adapter.antt =====
-- adapter/ and common/queue of the proxy library under clash-meta.
pub mod Queue
pub mod Proxy
mod Tests
