-- ===== src/Format.antt =====
-- web/src/lib/format.ts: how values become texts of the interface.
pub mod Risk
pub mod Labels
pub mod Audit
pub mod Bytes
pub mod Age
pub mod Event
pub mod Metric
