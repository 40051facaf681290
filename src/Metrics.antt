-- ===== src/Metrics.antt =====
-- metrics/: the ingestion path of metrics.
pub mod Writer
pub mod Row
pub mod Pipeline
