-- ===== src/Api.antt =====
-- api/: the HTTP endpoints of the ingest side.
pub mod Otlp
