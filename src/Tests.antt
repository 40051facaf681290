-- ===== src/Tests.antt =====
-- Concrete runs of the components.
mod Common
mod Sessions
mod ApiKeys
mod Alerts
mod Ingestion
mod Parsers
mod Dsl
mod Metrics
mod Fts
mod Rewrite
mod Meaning
mod Conversion
mod Stored
