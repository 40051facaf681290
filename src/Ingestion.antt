-- ===== src/Ingestion.antt =====
-- ingestion/: from an HTTP payload to rows of the logs table.
pub mod Parsers
pub mod Broadcaster
pub mod BatchWriter
pub mod Pipeline
