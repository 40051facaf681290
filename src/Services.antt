-- ===== src/Services.antt =====
-- services/: the background services and the in-memory state behind the HTTP handlers.
pub mod Throttling
pub mod ApiKeys
pub mod Retention
pub mod Scraper
pub mod ScrapeTargets
pub mod Encryption
pub mod Settings
pub mod Sessions
pub mod Alerts
