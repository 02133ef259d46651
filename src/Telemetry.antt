-- ===== src/Telemetry.antt =====
-- src/telemetry: the shared data model, the registry of live blocks, and the collector of records
-- with its storage.
pub mod Schema
pub mod Tracker
pub mod Storage
pub mod Collector
