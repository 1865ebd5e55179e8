-- ===== src/Mongo.antt =====
-- mongo-sync-agent/src/mongo_sync_agent/mongo: incremental extraction of collections.
pub mod Watermark
pub mod Extract
pub mod All
pub mod Connect
pub mod Continuity
pub mod Delivers
