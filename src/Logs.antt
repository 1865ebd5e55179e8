-- ===== src/Logs.antt =====
-- mongo-sync-agent/src/mongo_sync_agent/logs: tailing the log files of a host and shipping their lines.
pub mod Tailer
pub mod Sources
pub mod Ship
