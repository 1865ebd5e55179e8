-- ===== src/Config.antt =====
-- mongo-sync-agent/src/mongo_sync_agent/config.py: the configuration that the units are given, and
-- how it is read.
pub mod Toml
pub mod Access
pub mod Parse
pub mod Load
pub mod Valid
pub mod Loaded
use alteryx_server_maintenan.Prelude.{ℕ, String, Bool, Option, List}
use alteryx_server_maintenan.Prelude.Int.{ℤ}
use alteryx_server_maintenan.Logs.Tailer.Encoding.{Text}

pub data Mode : Type 0 where
  append_only mutable full_refresh : Mode

pub record CollectionConfig : Type 0 where
  pub name : String
  pub mode : Mode
  pub watermark_field : Option String
  pub overlap_seconds : ℤ
  pub batch_size : ℤ
  pub initial_watermark : Option String
  pub allow_gridfs_chunks : Bool

pub record LogSourceConfig : Type 0 where
  pub name : String
  pub path_glob : String
  pub encoding : Text
  pub max_bytes_per_poll : ℤ

pub record LogsConfig : Type 0 where
  pub enabled : Bool
  pub sources : List LogSourceConfig
  pub gc_days : ℤ

pub record MongoConfig : Type 0 where
  pub database : String
  pub uri : Option String
  pub host : String
  pub port : ℤ
  pub username : Option String
  pub password : Option String
  pub auth_source : String
  pub tls : Bool
  pub tls_ca_file : Option String
  pub server_selection_timeout_ms : ℤ

pub record S3Config : Type 0 where
  pub bucket : String
  pub region : String
  pub prefix : String

pub record HostMetricsConfig : Type 0 where
  pub enabled : Bool
  pub disks : List String

pub record AgentConfig : Type 0 where
  pub state_db : String
  pub spool_dir : String
  pub log_dir : String
  pub log_level : String
  pub mongo_enabled : Bool
  pub mongo : Option MongoConfig
  pub collections : List CollectionConfig
  pub s3 : S3Config
  pub logs : LogsConfig
  pub hostmetrics : HostMetricsConfig
  pub host_id : Option String
