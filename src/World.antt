-- ===== src/World.antt =====
-- What a run of the agent can change outside its own memory: the SQLite database, the spool
-- directory and the S3 bucket; and the programs that change it.
pub mod Exec
pub mod Rules
pub mod Isolation
pub mod Keeping
pub mod Total
pub mod Turns
use alteryx_server_maintenan.Prelude.{ℕ, String, Bool, List, Option}
use alteryx_server_maintenan.Prelude.Dict.{Dict}
use alteryx_server_maintenan.Prelude.Int.{ℤ}
use alteryx_server_maintenan.DateTime.{DateTime}
use alteryx_server_maintenan.State.{Db}

-- landing.py: the columns of `VariantJsonLanding.schema`, in their order.
pub record Row : Type 0 where
  pub payload : String
  pub doc_id : String
  pub watermark : String
  pub extracted_at : DateTime
  pub host : String

-- logs/ship.py: the fields of a shipped line. `line` is a text by its code points.
pub record LogRecord : Type 0 where
  pub line : List ℕ
  pub host : String
  pub source : String
  pub file : String
  pub file_offset : ℕ
  pub shipped_at : String

-- hostmetrics/collect.py: what is measured. `psutil` rounds a percentage to tenths, which are
-- counted here.
pub record Memory : Type 0 where
  pub total : ℕ
  pub available : ℕ
  pub used : ℕ
  pub percent : ℕ

pub record Usage : Type 0 where
  pub total : ℕ
  pub used : ℕ
  pub free : ℕ
  pub percent : ℕ

pub record Counters : Type 0 where
  pub read_bytes : ℕ
  pub write_bytes : ℕ
  pub read_count : ℕ
  pub write_count : ℕ

-- The text of a `disk_io` is its warning, if it has one.
pub data Metric : Type 0 where
  cpu_percent_1s : ℕ → Metric
  memory : Memory → Metric
  disk_usage : String → Usage → Metric
  disk_io : String → Counters → Option String → Metric

pub record MetricRecord : Type 0 where
  pub metric : Metric
  pub ts : String
  pub host : String

-- A Parquet file, by its row groups, or a gzip file of NDJSON lines.
pub data Content : Type 0 where
  parquet : List (List Row) → Content
  ndjson : List LogRecord → Content
  metrics : List MetricRecord → Content

-- locking.py: the lock file, by what `int` makes of its text.
pub data LockFile : Type 0 where
  no_lock unreadable : LockFile
  holds : ℤ → LockFile

-- `run_dirs` are the names of the directories in the spool base. `budget` is the number of durable effects that the process lives to see: a run with a budget too
-- small for it is a run that crashes at that point.
pub record World : Type 0 where
  pub db : Db
  pub spool : Dict String Content
  pub bucket : Dict String Content
  pub lock : LockFile
  pub run_dirs : List String
  pub budget : ℕ

-- How S3 answers `upload_file` and `head_object`: both succeed; `upload_file` raises a `ClientError`
-- or `BotoCoreError` and stores nothing; the object is stored and `head_object` raises one; or
-- something else is raised, and nothing is stored or the object is.
pub data S3Reply : Type 0 where
  stored : String → S3Reply
  refused unconfirmed broken broken_after : S3Reply

-- The surroundings, which may answer differently in every state of the world.
pub record Env : Type 0 where
  pub now : World → String
  pub sql_raises : World → ℕ → Bool
  pub select_raises : World → Bool
  pub write_raises : World → String → Bool
  pub unlink_raises : World → String → Bool
  pub s3_reply : World → String → String → S3Reply
  pub size : Content → ℕ
