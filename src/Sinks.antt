-- ===== src/Sinks.antt =====
-- mongo-sync-agent/src/mongo_sync_agent/sinks.py and s3.py: the spool files that a run writes, and
-- their upload.
pub mod Laws
pub mod Keeping
pub mod Total
use alteryx_server_maintenan.Prelude.{
  ℕ, zero, suc, ◌+◌, String, Bool, true, false, Option, none, some, List, [], ◌∷◌, ◌++◌, length,
  if◌then◌else◌, Result, ok, raised, upload_error,
}
use alteryx_server_maintenan.Prelude.Dict.{Dict, lookup, upsert, remove, string_key}
use alteryx_server_maintenan.World.{
  World, Env, Content, parquet, ndjson, metrics, Row, LogRecord, MetricRecord, S3Reply, stored,
  refused, unconfirmed, broken,
}
use alteryx_server_maintenan.World.Exec.{
  Exec, pure, raise, ◌>>=◌, ◌>>◌, try_except, except_exception, effect, os_effect, os_error,
}

pub record SinkResult : Type 0 where
  pub rows : ℕ
  pub bytes_written : ℕ

-- `is_open` says that `_writer` is not `None`.
pub record ParquetVariantSink : Type 0 where
  pub path : String
  pub rows : ℕ
  pub is_open : Bool

abbrev pub new_sink : String → ParquetVariantSink
new_sink path = record { path = path; rows = 0; is_open = false }

abbrev pub write_file : String → Content → World → World
write_file path c w = record w { spool = upsert path c w.spool }

-- One more row group at the end of a Parquet file.
abbrev pub append_group : List Row → Option Content → Content
append_group rows (some (parquet groups)) = parquet (groups ++ rows ∷ [])
append_group rows (some (ndjson records)) = parquet (rows ∷ [])
append_group rows (some (metrics records)) = parquet (rows ∷ [])
append_group rows none = parquet (rows ∷ [])

abbrev pub add_group : String → List Row → World → World
add_group path rows w = write_file path (append_group rows (lookup path w.spool)) w

-- The size of a file on disk; 0 where there is none.
abbrev pub file_size : Env → Option Content → ℕ
file_size env none = 0
file_size env (some c) = env.size c

module _ (env : Env) where
  -- `ParquetWriter(path, ...)` makes an empty file in place of what was there.
  unfoldable pub open_writer : ParquetVariantSink → Exec ParquetVariantSink
  open_writer sink = if sink.is_open then pure sink else do
    os_effect (λ w. env.write_raises w sink.path) (write_file sink.path (parquet []))
    pure (record sink { is_open = true })

  unfoldable pub write_rows : List Row → ParquetVariantSink → Exec ParquetVariantSink
  unfolding open_writer
  write_rows [] sink = pure sink
  write_rows (r ∷ rs) sink = do
    opened ← open_writer sink
    os_effect (λ w. env.write_raises w opened.path) (add_group opened.path (r ∷ rs))
    pure (record opened { rows = opened.rows + length (r ∷ rs) })

  -- The footer that `close` writes adds no row.
  unfoldable pub close : ParquetVariantSink → Exec SinkResult
  close sink = do
    (if sink.is_open then os_effect (λ w. env.write_raises w sink.path) (λ w. w) else pure tt)
    λ w. (
      ok (record { rows = sink.rows; bytes_written = file_size env (lookup sink.path w.spool) }),
      w,
    )

  -- `path.unlink(missing_ok=True)`.
  unfoldable pub unlink : String → Exec (Unit {0})
  unlink path =
      os_effect (λ w. env.unlink_raises w path) (λ w. record w { spool = remove path w.spool })

  -- `abort` of both sinks: the file goes, whatever closing it and removing it raise. (What closing
  -- writes goes with the file.)
  unfoldable pub abort : String → Exec (Unit {0})
  unfolding unlink
  abort path = try_except (unlink path) (except_exception (λ e. pure tt))

-- `GzipNdjsonSink`; `gzip.open` makes the file.
pub record GzipNdjsonSink : Type 0 where
  pub path : String
  pub rows : ℕ

abbrev append_records : List LogRecord → Option Content → Content
append_records rows (some (ndjson records)) = ndjson (records ++ rows)
append_records rows (some (parquet groups)) = ndjson rows
append_records rows (some (metrics records)) = ndjson rows
append_records rows none = ndjson rows

abbrev pub add_records : String → List LogRecord → World → World
add_records path rows w = write_file path (append_records rows (lookup path w.spool)) w

-- The same, for the lines of the host metrics.
abbrev append_metrics : List MetricRecord → Option Content → Content
append_metrics rows (some (metrics records)) = metrics (records ++ rows)
append_metrics rows (some (ndjson records)) = metrics rows
append_metrics rows (some (parquet groups)) = metrics rows
append_metrics rows none = metrics rows

abbrev pub add_metrics : String → List MetricRecord → World → World
add_metrics path rows w = write_file path (append_metrics rows (lookup path w.spool)) w

module _ (env : Env) where
  unfoldable pub open_sink : String → Exec GzipNdjsonSink
  open_sink path = do
    os_effect (λ w. env.write_raises w path) (write_file path (ndjson []))
    pure (record { path = path; rows = 0 })

  unfoldable pub write_records : List LogRecord → GzipNdjsonSink → Exec GzipNdjsonSink
  write_records rows sink = do
    os_effect (λ w. env.write_raises w sink.path) (add_records sink.path rows)
    pure (record sink { rows = sink.rows + length rows })

  unfoldable pub write_metrics : List MetricRecord → GzipNdjsonSink → Exec GzipNdjsonSink
  write_metrics rows sink = do
    os_effect (λ w. env.write_raises w sink.path) (add_metrics sink.path rows)
    pure (record sink { rows = sink.rows + length rows })

  unfoldable pub close_sink : GzipNdjsonSink → Exec SinkResult
  close_sink sink = do
    os_effect (λ w. env.write_raises w sink.path) (λ w. w)
    λ w. (
      ok (record { rows = sink.rows; bytes_written = file_size env (lookup sink.path w.spool) }),
      w,
    )
