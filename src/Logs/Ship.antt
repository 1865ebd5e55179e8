-- ===== src/Logs/Ship.antt =====
-- mongo-sync-agent/src/mongo_sync_agent/logs/ship.py: one poll of one log source, from the files to
-- the gzip file, its upload and the offsets; and of all sources.
pub mod Writing
pub mod Outcomes
pub mod Commit
pub mod Safety
pub mod Offsets
pub mod Isolation
pub mod Rehearsal
pub mod Keeping
pub mod Frame
pub mod Turns
pub mod Settled
pub mod Total
pub mod Completes
use Prim.Native.Char.{code}
use Prim.Native.String
use alteryx_server_maintenan.Prelude.{
  ℕ, ◌+◌, String, Bool, true, false, ◌||◌, ◌==◌, Option, none, some, List, [], ◌∷◌, ◌++◌, map, ◌⊎◌,
  inl, inr, if◌then◌else◌, Result, ok, raised, Exn, exception, config_error, upload_error, killed,
}
use alteryx_server_maintenan.Prelude.Dict.{Dict, upsert, string_key}
use alteryx_server_maintenan.Prelude.Int.{ℤ, pos}
use alteryx_server_maintenan.Config.{LogSourceConfig, LogsConfig}
use alteryx_server_maintenan.RunnerTypes.{
  RunContext, UnitResult, Status, unit_result, status_ok, failed, empty,
}
use alteryx_server_maintenan.S3.{UploadResult, upload, logs_key}
use alteryx_server_maintenan.Sinks.{
  GzipNdjsonSink, SinkResult, open_sink, write_records, close_sink, unlink, abort,
}
use alteryx_server_maintenan.Spool.{spool_path}
use alteryx_server_maintenan.State.{FileOffset, get_offsets, set_offsets}
use alteryx_server_maintenan.World.{World, Env, LogRecord}
use alteryx_server_maintenan.World.Exec.{
  select, message, Exec, pure, raise, lift, ◌>>=◌, ◌>>◌, try_except, except_exception,
  except_upload_error, commit,
}
use alteryx_server_maintenan.Logs.Sources.{
  TailPlan, Match, Calendar, discover, provisional_key, gc_offsets,
}
use alteryx_server_maintenan.Logs.Tailer.{Bytes, Text, TailChunk, FileRead, drain_file}

-- What a poll meets on disk: the matches of a glob; the `k`-th read of a file, whose size stays
-- below `bound`; the size of a file when the offsets are committed (`none` is an `OSError`); and what
-- the clock reads when the chunk of a file that ends at an offset becomes records.
pub record Disk : Type 0 where
  pub glob : String → List Match
  pub reads : String → ℕ → FileRead
  pub bound : ℕ
  pub size_at : String → Option ℕ
  pub shipped_at : String → ℕ → String

-- `path.name` on Windows: what stands behind the last separator.
is_separator : ℕ → Bool
is_separator c = c == b'/' || c == 0x5c

after_separator : String → Option String
unfolding is_separator
after_separator String.[] = none
after_separator (String.◌∷◌ c s) = elim (after_separator s) [
  | some name ↦ some name
  | none ↦ if is_separator (code c) then some s else none
]

unfoldable pub file_name : String → String
unfolding after_separator
file_name path = elim (after_separator path) [ none ↦ path | some name ↦ name ]

-- What the loop over the plans has gathered.
pub record Gathered : Type 0 where
  pub records : List LogRecord
  pub new_offsets : Dict String (TailPlan × ℤ)
  pub current_keys : List String

abbrev pub nothing_gathered : Gathered
nothing_gathered = record { records = []; new_offsets = []; current_keys = [] }

-- `offset` after the loop over the chunks.
abbrev pub end_offset : ℤ → List TailChunk → ℤ
end_offset offset [] = offset
end_offset offset (c ∷ chunks) = end_offset (pos c.new_offset) chunks

-- The key of a plan in the store.
abbrev pub plan_key : TailPlan → String
plan_key plan = elim plan.fingerprint [ none ↦ provisional_key plan.path | some fp ↦ fp ]

module _ (env : Env) (hexdigest : Bytes → String) (decode : Text → Bytes → Result Text)
    (calendar : Calendar) (disk : Disk) (prefix : String) (source_cfg : LogSourceConfig)
    (run_ctx : RunContext) (gc_days : ℤ) where
  abbrev pub record_of : (String → ℕ → String) → String → ℕ → Text → LogRecord
  record_of shipped_at path new_offset line = record {
    line = line;
    host = run_ctx.host;
    source = source_cfg.name;
    file = file_name path;
    file_offset = new_offset;
    shipped_at = shipped_at path new_offset;
  }

  -- The records of the chunks of one file.
  abbrev pub records_of : (String → ℕ → String) → String → List TailChunk → List LogRecord
  records_of shipped_at path [] = []
  records_of shipped_at path (c ∷ chunks) =
      map (record_of shipped_at path c.new_offset) c.lines ++ records_of shipped_at path chunks

  -- Reading ends within the fuel where the file stays below the bound; out of fuel there is no
  -- result.
  abbrev pub chunks_of : Option (Result (List TailChunk)) → Result (List TailChunk)
  chunks_of none = raised (exception "no result")
  chunks_of (some r) = r

  unfoldable pub drain : TailPlan → Result (List TailChunk)
  drain plan = chunks_of (
      drain_file decode (disk.reads plan.path) source_cfg.encoding source_cfg.max_bytes_per_poll
        (disk.bound + 3) plan.start_offset)

  abbrev pub gather_file : (String → ℕ → String) → TailPlan → Gathered → List TailChunk → Gathered
  gather_file shipped_at plan g chunks = record {
    records = g.records ++ records_of shipped_at plan.path chunks;
    new_offsets = upsert (plan_key plan) (plan, end_offset plan.start_offset chunks) g.new_offsets;
    current_keys = plan_key plan ∷ g.current_keys;
  }

  -- The loop over the plans.
  unfoldable pub gather : (String → ℕ → String) → List TailPlan → Gathered → Result Gathered
  unfolding drain
  gather shipped_at [] g = ok g
  gather shipped_at (plan ∷ plans) g = elim (drain plan) [
    | raised e ↦ raised e
    | ok chunks ↦ gather shipped_at plans (gather_file shipped_at plan g chunks)
  ]

  abbrev pub size_or : ℤ → Option ℕ → ℤ
  size_or offset none = offset
  size_or offset (some n) = pos n

  abbrev pub offsets_to_commit : Dict String (TailPlan × ℤ) → List FileOffset
  offsets_to_commit [] = []
  offsets_to_commit ((key, (plan, offset)) ∷ rest) =
      record {
        fingerprint = key;
        last_path = plan.path;
        offset = offset;
        file_size_at_read = size_or offset (disk.size_at plan.path);
        updated_at = "";
      }
      ∷ offsets_to_commit rest

  abbrev pub log_spool_file : String
  log_spool_file = spool_path run_ctx.spool_dir source_cfg.name "jsonl.gz"

  abbrev pub log_object_key : String
  log_object_key = logs_key prefix source_cfg.name run_ctx.run_dt

  abbrev pub source_result : Status → ℕ → ℕ → Option String → UnitResult
  source_result status docs bytes_uploaded error = record {
    unit = source_cfg.name;
    status = status;
    docs = docs;
    bytes_uploaded = bytes_uploaded;
    error = error;
  }

  unfoldable pub commit_offsets : Gathered → Exec (Unit {0})
  commit_offsets g = commit (λ w db.
      set_offsets (env.sql_raises w) (env.now w) source_cfg.name (offsets_to_commit g.new_offsets)
        run_ctx.run_id db)

  -- What follows the `try` of the upload.
  unfoldable pub after_ship : Gathered → SinkResult → UnitResult ⊎ UploadResult → Exec UnitResult
  after_ship g result (inl failure) = pure failure
  after_ship g result (inr uploaded) = do
    commit_offsets g
    gc_count ← gc_offsets env calendar source_cfg.name g.current_keys gc_days
    unlink env log_spool_file
    pure (source_result status_ok result.rows uploaded.bytes_uploaded none)

  unfoldable pub try_ship : SinkResult → Exec (UnitResult ⊎ UploadResult)
  try_ship result =
      try_except (do uploaded ← upload env log_spool_file log_object_key; pure (inr uploaded))
        (except_upload_error (λ e. do
          abort env log_spool_file
          pure (inl (source_result failed result.rows 0 (some e)))))

  unfoldable pub deliver_records : Gathered → SinkResult → Exec UnitResult
  deliver_records g result =
      if run_ctx.dry_run
      then (do unlink env log_spool_file; pure (source_result status_ok result.rows 0 none))
      else (do uploaded ← try_ship result; after_ship g result uploaded)

  -- From the sink on.
  unfoldable pub ship_records : Gathered → Exec UnitResult
  ship_records g = do
    sink ← open_sink env log_spool_file
    written ←
        try_except (write_records env g.records sink)
          (except_exception (λ e. do abort env log_spool_file; raise e))
    result ← close_sink env written
    deliver_records g result

  -- `if not records`.
  unfoldable pub after_gather : Gathered → List LogRecord → Exec UnitResult
  after_gather g [] = pure (unit_result source_cfg.name empty)
  after_gather g (r ∷ rs) = ship_records g

  unfoldable pub ship_source : Exec UnitResult
  ship_source = do
    state_offsets ← select env.select_raises (get_offsets source_cfg.name)
    g ← lift (
        gather disk.shipped_at (discover hexdigest state_offsets (disk.glob source_cfg.path_glob))
          nothing_gathered)
    after_gather g g.records

-- The result of a source that raised.
abbrev pub failed_source : LogSourceConfig → Exn → UnitResult
failed_source source_cfg e = record {
  unit = source_cfg.name;
  status = failed;
  docs = 0;
  bytes_uploaded = 0;
  error = some (message e);
}

module _ (env : Env) (hexdigest : Bytes → String) (decode : Text → Bytes → Result Text)
    (calendar : Calendar) (disk : Disk) (prefix : String) (run_ctx : RunContext) where
  -- The loop of `ship_all`.
  unfoldable pub ship_each : ℤ → List LogSourceConfig → List UnitResult → Exec (List UnitResult)
  ship_each gc_days [] results = pure results
  ship_each gc_days (source_cfg ∷ sources) results = do
    result ←
        try_except
          (ship_source env hexdigest decode calendar disk prefix source_cfg run_ctx gc_days)
          (except_exception (λ e. pure (failed_source source_cfg e)))
    ship_each gc_days sources (results ++ result ∷ [])

  unfoldable pub ship_all : LogsConfig → Exec (List UnitResult)
  unfolding ship_each
  ship_all logs_cfg =
      if logs_cfg.enabled then ship_each logs_cfg.gc_days logs_cfg.sources [] else pure []
