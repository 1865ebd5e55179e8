-- ===== src/Runner/HostMetricsUnit.antt =====
-- runner.py: the host metrics of a run, from the records to the upload.
use alteryx_server_maintenan.Prelude.{
  Exn, ℕ, String, Option, none, some, List, [], ◌∷◌, length, ◌⊎◌, inl, inr, if◌then◌else◌,
}
use alteryx_server_maintenan.RunnerTypes.{
  RunContext, UnitResult, Status, unit_result, status_ok, failed, empty,
}
use alteryx_server_maintenan.S3.{UploadResult, upload, hostmetrics_key}
use alteryx_server_maintenan.Sinks.{open_sink, write_metrics, close_sink, unlink, abort}
use alteryx_server_maintenan.Spool.{spool_path}
use alteryx_server_maintenan.World.{Env, MetricRecord}
use alteryx_server_maintenan.World.Exec.{
  Exec, pure, raise, ◌>>=◌, ◌>>◌, try_except, except_exception, message,
}

abbrev pub metrics_result : Status → ℕ → ℕ → Option String → UnitResult
metrics_result status docs bytes_uploaded error = record {
  unit = "hostmetrics";
  status = status;
  docs = docs;
  bytes_uploaded = bytes_uploaded;
  error = error;
}

module _ (env : Env) (prefix : String) (run_ctx : RunContext) where
  abbrev pub metrics_spool_file : String
  metrics_spool_file = spool_path run_ctx.spool_dir "hostmetrics" "jsonl.gz"

  abbrev pub metrics_failed : Exn → Exec (UnitResult ⊎ UploadResult)
  metrics_failed e = do
    abort env metrics_spool_file
    pure (inl (metrics_result failed 0 0 (some (message e))))

  -- Any exception of the upload is a failure of the unit.
  unfoldable pub try_metrics : Exec (UnitResult ⊎ UploadResult)
  try_metrics =
      try_except
        (do
          uploaded ← upload env metrics_spool_file (hostmetrics_key prefix run_ctx.run_dt)
          pure (inr uploaded))
        (except_exception metrics_failed)

  unfoldable pub after_metrics : ℕ → UnitResult ⊎ UploadResult → Exec UnitResult
  after_metrics docs (inl failure) = pure failure
  after_metrics docs (inr uploaded) = do
    unlink env metrics_spool_file
    pure (metrics_result status_ok docs uploaded.bytes_uploaded none)

  unfoldable pub ship_metrics : List MetricRecord → Exec UnitResult
  ship_metrics [] = pure (unit_result "hostmetrics" empty)
  ship_metrics (r ∷ records) = do
    sink ← open_sink env metrics_spool_file
    written ←
        try_except (write_metrics env (r ∷ records) sink)
          (except_exception (λ e. do abort env metrics_spool_file; raise e))
    result ← close_sink env written
    if run_ctx.dry_run
        then (do
          unlink env metrics_spool_file
          pure (metrics_result status_ok (length (r ∷ records)) 0 none))
        else (do uploaded ← try_metrics; after_metrics (length (r ∷ records)) uploaded)
