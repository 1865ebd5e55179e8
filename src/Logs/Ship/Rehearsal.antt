-- ===== src/Logs/Ship/Rehearsal.antt =====
-- ship.py and runner.py: a dry run of the log sources and of the host metrics neither ships nor
-- commits anything.
use alteryx_server_maintenan.Prelude.Int.{ℤ}
use alteryx_server_maintenan.Prelude.{◌≡◌, String, true, List, [], ◌∷◌, ◌++◌, Result}
use alteryx_server_maintenan.Config.{LogSourceConfig, LogsConfig}
use alteryx_server_maintenan.RunnerTypes.{RunContext, UnitResult}
use alteryx_server_maintenan.Sinks.{SinkResult}
use alteryx_server_maintenan.Sinks.Keeping.{unlink-Keeps}
use alteryx_server_maintenan.World.{World, Env}
use alteryx_server_maintenan.World.Keeping.{
  Keeps, SameData, SameData-OfStores, >>=-Keeps, pure-Keeps, if-Keeps, try-exception-Keeps,
}
use alteryx_server_maintenan.Logs.Tailer.{Bytes, Text}
use alteryx_server_maintenan.Logs.Sources.{Calendar}
use alteryx_server_maintenan.Logs.Ship.Keeping.{ship_source-Keeps}
use alteryx_server_maintenan.Logs.Ship.{
  Disk, Gathered, deliver_records, failed_source, ship_each, ship_all,
}

module _ (env : Env) (hexdigest : Bytes → String) (decode : Text → Bytes → Result Text)
    (calendar : Calendar) (disk : Disk) (prefix : String) (run_ctx : RunContext)
    (dry : run_ctx.dry_run ≡ true) (w0 : World) where
  module _ (source_cfg : LogSourceConfig) (gc_days : ℤ) where
    deliver_records-SameData :
        (g : Gathered) (result : SinkResult)
        → Keeps (SameData w0) (
            deliver_records env hexdigest decode calendar disk prefix source_cfg run_ctx gc_days g
              result)
    unfolding deliver_records
    deliver_records-SameData g result =
        if-Keeps run_ctx.dry_run
          (λ _. >>=-Keeps (unlink-Keeps env (SameData-OfStores w0) _) (λ _. pure-Keeps _))
          (λ real. cc)

  ship_each-SameData :
      (gc_days : ℤ) (sources : List LogSourceConfig) (results : List UnitResult)
      → Keeps
          (SameData w0)
          (ship_each env hexdigest decode calendar disk prefix run_ctx gc_days sources results)
  unfolding ship_each
  ship_each-SameData gc_days [] results = pure-Keeps results
  ship_each-SameData gc_days (source_cfg ∷ sources) results =
      >>=-Keeps
        (try-exception-Keeps
          (ship_source-Keeps env hexdigest decode calendar disk prefix run_ctx
            (SameData-OfStores w0) source_cfg gc_days (deliver_records-SameData source_cfg gc_days))
          (λ e. pure-Keeps (failed_source source_cfg e)))
        (λ result. ship_each-SameData gc_days sources (results ++ result ∷ []))

  pub ship_all-SameData :
      (logs_cfg : LogsConfig)
      → Keeps (SameData w0) (ship_all env hexdigest decode calendar disk prefix run_ctx logs_cfg)
  unfolding ship_all
  ship_all-SameData logs_cfg =
      if-Keeps logs_cfg.enabled (λ _. ship_each-SameData logs_cfg.gc_days logs_cfg.sources [])
        (λ _. pure-Keeps [])
