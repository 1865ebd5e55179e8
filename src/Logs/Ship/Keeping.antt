-- ===== src/Logs/Ship/Keeping.antt =====
-- ship.py: what a poll of a log source keeps if its delivery does.
use alteryx_server_maintenan.Prelude.Int.{ℤ}
use alteryx_server_maintenan.Prelude.{String, List, [], ◌∷◌, Result}
use alteryx_server_maintenan.Config.{LogSourceConfig}
use alteryx_server_maintenan.RunnerTypes.{RunContext}
use alteryx_server_maintenan.Sinks.{SinkResult}
use alteryx_server_maintenan.Sinks.Keeping.{
  abort-Keeps, open_sink-Keeps, write_records-Keeps, close_sink-Keeps,
}
use alteryx_server_maintenan.Spool.{spool_path}
use alteryx_server_maintenan.World.{World, Env, LogRecord}
use alteryx_server_maintenan.World.Keeping.{
  Keeps, OfStores, >>=-Keeps, asks-Keeps, pure-Keeps, raise-Keeps, try-exception-Keeps,
}
use alteryx_server_maintenan.Logs.Tailer.{Bytes, Text}
use alteryx_server_maintenan.Logs.Sources.{Calendar}
use alteryx_server_maintenan.Logs.Ship.{
  Disk, Gathered, deliver_records, ship_records, after_gather, ship_source,
}

module _ (env : Env) (hexdigest : Bytes → String) (decode : Text → Bytes → Result Text)
    (calendar : Calendar) (disk : Disk) (prefix : String) (run_ctx : RunContext)
    {P : World → Type 0} (c : OfStores P) where
  module _ (source_cfg : LogSourceConfig) (gc_days : ℤ)
      (delivers : (g : Gathered) (result : SinkResult)
        → Keeps P (
            deliver_records env hexdigest decode calendar disk prefix source_cfg run_ctx gc_days g
              result)) where
    ship_records-Keeps :
        (g : Gathered)
        → Keeps P
            (ship_records env hexdigest decode calendar disk prefix source_cfg run_ctx gc_days g)
    unfolding ship_records
    ship_records-Keeps g = >>=-Keeps (open_sink-Keeps env c _) λ sink.
        >>=-Keeps
          (try-exception-Keeps (write_records-Keeps env c g.records sink) (λ e.
            >>=-Keeps (abort-Keeps env c (spool_path run_ctx.spool_dir source_cfg.name "jsonl.gz"))
              (λ _. raise-Keeps e)))
          λ written. >>=-Keeps (close_sink-Keeps env c written) λ result. delivers g result

    after_gather-Keeps :
        (g : Gathered) (records : List LogRecord)
        → Keeps P (
            after_gather env hexdigest decode calendar disk prefix source_cfg run_ctx gc_days g
              records)
    unfolding after_gather
    after_gather-Keeps g [] = pure-Keeps _
    after_gather-Keeps g (r ∷ rs) = ship_records-Keeps g

    -- Up to the delivery, a poll touches neither the database nor the bucket.
    pub ship_source-Keeps :
        Keeps P (ship_source env hexdigest decode calendar disk prefix source_cfg run_ctx gc_days)
    unfolding ship_source
    ship_source-Keeps =
        >>=-Keeps (asks-Keeps _)
          λ state_offsets. >>=-Keeps (asks-Keeps (λ w. _)) λ g. after_gather-Keeps g g.records
