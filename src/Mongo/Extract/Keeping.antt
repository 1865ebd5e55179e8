-- ===== src/Mongo/Extract/Keeping.antt =====
-- mongo/extract.py: what a run over a collection keeps if its delivery does.
use alteryx_server_maintenan.Prelude.{String, ◌==◌}
use alteryx_server_maintenan.Config.{CollectionConfig}
use alteryx_server_maintenan.RunnerTypes.{RunContext}
use alteryx_server_maintenan.Sinks.{ParquetVariantSink, SinkResult, new_sink}
use alteryx_server_maintenan.Sinks.Keeping.{abort-Keeps, close-Keeps}
use alteryx_server_maintenan.World.{World, Env}
use alteryx_server_maintenan.World.Keeping.{
  Keeps, OfStores, >>=-Keeps, asks-Keeps, pure-Keeps, raise-Keeps, if-Keeps, try-exception-Keeps,
}
use alteryx_server_maintenan.World.Rules.{Post-map}
use alteryx_server_maintenan.Mongo.Watermark.{WatermarkStrategy}
use alteryx_server_maintenan.Mongo.Extract.{
  Cursor, Mongo, Json, RowContext, spool_file, read_cursor, abort_and_raise, deliver, finish,
  extract_collection,
}
use alteryx_server_maintenan.Mongo.Extract.Streaming.{read_cursor-Post}

module _ {Doc Filter St : Type 0} (env : Env) (json : Json Doc)
    (strategy : WatermarkStrategy Doc Filter St) (prefix : String) (cfg : CollectionConfig)
    (run_ctx : RunContext) (db_name : String) {P : World → Type 0} (c : OfStores P) where
  read_cursor-Keeps :
      (ctx : RowContext) (cursor : Cursor Doc) (path : String)
      → Keeps P (read_cursor env json strategy cfg.batch_size ctx cursor (new_sink path))
  read_cursor-Keeps ctx cursor path w s =
      Post-map (read_cursor-Post env json strategy cfg.batch_size ctx path cursor w)
        (λ r w' a. c w w' a.1.db a.1.bucket s) (λ w' a. c w w' a.db a.bucket s)

  module _
      (delivers : (st : St) (result : SinkResult)
        → Keeps P (deliver env json strategy prefix cfg run_ctx db_name st result)) where
    finish-Keeps :
        (st : St) (sink : ParquetVariantSink)
        → Keeps P (finish env json strategy prefix cfg run_ctx db_name st sink)
    unfolding finish
    finish-Keeps st sink =
        if-Keeps (sink.rows == 0) (λ _. >>=-Keeps (abort-Keeps env c _) (λ _. pure-Keeps _))
          (λ _. >>=-Keeps (close-Keeps env c sink) (λ result. delivers st result))

    -- Up to the delivery, a run over a collection touches neither the database nor the bucket.
    pub extract_collection-Keeps :
        (mongo : Mongo Doc Filter)
        → Keeps P (extract_collection env json strategy prefix cfg run_ctx db_name mongo)
    unfolding extract_collection abort_and_raise
    extract_collection-Keeps mongo = >>=-Keeps (asks-Keeps _) λ prev.
        >>=-Keeps (asks-Keeps (λ w. _)) λ _. >>=-Keeps (asks-Keeps (λ w. _)) λ filter_doc.
          >>=-Keeps (asks-Keeps _) λ cursor.
            >>=-Keeps
              (try-exception-Keeps (read_cursor-Keeps _ cursor _) (λ e.
                >>=-Keeps
                  (abort-Keeps env c (spool_file env json strategy prefix cfg run_ctx db_name))
                  (λ _. raise-Keeps e)))
              λ read. finish-Keeps read.0 read.1
