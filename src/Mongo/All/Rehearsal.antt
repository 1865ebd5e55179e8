-- ===== src/Mongo/All/Rehearsal.antt =====
-- mongo/extract.py: a dry run of a collection, and of all of them, neither ships nor commits anything.
use alteryx_server_maintenan.Prelude.{
  ◌≡◌, String, Bool, true, false, List, [], ◌∷◌, ◌++◌, Result, ok, raised, config_error,
  upload_error, exception, killed,
}
use alteryx_server_maintenan.Config.{CollectionConfig}
use alteryx_server_maintenan.RunnerTypes.{RunContext, UnitResult}
use alteryx_server_maintenan.Sinks.{SinkResult}
use alteryx_server_maintenan.Sinks.Keeping.{unlink-Keeps}
use alteryx_server_maintenan.World.{World, Env}
use alteryx_server_maintenan.World.Exec.{message}
use alteryx_server_maintenan.World.Keeping.{
  Keeps, SameData, SameData-OfStores, >>=-Keeps, pure-Keeps, raise-Keeps, if-Keeps,
  try-exception-Keeps,
}
use alteryx_server_maintenan.Mongo.Watermark.{WatermarkStrategy}
use alteryx_server_maintenan.Mongo.Watermark.Strategies.{Bson, Filter, make_strategy}
use alteryx_server_maintenan.Mongo.Extract.{Mongo, Json, deliver}
use alteryx_server_maintenan.Mongo.Extract.Keeping.{extract_collection-Keeps}
use alteryx_server_maintenan.Mongo.All.{
  is_refused, failed_unit, extract_each, after_connect, extract_all,
}

module _ {Doc Filter St : Type 0} (env : Env) (json : Json Doc)
    (strategy : WatermarkStrategy Doc Filter St) (prefix : String) (cfg : CollectionConfig)
    (run_ctx : RunContext) (db_name : String) (w0 : World) where
  deliver-SameData :
      run_ctx.dry_run ≡ true
      → (st : St) (result : SinkResult)
      → Keeps (SameData w0) (deliver env json strategy prefix cfg run_ctx db_name st result)
  unfolding deliver
  deliver-SameData dry st result =
      if-Keeps run_ctx.dry_run
        (λ _. >>=-Keeps (unlink-Keeps env (SameData-OfStores w0) _) (λ _. pure-Keeps _))
        (λ real. cc)

module _ {Doc Oid : Type 0} (env : Env) (json : Json Doc) (bson : Bson Doc Oid) (prefix : String)
    (run_ctx : RunContext) (db_name : String) (mongo : Mongo Doc (Filter Oid)) (w0 : World) where
  extract_each-SameData :
      run_ctx.dry_run ≡ true
      → (collections : List CollectionConfig) (results : List UnitResult)
      → Keeps
          (SameData w0)
          (extract_each env json bson prefix run_ctx db_name mongo collections results)
  unfolding extract_each
  extract_each-SameData dry [] results = pure-Keeps results
  extract_each-SameData dry (cfg ∷ collections) results =
      >>=-Keeps
        (if-Keeps (is_refused cfg) (λ _. pure-Keeps _)
          (λ _.
            try-exception-Keeps
              (extract_collection-Keeps env json (make_strategy bson cfg) prefix cfg run_ctx db_name
                (SameData-OfStores w0)
                (deliver-SameData env json (make_strategy bson cfg) prefix cfg run_ctx db_name w0
                  dry)
                mongo)
              (λ e. pure-Keeps (failed_unit (message e) cfg))))
        (λ result. extract_each-SameData dry collections (results ++ result ∷ []))

  pub extract_all-SameData :
      run_ctx.dry_run ≡ true
      → (connect : World → Result Bool) (collections : List CollectionConfig)
      → Keeps
          (SameData w0)
          (extract_all env json bson prefix run_ctx db_name mongo connect collections)
  unfolding extract_all after_connect
  extract_all-SameData dry connect collections w = go (connect w) w
    where
      go :
          (r : Result Bool)
          → Keeps
              (SameData w0)
              (after_connect env json bson prefix run_ctx db_name mongo collections r)
      go (ok true) = extract_each-SameData dry collections []
      go (ok false) = pure-Keeps _
      go (raised (config_error s)) = pure-Keeps _
      go (raised (upload_error s)) = pure-Keeps _
      go (raised (exception s)) = pure-Keeps _
      go (raised killed) = raise-Keeps killed
