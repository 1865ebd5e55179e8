-- ===== src/Mongo/All.antt =====
-- mongo-sync-agent/src/mongo_sync_agent/mongo/extract.py: `extract_all`. The connection is what
-- `make_client` and `ping` give: they raise, or say whether the server answers. Closing the client
-- changes nothing that is modelled.
pub mod Isolation
pub mod Rehearsal
pub mod Turns
pub mod Settled
use Prim.Native.String.{◌++◌ as ◌<>◌}
use Prim.Native.String
use alteryx_server_maintenan.Prelude.{
  ℕ, String, Bool, true, false, not, ◌&&◌, ◌||◌, some, List, [], ◌∷◌, ◌++◌, map, str_eq,
  if◌then◌else◌, Result, ok, raised, Exn, config_error, upload_error, exception, killed,
}
use alteryx_server_maintenan.Config.Parse.{is_refused_name}
use alteryx_server_maintenan.Config.{CollectionConfig}
use alteryx_server_maintenan.RunnerTypes.{RunContext, UnitResult, failed}
use alteryx_server_maintenan.World.{World, Env}
use alteryx_server_maintenan.World.Exec.{Exec, pure, ◌>>=◌, try_except, except_exception, message}
use alteryx_server_maintenan.Mongo.Watermark.Strategies.{Bson, Filter, make_strategy}
use alteryx_server_maintenan.Mongo.Extract.{Mongo, Json, extract_collection}

unfoldable pub is_refused : CollectionConfig → Bool
is_refused cfg = is_refused_name cfg.name cfg.allow_gridfs_chunks

abbrev pub refusal : String
refusal = "GridFS .chunks collection skipped (set allow_gridfs_chunks=true to enable)"

abbrev pub failed_unit : String → CollectionConfig → UnitResult
failed_unit error cfg = record {
  unit = cfg.name;
  status = failed;
  docs = 0;
  bytes_uploaded = 0;
  error = some error;
}

module _ {Doc Oid : Type 0} (env : Env) (json : Json Doc) (bson : Bson Doc Oid) (prefix : String)
    (run_ctx : RunContext) (db_name : String) (mongo : Mongo Doc (Filter Oid)) where
  abbrev pub extract_one : CollectionConfig → Exec UnitResult
  extract_one cfg =
      try_except
        (extract_collection env json (make_strategy bson cfg) prefix cfg run_ctx db_name mongo)
        (except_exception (λ e. pure (failed_unit (message e) cfg)))

  -- The loop over the collections.
  unfoldable pub extract_each : List CollectionConfig → List UnitResult → Exec (List UnitResult)
  unfolding is_refused
  extract_each [] results = pure results
  extract_each (cfg ∷ collections) results =
      (if is_refused cfg then pure (failed_unit refusal cfg) else extract_one cfg) >>= λ result.
      extract_each collections (results ++ result ∷ [])

  unfoldable pub after_connect : List CollectionConfig → Result Bool → Exec (List UnitResult)
  unfolding extract_each
  after_connect collections (ok true) = extract_each collections []
  after_connect collections (ok false) = pure (map (failed_unit "MongoDB ping failed") collections)
  after_connect collections (raised (config_error s)) =
      pure (map (failed_unit ("MongoDB connect error: " <> s)) collections)
  after_connect collections (raised (upload_error s)) =
      pure (map (failed_unit ("MongoDB connect error: " <> s)) collections)
  after_connect collections (raised (exception s)) =
      pure (map (failed_unit ("MongoDB connect error: " <> s)) collections)
  after_connect collections (raised killed) = λ w. (raised killed, w)

  unfoldable pub extract_all :
      (World → Result Bool) → List CollectionConfig → Exec (List UnitResult)
  unfolding after_connect
  extract_all connect collections w = after_connect collections (connect w) w
