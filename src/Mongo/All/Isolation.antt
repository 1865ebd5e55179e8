-- ===== src/Mongo/All/Isolation.antt =====
-- extract.py: a collection that fails does not keep the others from being extracted.
use mathlib.Core.Path.{subst}
use mathlib.Core.List.{map-append}
use alteryx_server_maintenan.Prelude.{
  ◌≡◌, refl, sym, ap, String, Bool, true, false, List, [], ◌∷◌, ◌++◌, map, append-nil, append_assoc,
  Result, ok, raised, config_error, upload_error, exception, killed, if◌then◌else◌,
}
use alteryx_server_maintenan.Config.{CollectionConfig}
use alteryx_server_maintenan.RunnerTypes.{RunContext, UnitResult}
use alteryx_server_maintenan.World.{World, Env}
use alteryx_server_maintenan.World.Exec.{pure, ◌>>=◌, try_except, message}
use alteryx_server_maintenan.World.Rules.{Post-map}
use alteryx_server_maintenan.World.Isolation.{
  IsIsolated, completed, died, IsOne, one, handle-IsOne, continue-IsIsolated,
}
use alteryx_server_maintenan.Mongo.Watermark.Strategies.{Bson, Filter, make_strategy}
use alteryx_server_maintenan.Mongo.Extract.{Mongo, Json, extract_collection}
use alteryx_server_maintenan.Mongo.Extract.Delivery.{
  Outcome, nothing_new, rehearsed, shipped, upload_failed,
}
use alteryx_server_maintenan.Mongo.Extract.Safety.{extract_collection-Outcome}
use alteryx_server_maintenan.Mongo.All.{
  is_refused, failed_unit, extract_one, extract_each, after_connect, extract_all,
}

abbrev names : List CollectionConfig → List String
names collections = map (λ (c : CollectionConfig). c.name) collections

abbrev units : List UnitResult → List String
units results = map (λ (u : UnitResult). u.unit) results

all_failed :
    (error : String) (collections : List CollectionConfig)
    → units (map (failed_unit error) collections) ≡ names collections
all_failed error [] = refl
all_failed error (c ∷ collections) =
    ap (λ (l : List String). c.name ∷ l) (all_failed error collections)

module _ {Doc Oid : Type 0} (env : Env) (json : Json Doc) (bson : Bson Doc Oid) (prefix : String)
    (run_ctx : RunContext) (db_name : String) (mongo : Mongo Doc (Filter Oid)) where
  unit-Outcome :
      (cfg : CollectionConfig) (w : World) {u : UnitResult} {w' : World}
      → Outcome env json (make_strategy bson cfg) prefix cfg run_ctx db_name mongo w u w'
      → u.unit ≡ cfg.name
  unit-Outcome cfg w (nothing_new q d f s) = refl
  unit-Outcome cfg w (rehearsed q d s l n) = refl
  unit-Outcome cfg w (shipped q d s l n) = refl
  unit-Outcome cfg w (upload_failed q d s n) = refl

  extract_one-IsOne :
      (b : Bool) (error : String) (cfg : CollectionConfig) (w : World)
      → IsOne cfg.name
          ((if b
              then pure (failed_unit error cfg)
              else extract_one env json bson prefix run_ctx db_name mongo cfg)
            w).0
  unfolding try_except
  extract_one-IsOne true error cfg w = one refl
  extract_one-IsOne false error cfg w =
      handle-IsOne cfg.name (λ e. failed_unit (message e) cfg)
        (extract_collection env json (make_strategy bson cfg) prefix cfg run_ctx db_name mongo w)
        (λ e. refl)
        (Post-map
          (extract_collection-Outcome env json (make_strategy bson cfg) prefix cfg run_ctx db_name
            mongo w)
          (λ u w' o. unit-Outcome cfg w o) (λ w' h. h))

  extract_each-IsIsolated :
      (collections : List CollectionConfig) (results : List UnitResult) (w : World)
      → IsIsolated
          (units results ++ names collections)
          (extract_each env json bson prefix run_ctx db_name mongo collections results w).0
  unfolding extract_each ◌>>=◌
  extract_each-IsIsolated [] results w = completed (sym (append-nil _))
  extract_each-IsIsolated (c ∷ collections) results w =
      continue-IsIsolated c.name (units results) (names collections)
        ((if is_refused c
            then pure (
                failed_unit
                  "GridFS .chunks collection skipped (set allow_gridfs_chunks=true to enable)" c)
            else extract_one env json bson prefix run_ctx db_name mongo c)
          w)
        (λ u.
          extract_each env json bson prefix run_ctx db_name mongo collections (results ++ u ∷ []))
        (extract_one-IsOne (is_refused c) _ c w)
        (λ u w' e.
          subst
            (λ l.
              IsIsolated l
                (extract_each env json bson prefix run_ctx db_name mongo collections
                  (results ++ u ∷ []) w').0)
            (rw (map-append (λ (u : UnitResult). u.unit) results (u ∷ []), e)
              (append_assoc (units results) (c.name ∷ []) (names collections)))
            (extract_each-IsIsolated collections (results ++ u ∷ []) w'))

  -- Whatever raises while a collection is extracted or the connection is made, `extract_all` raises
  -- nothing: it returns one result for each collection, in the order of the configuration, refused
  -- and failed ones included, unless the process dies.
  pub extract_all-IsIsolated :
      (connect : World → Result Bool) (collections : List CollectionConfig) (w : World)
      → IsIsolated
          (names collections)
          (extract_all env json bson prefix run_ctx db_name mongo connect collections w).0
  unfolding extract_all after_connect
  extract_all-IsIsolated connect collections w = go (connect w)
    where
      go :
          (r : Result Bool)
          → IsIsolated
              (names collections)
              (after_connect env json bson prefix run_ctx db_name mongo collections r w).0
      go (ok true) = extract_each-IsIsolated collections [] w
      go (ok false) = completed (all_failed _ collections)
      go (raised (config_error s)) = completed (all_failed _ collections)
      go (raised (upload_error s)) = completed (all_failed _ collections)
      go (raised (exception s)) = completed (all_failed _ collections)
      go (raised killed) = died
