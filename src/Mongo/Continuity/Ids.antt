-- ===== src/Mongo/Continuity/Ids.antt =====
-- mongo/extract.py with mongo/watermark.py and state.py: from one run of an append-only collection to
-- the query of the next.
use mathlib.Core.Option
use alteryx_server_maintenan.Prelude.{
  ℕ, ◌+◌, ◌-◌, ◌*◌, ◌≢◌, ltb, ◌≤◌, ◌<◌, ◌≡◌, sym, ap, ◌∙◌, String, Option, none, some, List, ok,
  ok_injective,
}
use mathlib.Core.Path.{subst}
use mathlib.Core.List.{Memᴰ}
use alteryx_server_maintenan.Prelude.Dict.{string_key}
use alteryx_server_maintenan.Prelude.Int.{pos}
use alteryx_server_maintenan.Config.{CollectionConfig}
use alteryx_server_maintenan.RunnerTypes.{RunContext}
use alteryx_server_maintenan.State.{get_watermark}
use alteryx_server_maintenan.World.{World, Env}
use alteryx_server_maintenan.World.Rules.{Post}
use alteryx_server_maintenan.Mongo.Watermark.{WatermarkStrategy}
use alteryx_server_maintenan.Mongo.Watermark.Strategies.{Bson, Filter, above, object_id_watermark}
use alteryx_server_maintenan.Mongo.Watermark.Maximum.{
  Greatest, greatest, values, oid_of, observe_each-Greatest_id,
}
use alteryx_server_maintenan.Mongo.Watermark.Overlap.{IsOrdered, build_filter-above}
use alteryx_server_maintenan.Mongo.Extract.{Cursor, Mongo, Json, extract_collection}
use alteryx_server_maintenan.Mongo.Extract.Delivery.{IsCommitted, IsQuery, ns}
use alteryx_server_maintenan.Mongo.Continuity.Steps.{
  Memᴰ-values, Stored, IsCommitted-observed, IsCommitted-Stored, Next, again, further,
  every_end-Next,
}

module _ {Doc Oid : Type 0} (env : Env) (json : Json Doc) (bson : Bson Doc Oid) (prefix : String)
    (cfg : CollectionConfig) (run_ctx : RunContext) (db_name : String)
    (mongo : Mongo Doc (Filter Oid)) (s : ℕ) (rank : Oid → ℕ) where
  abbrev pub strategy : WatermarkStrategy Doc (Filter Oid) (Option Oid)
  strategy = object_id_watermark bson cfg

  abbrev name : String
  name = ns env json strategy prefix cfg run_ctx db_name

  -- ObjectIds are compared by a rank; those of the collection are not so early that the overlap leads
  -- before the first instant, and `from_datetime` takes what it leads to.
  pub record HasIds : Type 0 where
    pub ordered : IsOrdered bson cfg rank
    pub compared : (a b : Oid) → bson.is_above a b ≡ some (ltb (rank b) (rank a))
    pub late_enough :
        (doc : Doc) (m : Oid) → oid_of bson cfg doc ≡ some m → s * 1000000 ≤ bson.generation_time m
    pub accepted :
        (doc : Doc) (m : Oid)
        → oid_of bson cfg doc ≡ some m
        → (lb : Oid) × (bson.from_datetime (bson.generation_time m - s * 1000000) ≡ ok lb)

  -- The next run asks for the `_id`s above `bound`, below which none is that was generated not further
  -- than the overlap before the greatest of the documents.
  pub record Resumes (docs : List Doc) (w : World) : Type 0 where
    pub last_id : Oid
    pub of_run : Greatest rank (values (oid_of bson cfg) docs) (some last_id)
    pub bound : Oid
    pub asks :
        strategy.build_filter (Option.map (λ w. w.value) (get_watermark name w.db))
        ≡ ok (above bound)
    pub covers :
        (a : Oid)
        → bson.generation_time last_id ≤ bson.generation_time a + s * 1000000
        → a ≢ bound
        → rank bound < rank a

  abbrev pub NextRun : World → World → Type 0
  NextRun = Next env json strategy prefix cfg run_ctx db_name mongo Resumes

  -- The watermark that is stored for an `_id` is read back and gives the filter.
  stored-Resumes :
      HasIds
      → cfg.overlap_seconds ≡ pos s
      → (docs : List Doc) (w : World) (m : Oid)
      → Greatest rank (values (oid_of bson cfg) docs) (some m)
      → Option.map (λ w. w.value) (get_watermark name w.db) ≡ strategy.new_watermark (some m)
      → Resumes docs w
  stored-Resumes ids overlap docs w m g e =
      let (doc, at) = Memᴰ-values (oid_of bson cfg) docs (found g) in
      let (lb, taken) = ids.accepted doc m at in
      let (asks, covers) =
        build_filter-above bson cfg rank m lb s ids.ordered overlap (ids.late_enough doc m at)
          taken in
      record {
        last_id = m;
        of_run = g;
        bound = lb;
        asks = ap strategy.build_filter e ∙ asks;
        covers = covers;
      }
    where
      found : {m : Oid} {xs : List Oid} → Greatest rank xs (some m) → Memᴰ m xs
      found (greatest h all) = h

  committed-Next :
      HasIds
      → cfg.overlap_seconds ≡ pos s
      → (w w' : World) (cursor : Cursor Doc)
      → IsQuery env json strategy prefix cfg run_ctx db_name mongo w cursor
      → IsCommitted env json strategy prefix cfg run_ctx db_name cursor w w'
      → NextRun w w'
  unfolding object_id_watermark
  committed-Next ids overlap w w' cursor q c =
      let (st, seen, g) = observe_each-Greatest_id bson cfg rank ids.compared cursor.docs in
      let observed = IsCommitted-observed env json strategy prefix cfg run_ctx db_name c in
      go st g (ok_injective (sym observed ∙ seen))
    where
      stored :
          (st : Option Oid)
          → c.last ≡ st
          → Stored env json strategy prefix cfg run_ctx db_name (strategy.new_watermark st) w w'
      stored st e =
          subst
            (λ o.
              Stored env json strategy prefix cfg run_ctx db_name (strategy.new_watermark o) w w')
            e (IsCommitted-Stored env json strategy prefix cfg run_ctx db_name c)

      go :
          (st : Option Oid)
          → Greatest rank (values (oid_of bson cfg) cursor.docs) st
          → c.last ≡ st
          → NextRun w w'
      go none g e = again (ap (get_watermark name) (stored none e))
      go (some m) g e =
          further q c (stored-Resumes ids overlap cursor.docs w' m g (stored (some m) e))

  -- From one run of an append-only collection to the next, where its `_id`s are ObjectIds that have an
  -- order: however the run ends, by a return, an exception or a crash, the watermark is as it was, so
  -- that the next run asks the same; or all documents that the run found are in the bucket, and the
  -- next run asks for the `_id`s above a bound, which each `_id` is that was generated not further
  -- than the overlap before the greatest of these documents, but for the bound itself.
  pub extract_collection-NextIds :
      HasIds
      → cfg.overlap_seconds ≡ pos s
      → (w : World)
      → Post
          (λ u w'. NextRun w w')
          (NextRun w)
          (extract_collection env json strategy prefix cfg run_ctx db_name mongo w)
  extract_collection-NextIds ids overlap w =
      every_end-Next env json strategy prefix cfg run_ctx db_name mongo Resumes
        (committed-Next ids overlap) w
