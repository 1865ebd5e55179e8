-- ===== src/Mongo/Extract/Delivery.antt =====
-- mongo/extract.py: the watermark is advanced only after a confirmed upload, at whatever point the
-- run ends.
use mathlib.Core.Option
use alteryx_server_maintenan.Prelude.{
  ℕ, ◌≡◌, ◌≢◌, refl, ◌∙◌, sym, ap, inr, String, Bool, true, false, Option, none, some, List, [],
  All, ◌≤◌, length, ok,
}
use alteryx_server_maintenan.Prelude.Dict.{lookup, string_key}
use alteryx_server_maintenan.Config.{CollectionConfig}
use alteryx_server_maintenan.RunnerTypes.{
  RunContext, UnitResult, unit_result, status_ok, failed, empty,
}
use alteryx_server_maintenan.S3.{UploadResult}
use alteryx_server_maintenan.Sinks.{ParquetVariantSink, SinkResult}
use alteryx_server_maintenan.Sinks.Laws.{SameStores, IsUploaded, unlink-Post}
use alteryx_server_maintenan.State.{Db, get_watermark, set_watermark}
use alteryx_server_maintenan.State.Atomic.{set_watermark-raised}
use alteryx_server_maintenan.World.{World, Env, parquet, Row}
use alteryx_server_maintenan.World.Rules.{Post, returns, >>=-Post, Post-map, commit-Post}
use alteryx_server_maintenan.Mongo.Watermark.{WatermarkStrategy}
use alteryx_server_maintenan.Mongo.Extract.{
  Cursor, Mongo, Json, check_kind, advance_watermark, after_upload, object_key, spool_file,
  namespace, row_context, result_with,
}
use alteryx_server_maintenan.Mongo.Extract.Sinking.{all_rows}
use alteryx_server_maintenan.Mongo.Extract.Streaming.{Reads, IsSpooledFrom, row_limit}

module _ {Doc Filter St : Type 0} (env : Env) (json : Json Doc)
    (strategy : WatermarkStrategy Doc Filter St) (prefix : String) (cfg : CollectionConfig)
    (run_ctx : RunContext) (db_name : String) where
  abbrev pub spool : String
  spool = spool_file env json strategy prefix cfg run_ctx db_name

  abbrev pub key : String
  key = object_key env json strategy prefix cfg run_ctx db_name

  abbrev pub ns : String
  ns = namespace env json strategy prefix cfg run_ctx db_name

  -- The database after `advance_watermark`.
  pub data Advanced : Option String → Db → Db → Type 0 where
    unchanged : {db : Db} → Advanced none db db
    moved :
        {value : String} {db db' : Db} (fails : ℕ → Bool) (now : String)
        → set_watermark fails now ns strategy.kind value run_ctx.run_id db ≡ (ok tt, db')
        → Advanced (some value) db db'

  -- All that the query of this run found is in the bucket under the key of this run, in row groups
  -- of bounded size, and the watermark is that of these documents.
  pub record IsCommitted (cursor : Cursor Doc) (w w' : World) : Type 0 where
    pub last : St
    pub groups : List (List Row)
    pub complete : cursor.fault ≡ none
    pub reads :
        Reads env json strategy cfg.batch_size
          (row_context env json strategy prefix cfg run_ctx db_name)
          strategy.initial
          cursor.docs
          last
          (all_rows groups)
    pub bounded : All (λ g. length g ≤ row_limit cfg.batch_size) groups
    pub in_bucket : lookup key w'.bucket ≡ some (parquet groups)
    pub others : (k : String) → key ≢ k → lookup k w'.bucket ≡ lookup k w.bucket
    pub watermark : Advanced (strategy.new_watermark last) w.db w'.db

  advance_watermark-Post :
      (o : Option String) (w : World)
      → Post
          (λ _ w'. Advanced o w.db w'.db × (w'.bucket ≡ w.bucket))
          (λ w'. w'.db ≡ w.db)
          (advance_watermark env json strategy prefix cfg run_ctx db_name o w)
  unfolding advance_watermark
  advance_watermark-Post none w = returns (unchanged, refl)
  advance_watermark-Post (some value) w =
      commit-Post _ w refl (λ n db e. (moved _ _ e, refl))
        (λ n e db h.
          set_watermark-raised (env.sql_raises w) (env.now w) ns strategy.kind value run_ctx.run_id
            w.db h)

  module _ (mongo : Mongo Doc Filter) where
    -- What the run asked MongoDB for, from the stored watermark, and what it was given.
    pub record IsQuery (w : World) (cursor : Cursor Doc) : Type 0 where
      pub filter_doc : Filter
      pub kind_matches : check_kind (get_watermark ns w.db) strategy ≡ ok tt
      pub built :
          strategy.build_filter (Option.map (λ w. w.value) (get_watermark ns w.db)) ≡ ok filter_doc
      pub found : mongo.find w cfg.name filter_doc strategy.sort_spec cfg.batch_size ≡ ok cursor

    -- The four ways in which `extract_collection` returns.
    pub data Outcome (w : World) : UnitResult → World → Type 0 where
      nothing_new :
          {w' : World} {cursor : Cursor Doc}
          → IsQuery w cursor
          → cursor.docs ≡ []
          → cursor.fault ≡ none
          → SameStores w w'
          → Outcome w (unit_result cfg.name empty) w'
      rehearsed :
          {w' : World} {cursor : Cursor Doc}
          → IsQuery w cursor
          → run_ctx.dry_run ≡ true
          → SameStores w w'
          → lookup spool w'.spool ≡ none
          → {n : ℕ} → n ≡ length cursor.docs
          → Outcome w
              (result_with env json strategy prefix cfg run_ctx db_name status_ok n 0 none)
              w'
      shipped :
          {w' : World} {cursor : Cursor Doc}
          → IsQuery w cursor
          → run_ctx.dry_run ≡ false
          → IsCommitted cursor w w'
          → lookup spool w'.spool ≡ none
          → {n : ℕ} → n ≡ length cursor.docs
          → {bytes_uploaded : ℕ}
          → Outcome w
              (result_with env json strategy prefix cfg run_ctx db_name status_ok n bytes_uploaded
                none)
              w'
      upload_failed :
          {w' : World} {cursor : Cursor Doc}
          → IsQuery w cursor
          → run_ctx.dry_run ≡ false
          → w'.db ≡ w.db
          → {n : ℕ} → n ≡ length cursor.docs
          → {e : String}
          → Outcome w
              (result_with env json strategy prefix cfg run_ctx db_name failed n 0 (some e))
              w'

    -- What holds wherever the run ends by an exception or a crash.
    pub data IsSafe (w w' : World) : Type 0 where
      not_advanced : w'.db ≡ w.db → IsSafe w w'
      advanced : {cursor : Cursor Doc} → IsQuery w cursor → IsCommitted cursor w w' → IsSafe w w'

    module _ (w : World) (cursor : Cursor Doc) (q : IsQuery w cursor) where
      abbrev pub Spooled : St → ParquetVariantSink → World → Type 0
      Spooled st sink w1 =
          IsSpooledFrom env json strategy cfg.batch_size
            (row_context env json strategy prefix cfg run_ctx db_name) spool cursor st sink w1
          × SameStores w w1

      -- What is known between the end of the Parquet file and the upload.
      pub record IsReady (st : St) (result : SinkResult) (w1 : World) : Type 0 where
        pub groups : List (List Row)
        pub complete : cursor.fault ≡ none
        pub reads :
            Reads env json strategy cfg.batch_size
              (row_context env json strategy prefix cfg run_ctx db_name)
              strategy.initial
              cursor.docs
              st
              (all_rows groups)
        pub bounded : All (λ g. length g ≤ row_limit cfg.batch_size) groups
        pub on_disk : lookup spool w1.spool ≡ some (parquet groups)
        pub counted : result.rows ≡ length cursor.docs
        pub same : SameStores w w1

      pub after_upload-Post :
          (st : St) (result : SinkResult) (w1 : World) (r : IsReady st result w1)
          → run_ctx.dry_run ≡ false
          → (w2 : World) (u : UploadResult) → IsUploaded env key (parquet r.groups) w1 w2
          → Post
              (Outcome w)
              (IsSafe w)
              (after_upload env json strategy prefix cfg run_ctx db_name st result (inr u) w2)
      unfolding after_upload
      after_upload-Post st result w1 r real w2 u up =
          >>=-Post _ _ w2
            (Post-map (advance_watermark-Post (strategy.new_watermark st) w2)
              (λ _ w3 a. committed w3 a) (λ w3 a. not_advanced (a ∙ up.db ∙ r.same.db)))
            λ _ w3 c.
              >>=-Post {P = λ _ w4. (lookup spool w4.spool ≡ none) × IsCommitted cursor w w4} _ _ w3
                (Post-map (unlink-Post env spool w3) (λ _ w4 a. (a.0, moved_on w3 w4 c a.1))
                  (λ w4 a. advanced q (moved_on w3 w4 c a)))
                λ _ w4 a. returns (shipped q real a.1 a.0 r.counted)
        where
          committed :
              (w3 : World)
              → Advanced (strategy.new_watermark st) w2.db w3.db × (w3.bucket ≡ w2.bucket)
              → IsCommitted cursor w w3
          committed w3 a = record {
            last = st;
            groups = r.groups;
            complete = r.complete;
            reads = r.reads;
            bounded = r.bounded;
            in_bucket = rw (a.1) up.in_bucket;
            others = λ k ne. rw (a.1) (up.others k ne ∙ ap (λ b. lookup k b) r.same.bucket);
            watermark = rw (sym (up.db ∙ r.same.db)) a.0;
          }

          moved_on :
              (w3 w4 : World) → IsCommitted cursor w w3 → SameStores w3 w4 → IsCommitted cursor w w4
          moved_on w3 w4 c s = record {
            last = c.last;
            groups = c.groups;
            complete = c.complete;
            reads = c.reads;
            bounded = c.bounded;
            in_bucket = rw (s.bucket) c.in_bucket;
            others = λ k ne. rw (s.bucket) (c.others k ne);
            watermark = rw (s.db) c.watermark;
          }
