-- ===== src/Mongo/Extract/Safety.antt =====
-- mongo/extract.py: every way in which `extract_collection` ends, crashes included.
use alteryx_server_maintenan.Prelude.Int.{ℤ}
use alteryx_server_maintenan.Prelude.{
  suc, ◌≡◌, refl, ◌∙◌, sym, ap, ◌⊎◌, inl, inr, String, false, Bool-cases, none, some, List, [], ◌∷◌,
  arith, length, ◌==◌, Exn,
}
use alteryx_server_maintenan.Prelude.Dict.{lookup, string_key}
use alteryx_server_maintenan.Config.{CollectionConfig}
use alteryx_server_maintenan.RunnerTypes.{RunContext, UnitResult}
use alteryx_server_maintenan.S3.{UploadResult}
use alteryx_server_maintenan.Sinks.{ParquetVariantSink, SinkResult}
use alteryx_server_maintenan.Sinks.Laws.{
  SameStores, SameStores-trans, IsUploaded, upload-Post, unlink-Post, abort-Post, close-Post,
}
use alteryx_server_maintenan.World.{World, Env, parquet, Row}
use alteryx_server_maintenan.World.Rules.{
  Post, returns, raises, >>=-Post, lift->>=-Post, Post-map, try-exception-Post,
  try-upload_error-Post, branch-Post, asks->>=-Post, select->>=-Post,
}
use alteryx_server_maintenan.Mongo.Watermark.{WatermarkStrategy}
use alteryx_server_maintenan.Mongo.Extract.{
  Cursor, Mongo, Json, abort_and_raise, after_upload, try_upload, deliver, finish,
  extract_collection, row_context,
}
use alteryx_server_maintenan.Mongo.Extract.Sinking.{all_rows}
use alteryx_server_maintenan.Mongo.Extract.Streaming.{Reads, nothing, one, read_cursor-Post}
use alteryx_server_maintenan.Mongo.Extract.Delivery.{
  IsQuery, Outcome, nothing_new, rehearsed, upload_failed, IsSafe, not_advanced, IsReady,
  after_upload-Post, spool, key, Spooled,
}

-- The handler never returns, and leaves the stores.
abort_and_raise-Post :
    {A : Type 0} (env : Env) (path : String) (e : Exn) (w : World)
    → Post {A = A} (λ _ _. ⊥) (SameStores w) (abort_and_raise env path e w)
unfolding abort_and_raise
abort_and_raise-Post env path e w = >>=-Post _ _ w (abort-Post env path w) (λ _ w' a. raises a)

module _ {Doc Filter St : Type 0} (env : Env) (json : Json Doc)
    (strategy : WatermarkStrategy Doc Filter St) (prefix : String) (cfg : CollectionConfig)
    (run_ctx : RunContext) (db_name : String) where
  length-Reads :
      {batch_size : ℤ} {ctx : _} {st st' : St} {docs : List Doc} {rows : List Row}
      → Reads env json strategy batch_size ctx st docs st' rows
      → length rows ≡ length docs
  length-Reads nothing = refl
  length-Reads (one o r h) = ap suc (length-Reads h)

  module _ (mongo : Mongo Doc Filter) (w : World) (cursor : Cursor Doc)
      (q : IsQuery env json strategy prefix cfg run_ctx db_name mongo w cursor) where
    abbrev Returned : UnitResult → World → Type 0
    Returned = Outcome env json strategy prefix cfg run_ctx db_name mongo w

    abbrev Ended : World → Type 0
    Ended = IsSafe env json strategy prefix cfg run_ctx db_name mongo w

    abbrev Ready : St → SinkResult → World → Type 0
    Ready = IsReady env json strategy prefix cfg run_ctx db_name mongo w cursor q

    -- The result of the `try` of the upload: the failure of its handler, or a confirmed upload.
    abbrev Tried :
        {st : St} {result : SinkResult} {w1 : World}
        → Ready st result w1
        → UnitResult ⊎ UploadResult
        → World
        → Type 0
    Tried r (inl u) w2 = Returned u w2
    Tried {w1 = w1} r (inr u) w2 =
        IsUploaded env (key env json strategy prefix cfg run_ctx db_name) (parquet r.groups) w1 w2

    try_upload-Post :
        (st : St) (result : SinkResult) (w1 : World) (r : Ready st result w1)
        → run_ctx.dry_run ≡ false
        → Post (Tried r) Ended (try_upload env json strategy prefix cfg run_ctx db_name result w1)
    unfolding try_upload
    try_upload-Post st result w1 r real =
        try-upload_error-Post {S = λ w2. w2.db ≡ w.db} _ _ w1
          (>>=-Post _ _ w1
            (Post-map (upload-Post env _ _ (parquet r.groups) w1 r.on_disk) (λ u w2 a. a)
              (λ w2 a. a ∙ r.same.db))
            (λ u w2 a. returns a))
          (λ w2 a. not_advanced a)
          (λ e w2 a.
            >>=-Post {P = λ _ w3. w3.db ≡ w.db} _ _ w2
              (Post-map (abort-Post env _ w2) (λ _ w3 b. b.db ∙ a)
                (λ w3 b. not_advanced (b.db ∙ a)))
              (λ _ w3 b. returns (upload_failed q real b r.counted)))

    deliver-Post :
        (st : St) (result : SinkResult) (w1 : World)
        → Ready st result w1
        → Post Returned Ended (deliver env json strategy prefix cfg run_ctx db_name st result w1)
    unfolding deliver
    deliver-Post st result w1 r =
        branch-Post run_ctx.dry_run _ _ w1
          (λ dry.
            >>=-Post
              {P = λ _ w2.
                (lookup (spool env json strategy prefix cfg run_ctx db_name) w2.spool ≡ none)
                × SameStores w w2}
              _ _ w1
              (Post-map (unlink-Post env _ w1) (λ _ w2 a. (a.0, SameStores-trans r.same a.1))
                (λ w2 a. not_advanced (a.db ∙ r.same.db)))
              (λ _ w2 a. returns (rehearsed q dry a.1 a.0 r.counted)))
          (λ real.
            >>=-Post _ _ w1 (try_upload-Post st result w1 r real)
              λ t w2 a. tried st result w1 r real t w2 a)
      where
        tried :
            (st : St) (result : SinkResult) (w1 : World) (r : Ready st result w1)
            → run_ctx.dry_run ≡ false
            → (t : UnitResult ⊎ UploadResult) (w2 : World) → Tried r t w2
            → Post Returned Ended
                (after_upload env json strategy prefix cfg run_ctx db_name st result t w2)
        tried st result w1 r real (inl u) w2 a = unfold after_upload in returns a
        tried st result w1 r real (inr u) w2 a =
            after_upload-Post env json strategy prefix cfg run_ctx db_name mongo w cursor q st
              result w1 r real w2 u a

    abbrev Spooling : St → ParquetVariantSink → World → Type 0
    Spooling = Spooled env json strategy prefix cfg run_ctx db_name mongo w cursor q

    -- A sink that counts no row was shown no document.
    no_docs :
        (st : St) (sink : ParquetVariantSink) (w1 : World)
        → Spooling st sink w1
        → sink.rows ≡ 0
        → cursor.docs ≡ []
    no_docs st sink w1 (a, same) z =
        empty_of_length cursor.docs (sym (length-Reads a.reads) ∙ sym a.spooled.rows_counted ∙ z)
      where
        empty_of_length : (ds : List Doc) → length ds ≡ 0 → ds ≡ []
        empty_of_length [] e = refl
        empty_of_length (d ∷ ds) e = absurd (omega arith)

    -- A sink that counts a row has its file open, and the rows are in the file.
    pub sink-on_disk :
        (st : St) (sink : ParquetVariantSink) (w1 : World) (s : Spooling st sink w1)
        → (sink.rows == 0) ≡ false
        → lookup (spool env json strategy prefix cfg run_ctx db_name) w1.spool
          ≡ some (parquet s.0.groups)
    sink-on_disk st sink w1 (a, same) nz = elim (Bool-cases sink.is_open) [
      | inl e ↦ a.spooled.in_file e
      | inr e ↦
          let none_written : sink.rows ≡ 0 =
            a.spooled.rows_counted ∙ ap (λ gs. length (all_rows gs)) (a.spooled.untouched e) in
          absurd (ground arith)
    ]

    finish-Post :
        (st : St) (sink : ParquetVariantSink) (w1 : World)
        → Spooling st sink w1
        → Post Returned Ended (finish env json strategy prefix cfg run_ctx db_name st sink w1)
    unfolding finish
    finish-Post st sink w1 s =
        branch-Post (sink.rows == 0) _ _ w1
          (λ z.
            >>=-Post _ _ w1
              (Post-map (abort-Post env _ w1) (λ _ w2 a. SameStores-trans s.1 a)
                (λ w2 a. not_advanced (a.db ∙ s.1.db)))
              (λ _ w2 a.
                returns (nothing_new q (no_docs st sink w1 s (ground arith)) s.0.complete a)))
          (λ nz.
            >>=-Post {P = λ result w2. Ready st result w2} _ _ w1
              (Post-map (close-Post env sink w1)
                (λ result w2 a. record {
                  groups = s.0.groups;
                  complete = s.0.complete;
                  reads = s.0.reads;
                  bounded = s.0.spooled.bounded;
                  on_disk = rw (a.1) (sink-on_disk st sink w1 s nz);
                  counted = a.0 ∙ s.0.spooled.rows_counted ∙ length-Reads s.0.reads;
                  same = SameStores-trans s.1 a.2;
                })
                (λ w2 a. not_advanced (a.db ∙ s.1.db)))
              (λ result w2 r. deliver-Post st result w2 r))

  -- Whatever MongoDB, the disk, SQLite and S3 do, and wherever the process dies, a run over one
  -- collection ends in one of these ways. It returns `empty`: the query found no document, and the
  -- database and the bucket are as they were. It returns `ok` from a dry run: these are as they were
  -- too. It returns `ok`: all documents that the query found are, once each and in order, in the
  -- object of this run in the bucket, no other object has changed, the watermark of the collection
  -- is that of these documents, and the spool file is gone. It returns `failed`: the upload was
  -- not confirmed and the database is as it was. It raises or dies: the database is as it was, or
  -- object and watermark are as after `ok`.
  pub extract_collection-Outcome :
      (mongo : Mongo Doc Filter) (w : World)
      → Post
          (Outcome env json strategy prefix cfg run_ctx db_name mongo w)
          (IsSafe env json strategy prefix cfg run_ctx db_name mongo w)
          (extract_collection env json strategy prefix cfg run_ctx db_name mongo w)
  unfolding extract_collection
  extract_collection-Outcome mongo w = select->>=-Post _ _ _ w (not_advanced refl) (
      lift->>=-Post _ _ w (not_advanced refl) λ _ kind_matches.
        lift->>=-Post _ _ w (not_advanced refl) λ filter_doc built.
          asks->>=-Post _ _ w (not_advanced refl) λ cursor found.
            let q : IsQuery env json strategy prefix cfg run_ctx db_name mongo w cursor = record {
              filter_doc = filter_doc;
              kind_matches = kind_matches;
              built = built;
              found = found;
            } in
            >>=-Post _ _ w
              (try-exception-Post {S = SameStores w} _ (abort_and_raise env _) w
                (Post-map
                  (read_cursor-Post env json strategy cfg.batch_size
                    (row_context env json strategy prefix cfg run_ctx db_name)
                    (spool env json strategy prefix cfg run_ctx db_name) cursor w)
                  (λ r w1 a. a) (λ w1 a. a))
                (λ w1 a. not_advanced a.db)
                (λ e w1 a.
                  Post-map (abort_and_raise-Post env _ e w1) (λ r w2 b. absurd b)
                    (λ w2 b. not_advanced (b.db ∙ a.db))))
              λ r w1 s. finish-Post mongo w cursor q r.0 r.1 w1 s)
