-- ===== src/Mongo/Extract/Completes.antt =====
-- mongo/extract.py: a run returns with a good status where nothing goes wrong.
use mathlib.Core.Path.{subst}
use alteryx_server_maintenan.Prelude.{
  ℕ, ◌+◌, ◌*◌, ◌≤◌, ◌≡◌, ◌≢◌, refl, sym, ap, ◌∙◌, String, Option, none, some, ◌==◌, length, arith,
  inr, ok, ok_injective,
}
use alteryx_server_maintenan.Prelude.Dict.{lookup, string_key}
use alteryx_server_maintenan.Config.{CollectionConfig}
use alteryx_server_maintenan.RunnerTypes.{RunContext, UnitResult, failed}
use alteryx_server_maintenan.S3.{UploadResult}
use alteryx_server_maintenan.Sinks.{ParquetVariantSink, SinkResult, new_sink}
use alteryx_server_maintenan.Sinks.Laws.{close-Post}
use alteryx_server_maintenan.State.Atomic.{operations_total}
use alteryx_server_maintenan.World.{World, Env, Content}
use alteryx_server_maintenan.World.Rules.{
  returns, >>=-Post, Post-map, Post-both, Post-ok, branch-Post,
}
use alteryx_server_maintenan.World.Total.{
  select->>=-Returns, IsQuiet, Returns, Returns-ok, Lives, commit-Returns, lift->>=-Returns,
  asks->>=-Returns, try-exception-Returns, try-upload_error-Returns,
}
use alteryx_server_maintenan.Mongo.Watermark.{WatermarkStrategy}
use alteryx_server_maintenan.Mongo.Extract.{
  Cursor, Mongo, Json, advance_watermark, after_upload, try_upload, deliver, finish,
  extract_collection, abort_and_raise, row_context,
}
use alteryx_server_maintenan.Mongo.Extract.Streaming.{read_cursor-Post}
use alteryx_server_maintenan.Mongo.Extract.Delivery.{
  IsQuery, Outcome, nothing_new, rehearsed, shipped, upload_failed, Spooled, spool,
}
use alteryx_server_maintenan.Mongo.Extract.Safety.{sink-on_disk, extract_collection-Outcome}
use alteryx_server_maintenan.Sinks.Total.{
  unlink-Returns, abort-Returns, close-Returns, upload-Returns,
}
use alteryx_server_maintenan.Mongo.Extract.Total.{IsAccepting, read_cursor-Returns}

module _ {Doc Filter St : Type 0} (env : Env) (json : Json Doc)
    (strategy : WatermarkStrategy Doc Filter St) (quiet : IsQuiet env)
    (accepting : IsAccepting json strategy) (prefix : String) (cfg : CollectionConfig)
    (run_ctx : RunContext) (db_name : String) where
  abbrev Good : ℕ → UnitResult → World → Type 0
  Good n u w = (u.status ≢ failed) × Lives n w

  advance_watermark-Returns :
      (n : ℕ) (o : Option String) (w : World)
      → Lives (n + 1) w
      → Returns
          (λ _ w'. Lives n w')
          (advance_watermark env json strategy prefix cfg run_ctx db_name o w)
  unfolding advance_watermark
  advance_watermark-Returns n none w l = returns (omega arith)
  advance_watermark-Returns n (some value) w l =
      commit-Returns n _ w
        ((operations_total (env.sql_raises w) (env.now w) (quiet.sql w) w.db).0 _ _ value _) l
        (λ c m. m)

  try_upload-Returns :
      (n : ℕ) (result : SinkResult) (w : World) {c : Content}
      → lookup (spool env json strategy prefix cfg run_ctx db_name) w.spool ≡ some c
      → Lives (n + 1) w
      → Returns
          (λ t w'. ((up : UploadResult) × (t ≡ inr up)) × Lives n w')
          (try_upload env json strategy prefix cfg run_ctx db_name result w)
  unfolding try_upload
  try_upload-Returns n result w e l =
      try-upload_error-Returns _ _ w
        (>>=-Post _ _ w (upload-Returns env quiet n _ _ w e l) (λ u w' m. returns ((u, refl), m)))

  after_upload-Returns :
      (n : ℕ) (st : St) (result : SinkResult) (up : UploadResult) (w : World)
      → Lives (n + 2) w
      → Returns
          (Good n)
          (after_upload env json strategy prefix cfg run_ctx db_name st result (inr up) w)
  unfolding after_upload
  after_upload-Returns n st result up w l =
      >>=-Post _ _ w (advance_watermark-Returns (n + 1) (strategy.new_watermark st) w (omega arith))
        (λ _ w' m.
          >>=-Post _ _ w' (unlink-Returns env quiet n _ w' m) (λ _ w'' k. returns ((λ e. cc), k)))

  deliver-Returns :
      (n : ℕ) (st : St) (result : SinkResult) (w : World) {c : Content}
      → lookup (spool env json strategy prefix cfg run_ctx db_name) w.spool ≡ some c
      → Lives (n + 3) w
      → Returns (Good n) (deliver env json strategy prefix cfg run_ctx db_name st result w)
  unfolding deliver
  deliver-Returns n st result w e l =
      branch-Post run_ctx.dry_run _ _ w
        (λ dry.
          >>=-Post _ _ w (unlink-Returns env quiet n _ w (omega arith))
            (λ _ w' m. returns ((λ e. cc), m)))
        (λ real.
          >>=-Post _ _ w (try_upload-Returns (n + 2) result w e (omega arith)) (λ t w' (up, m).
            subst
              (λ t.
                Returns (Good n)
                  (after_upload env json strategy prefix cfg run_ctx db_name st result t w'))
              (sym (up.1)) (after_upload-Returns n st result up.0 w' m)))

  module _ (mongo : Mongo Doc Filter) (w : World) (cursor : Cursor Doc)
      (q : IsQuery env json strategy prefix cfg run_ctx db_name mongo w cursor) where
    finish-Returns :
        (n : ℕ) (st : St) (sink : ParquetVariantSink) (w1 : World)
        → Spooled env json strategy prefix cfg run_ctx db_name mongo w cursor q st sink w1
        → Lives (n + 4) w1
        → Returns (Good n) (finish env json strategy prefix cfg run_ctx db_name st sink w1)
    unfolding finish
    finish-Returns n st sink w1 s l =
        branch-Post (sink.rows == 0) _ _ w1
          (λ z.
            >>=-Post _ _ w1 (abort-Returns env quiet n _ w1 (omega arith))
              (λ _ w2 m. returns ((λ e. cc), m)))
          (λ nz.
            >>=-Post {P = λ _ w2. (w2.spool ≡ w1.spool) × Lives (n + 3) w2} _ _ w1
              (Post-map
                (Post-both (close-Post env sink w1)
                  (close-Returns env quiet (n + 3) sink w1 (omega arith)))
                (λ r w2 a. (a.0.1, a.1)) (λ w2 a. a.1))
              (λ result w2 (kept, m).
                deliver-Returns n st result w2
                  (ap (λ f. lookup (spool env json strategy prefix cfg run_ctx db_name) f) kept
                    ∙ sink-on_disk env json strategy prefix cfg run_ctx db_name mongo w cursor q st
                        sink w1 s nz)
                  m))

    -- The result of a run in which nothing goes wrong.
    pub record Completes (u : UnitResult) (w' : World) : Type 0 where
      pub good : u.status ≢ failed
      pub counted : u.docs ≡ length cursor.docs
      pub outcome : Outcome env json strategy prefix cfg run_ctx db_name mongo w u w'

    run-Returns :
        cursor.fault ≡ none
        → Lives (2 * length cursor.docs + 6) w
        → Returns (Good 0) (extract_collection env json strategy prefix cfg run_ctx db_name mongo w)
    unfolding extract_collection
    run-Returns whole l = select->>=-Returns _ _ _ w (quiet.selects w) (
        lift->>=-Returns _ _ w q.kind_matches (
          lift->>=-Returns _ _ w q.built (
            asks->>=-Returns _ _ w q.found (
              >>=-Post _ _ w
                (try-exception-Returns _ (abort_and_raise env _) w (
                  Post-map
                    (Post-both
                      (read_cursor-Post env json strategy cfg.batch_size
                        (row_context env json strategy prefix cfg run_ctx db_name)
                        (spool env json strategy prefix cfg run_ctx db_name) cursor w)
                      (read_cursor-Returns env json strategy quiet accepting cfg.batch_size
                        (row_context env json strategy prefix cfg run_ctx db_name) 4 cursor
                        (new_sink (spool env json strategy prefix cfg run_ctx db_name)) w whole l))
                    (λ r w1 a. a) (λ w1 a. a.1)))
                (λ r w1 (s, m). finish-Returns 0 r.0 r.1 w1 s m)))))

    same_cursor :
        {other : Cursor Doc}
        → IsQuery env json strategy prefix cfg run_ctx db_name mongo w other
        → other ≡ cursor
    same_cursor r =
        let same : r.filter_doc ≡ q.filter_doc = ok_injective (sym r.built ∙ q.built) in
        ok_injective (
          sym r.found
          ∙ ap (λ f. mongo.find w cfg.name f strategy.sort_spec cfg.batch_size) same
          ∙ q.found)

    length-docs :
        {other : Cursor Doc} {n : ℕ}
        → IsQuery env json strategy prefix cfg run_ctx db_name mongo w other
        → n ≡ length other.docs
        → n ≡ length cursor.docs
    length-docs r e = e ∙ ap (λ (c : Cursor Doc). length c.docs) (same_cursor r)

    outcome-counted :
        {u : UnitResult} {w' : World}
        → Outcome env json strategy prefix cfg run_ctx db_name mongo w u w'
        → u.docs ≡ length cursor.docs
    outcome-counted (nothing_new r none_found f same) =
        length-docs r (sym (ap (λ ds. length ds) none_found))
    outcome-counted (rehearsed r dry same l e) = length-docs r e
    outcome-counted (shipped r d c l e) = length-docs r e
    outcome-counted (upload_failed r d same e) = length-docs r e

    -- Where the disk and SQLite raise nothing, S3 stores what it is given, every document is accepted,
    -- the watermark is of the kind of the strategy, MongoDB answers the query with a cursor that ends
    -- without a fault, and the process lives for two effects for each document and six more: the run
    -- returns, its status is not `failed`, its count is that of the documents of the cursor, and it
    -- has ended in one of its ways to return.
    pub extract_collection-Completes :
        cursor.fault ≡ none
        → 2 * length cursor.docs + 6 ≤ w.budget
        → (u : UnitResult) × (w' : World) × (extract_collection env json strategy prefix cfg run_ctx
              db_name mongo w
            ≡ (ok u, w'))
          × Completes u w'
    extract_collection-Completes whole l =
        let (u, w', ends, good) = Returns-ok (run-Returns whole l) in
        let outcome =
          Post-ok (extract_collection-Outcome env json strategy prefix cfg run_ctx db_name mongo w)
            ends in
        (
          u,
          w',
          ends,
          record { good = good.0; counted = outcome-counted outcome; outcome = outcome },
        )
