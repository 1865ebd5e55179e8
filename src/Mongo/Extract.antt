-- ===== src/Mongo/Extract.antt =====
-- mongo-sync-agent/src/mongo_sync_agent/mongo/extract.py and landing.py: one collection, from the
-- cursor to the Parquet file, its upload and the watermark. MongoDB is `Mongo`; the JSON of BSON
-- documents is `Json`. Log messages and the closing of the cursor change none of what is modelled.
pub mod Sinking
pub mod Streaming
pub mod Delivery
pub mod Safety
pub mod Keeping
pub mod Frame
pub mod Total
pub mod Completes
use Prim.Native.String.{◌++◌ as ◌<>◌}
use mathlib.Core.Option
use alteryx_server_maintenan.Prelude.{
  ℕ, zero, suc, String, Bool, true, false, Option, none, some, List, [], ◌∷◌, ◌++◌, length, leb,
  ◌==◌, ◌⊎◌, inl, inr, if◌then◌else◌, Result, ok, raised, Exn,
}
use alteryx_server_maintenan.Prelude.Int.{ℤ, pos, negsuc}
use alteryx_server_maintenan.Config.{CollectionConfig}
use alteryx_server_maintenan.DateTime.{DateTime}
use alteryx_server_maintenan.RunnerTypes.{
  RunContext, UnitResult, Status, unit_result, status_ok, failed, empty,
}
use alteryx_server_maintenan.S3.{UploadResult, upload, mongo_key}
use alteryx_server_maintenan.Sinks.{
  ParquetVariantSink, SinkResult, new_sink, write_rows, close, unlink, abort,
}
use alteryx_server_maintenan.Spool.{spool_path, dots_to_underscores}
use alteryx_server_maintenan.State.{Watermark, get_watermark, set_watermark}
use alteryx_server_maintenan.World.{World, Env, Row}
use alteryx_server_maintenan.World.Exec.{
  select, Exec, pure, raise, lift, ◌>>=◌, ◌>>◌, try_except, except_exception, except_upload_error,
  commit,
}
use alteryx_server_maintenan.Mongo.Watermark.{WatermarkStrategy, validate_watermark_kind}

-- The documents that a cursor delivers, and the exception that ends it early, if one does.
pub record Cursor (Doc : Type 0) : Type 0 where
  pub docs : List Doc
  pub fault : Option Exn

-- `coll.find(filter, sort=..., batch_size=...)`.
pub record Mongo (Doc Filter : Type 0) : Type 0 where
  pub find : World → String → Filter → Option (List (String × ℤ)) → ℤ → Result (Cursor Doc)

-- `json_util.dumps(doc)`, and `str` (or `repr`) of the `_id`.
pub record Json (Doc : Type 0) : Type 0 where
  pub dumps : Doc → Result String
  pub id_text : Doc → String

-- landing.py: what the extract loop supplies to each row.
pub record RowContext : Type 0 where
  pub extracted_at : DateTime
  pub host : String

-- `if rows:` and the last partial batch; and the raise that ends the cursor.
abbrev pub stop_at : Option Exn → Exec (Unit {0})
stop_at none = pure tt
stop_at (some e) = raise e

abbrev pub check_kind :
    {Doc Filter St : Type 0}
    → Option Watermark
    → WatermarkStrategy Doc Filter St
    → Result (Unit {0})
check_kind none strategy = ok tt
check_kind (some prev) strategy = validate_watermark_kind prev strategy

-- `n >= batch_size`.
abbrev pub reaches : ℤ → ℕ → Bool
reaches (pos size) n = leb size n
reaches (negsuc size) n = true

-- `except Exception: sink.abort(); raise`.
unfoldable pub abort_and_raise : {A : Type 0} → Env → String → Exn → Exec A
abort_and_raise env path e = do abort env path; raise e

module _ {Doc Filter St : Type 0} (env : Env) (json : Json Doc)
    (strategy : WatermarkStrategy Doc Filter St) where
  with_column : String → Doc → RowContext → Result String → Result Row
  with_column payload doc ctx (raised e) = raised e
  with_column payload doc ctx (ok column) = ok (record {
    payload = payload;
    doc_id = json.id_text doc;
    watermark = column;
    extracted_at = ctx.extracted_at;
    host = ctx.host;
  })

  with_payload : Doc → RowContext → Result String → Result Row
  unfolding with_column
  with_payload doc ctx (raised e) = raised e
  with_payload doc ctx (ok payload) =
      with_column payload doc ctx (strategy.watermark_column_value doc)

  -- `VariantJsonLanding.doc_to_row`.
  unfoldable pub doc_to_row : Doc → RowContext → Result Row
  unfolding with_payload
  doc_to_row doc ctx = with_payload doc ctx (json.dumps doc)

  -- `if len(rows) >= cfg.batch_size`: the batch is written and the list cleared.
  unfoldable pub flush_if_full :
      ℤ → List Row → ParquetVariantSink → Exec (List Row × ParquetVariantSink)
  flush_if_full batch_size rows sink =
      if reaches batch_size (length rows)
      then (do written ← write_rows env rows sink; pure ([], written))
      else pure (rows, sink)

  module _ (batch_size : ℤ) (ctx : RowContext) where
    -- `for doc in cursor`.
    unfoldable pub for_docs :
        List Doc → St → List Row → ParquetVariantSink → Exec (St × List Row × ParquetVariantSink)
    for_docs [] st rows sink = pure (st, rows, sink)
    for_docs (doc ∷ docs) st rows sink = do
      st' ← lift (strategy.observe doc st)
      row ← lift (doc_to_row doc ctx)
      flushed ← flush_if_full batch_size (rows ++ row ∷ []) sink
      for_docs docs st' flushed.0 flushed.1

    -- The body of the `try`.
    unfoldable pub read_cursor : Cursor Doc → ParquetVariantSink → Exec (St × ParquetVariantSink)
    read_cursor cursor sink = do
      read ← for_docs cursor.docs strategy.initial [] sink
      stop_at cursor.fault
      written ← write_rows env read.1 read.2
      pure (read.0, written)

  module _ (prefix : String) (cfg : CollectionConfig) (run_ctx : RunContext)
      (db_name : String) where
    abbrev pub namespace : String
    namespace = "mongo:" <> db_name <> "." <> cfg.name

    abbrev pub spool_file : String
    spool_file = spool_path run_ctx.spool_dir (dots_to_underscores cfg.name) "parquet"

    abbrev pub object_key : String
    object_key = mongo_key prefix db_name cfg.name run_ctx.run_dt

    abbrev pub row_context : RowContext
    row_context = record { extracted_at = run_ctx.run_dt; host = run_ctx.host }

    abbrev result_with : Status → ℕ → ℕ → Option String → UnitResult
    result_with status docs bytes_uploaded error = record {
      unit = cfg.name;
      status = status;
      docs = docs;
      bytes_uploaded = bytes_uploaded;
      error = error;
    }

    -- `if new_wm is not None: state.set_watermark(...)`.
    unfoldable pub advance_watermark : Option String → Exec (Unit {0})
    advance_watermark none = pure tt
    advance_watermark (some value) = commit (λ w db.
        set_watermark (env.sql_raises w) (env.now w) namespace strategy.kind value run_ctx.run_id
          db)

    -- What follows the `try` of the upload: its result is the `failed` that the handler returns, or
    -- the result of the upload.
    unfoldable pub after_upload : St → SinkResult → UnitResult ⊎ UploadResult → Exec UnitResult
    after_upload st result (inl failure) = pure failure
    after_upload st result (inr uploaded) = do
      advance_watermark (strategy.new_watermark st)
      unlink env spool_file
      pure (result_with status_ok result.rows uploaded.bytes_uploaded none)

    unfoldable pub try_upload : SinkResult → Exec (UnitResult ⊎ UploadResult)
    try_upload result =
        try_except (do uploaded ← upload env spool_file object_key; pure (inr uploaded))
          (except_upload_error
            (λ e. do abort env spool_file; pure (inl (result_with failed result.rows 0 (some e)))))

    unfoldable pub deliver : St → SinkResult → Exec UnitResult
    deliver st result =
        if run_ctx.dry_run
        then (do unlink env spool_file; pure (result_with status_ok result.rows 0 none))
        else (do uploaded ← try_upload result; after_upload st result uploaded)

    unfoldable pub finish : St → ParquetVariantSink → Exec UnitResult
    finish st sink =
        if sink.rows == 0
        then (do abort env spool_file; pure (unit_result cfg.name empty))
        else (do result ← close env sink; deliver st result)

    unfoldable pub extract_collection : Mongo Doc Filter → Exec UnitResult
    extract_collection mongo = do
      prev ← select env.select_raises (get_watermark namespace)
      lift (check_kind prev strategy)
      filter_doc ← lift (strategy.build_filter (Option.map (λ w. w.value) prev))
      cursor ← (λ w. (mongo.find w cfg.name filter_doc strategy.sort_spec cfg.batch_size, w))
      read ←
          try_except (read_cursor cfg.batch_size row_context cursor (new_sink spool_file))
            (except_exception (abort_and_raise env spool_file))
      finish read.0 read.1
