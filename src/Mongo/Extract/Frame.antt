-- ===== src/Mongo/Extract/Frame.antt =====
-- mongo/extract.py: what a run over a collection leaves alone, on every ending.
use alteryx_server_maintenan.Prelude.{
  ℕ, ◌≡◌, ◌≢◌, refl, ap, ◌∙◌, String, Bool, Option, none, some, [], ◌∷◌, ◌⊎◌, inl, inr, arith,
  eq_iff, str_eq, if◌then◌else◌,
}
use alteryx_server_maintenan.Prelude.Dict.{lookup, lookup-upsert, string_key}
use alteryx_server_maintenan.Config.{CollectionConfig}
use alteryx_server_maintenan.RunnerTypes.{RunContext, UnitResult}
use alteryx_server_maintenan.S3.{UploadResult, put_object}
use alteryx_server_maintenan.Sinks.{SinkResult}
use alteryx_server_maintenan.Sinks.Keeping.{unlink-Keeps, abort-Keeps, upload-Keeps}
use alteryx_server_maintenan.State.{
  Db, Watermark, get_watermark, set_watermark, upsert_watermark, watermark_row,
}
use alteryx_server_maintenan.State.Atomic.{transaction-keeps}
use alteryx_server_maintenan.World.{World, Env, Content}
use alteryx_server_maintenan.World.Keeping.{
  Keeps, OfStores, >>=-Keeps, pure-Keeps, if-Keeps, commit-Keeps, try-upload_error-Keeps,
}
use alteryx_server_maintenan.Mongo.Watermark.{WatermarkStrategy}
use alteryx_server_maintenan.Mongo.Extract.{
  Mongo, Json, advance_watermark, after_upload, try_upload, deliver, extract_collection,
}
use alteryx_server_maintenan.Mongo.Extract.Delivery.{key, ns}
use alteryx_server_maintenan.Mongo.Extract.Keeping.{extract_collection-Keeps}

-- Only the object under one key and the watermark of one namespace may differ.
pub record Frame (object namespace : String) (w0 w : World) : Type 0 where
  pub objects : (k : String) → object ≢ k → lookup k w.bucket ≡ lookup k w0.bucket
  pub watermarks : (n : String) → namespace ≢ n → get_watermark n w.db ≡ get_watermark n w0.db
  pub file_offsets : w.db.file_offsets ≡ w0.db.file_offsets
  pub runs : w.db.runs ≡ w0.db.runs

pub Frame-refl : (object namespace : String) (w : World) → Frame object namespace w w
Frame-refl object namespace w = record {
  objects = λ k ne. refl;
  watermarks = λ n ne. refl;
  file_offsets = refl;
  runs = refl;
}

module _ (object namespace : String) (w0 : World) where
  Frame-OfStores : OfStores (Frame object namespace w0)
  Frame-OfStores w w' d b f = record {
    objects = λ k ne. ap (lookup k) b ∙ f.objects k ne;
    watermarks = λ n ne. ap (get_watermark n) d ∙ f.watermarks n ne;
    file_offsets = ap (λ (db : Db). db.file_offsets) d ∙ f.file_offsets;
    runs = ap (λ (db : Db). db.runs) d ∙ f.runs;
  }

  put_object-Frame :
      (content : Content) (w : World) (n : ℕ)
      → Frame object namespace w0 w
      → Frame object namespace w0 (record (put_object object content w) { budget = n })
  put_object-Frame content w n f = record {
    objects = λ k ne.
        ground (arith, lookup-upsert k object content w.bucket, eq_iff object k, f.objects k ne);
    watermarks = f.watermarks;
    file_offsets = f.file_offsets;
    runs = f.runs;
  }

  set_watermark-Frame :
      (raises : ℕ → Bool) (now kind value run_id : String) (w : World) (n : ℕ)
      → Frame object namespace w0 w
      → Frame object namespace w0 (record w {
        db = (set_watermark raises now namespace kind value run_id w.db).1;
        budget = n;
      })
  unfolding set_watermark get_watermark
  set_watermark-Frame raises now kind value run_id w n f =
      let row = watermark_row raises now kind value run_id in
      transaction-keeps (λ db. Frame object namespace w0 (record w { db = db; budget = n })) raises
        (upsert_watermark raises now namespace row ∷ []) w.db
        (record {
          objects = f.objects;
          watermarks = f.watermarks;
          file_offsets = f.file_offsets;
          runs = f.runs;
        })
        (record {
          objects = f.objects;
          watermarks = λ m ne.
              other (some row) m ne (lookup-upsert m namespace row w.db.watermarks)
              ∙ f.watermarks m ne;
          file_offsets = f.file_offsets;
          runs = f.runs;
        })
    where
      other :
          {x b : Option Watermark} (a : Option Watermark) (m : String)
          → namespace ≢ m
          → x ≡ (if str_eq namespace m then a else b)
          → x ≡ b
      other a m ne e = ground (arith, eq_iff namespace m, e)

module _ {Doc Filter St : Type 0} (env : Env) (json : Json Doc)
    (strategy : WatermarkStrategy Doc Filter St) (prefix : String) (cfg : CollectionConfig)
    (run_ctx : RunContext) (db_name : String) (w0 : World) where
  -- The frame of a collection.
  abbrev pub Framed : World → Type 0
  Framed =
      Frame (key env json strategy prefix cfg run_ctx db_name)
        (ns env json strategy prefix cfg run_ctx db_name) w0

  abbrev stores : OfStores Framed
  stores = Frame-OfStores _ _ w0

  advance_watermark-Framed :
      (o : Option String)
      → Keeps Framed (advance_watermark env json strategy prefix cfg run_ctx db_name o)
  unfolding advance_watermark
  advance_watermark-Framed none = pure-Keeps tt
  advance_watermark-Framed (some value) =
      commit-Keeps _ (λ w n f. set_watermark-Frame _ _ w0 _ _ _ _ _ w n f)

  after_upload-Framed :
      (st : St) (result : SinkResult) (r : UnitResult ⊎ UploadResult)
      → Keeps Framed (after_upload env json strategy prefix cfg run_ctx db_name st result r)
  unfolding after_upload
  after_upload-Framed st result (inl failure) = pure-Keeps failure
  after_upload-Framed st result (inr uploaded) =
      >>=-Keeps (advance_watermark-Framed (strategy.new_watermark st))
        λ _. >>=-Keeps (unlink-Keeps env stores _) λ _. pure-Keeps _

  try_upload-Framed :
      (result : SinkResult)
      → Keeps Framed (try_upload env json strategy prefix cfg run_ctx db_name result)
  unfolding try_upload
  try_upload-Framed result =
      try-upload_error-Keeps
        (>>=-Keeps (upload-Keeps env _ (λ content w n f. put_object-Frame _ _ w0 content w n f) _)
          (λ uploaded. pure-Keeps (inr uploaded)))
        (λ e. >>=-Keeps (abort-Keeps env stores _) (λ _. pure-Keeps _))

  deliver-Framed :
      (st : St) (result : SinkResult)
      → Keeps Framed (deliver env json strategy prefix cfg run_ctx db_name st result)
  unfolding deliver
  deliver-Framed st result =
      if-Keeps run_ctx.dry_run (λ _. >>=-Keeps (unlink-Keeps env stores _) (λ _. pure-Keeps _))
        (λ _. >>=-Keeps (try_upload-Framed result) (λ r. after_upload-Framed st result r))

  -- However a run over a collection ends, it has changed no object but that under its key, no
  -- watermark but that of its namespace, no file offset and no recorded run.
  pub extract_collection-Framed :
      (mongo : Mongo Doc Filter)
      → Keeps Framed (extract_collection env json strategy prefix cfg run_ctx db_name mongo)
  extract_collection-Framed mongo =
      extract_collection-Keeps env json strategy prefix cfg run_ctx db_name stores deliver-Framed
        mongo
