-- ===== src/Logs/Ship/Frame.antt =====
-- ship.py: what a poll of a log source leaves alone, on every ending.
use alteryx_server_maintenan.Prelude.Int.{ℤ}
use alteryx_server_maintenan.Prelude.{
  ℕ, ◌+◌, ◌≡◌, ◌≢◌, refl, ap, ◌∙◌, String, List, [], ◌∷◌, ◌⊎◌, inl, inr, arith, eq_iff, Result,
}
use alteryx_server_maintenan.Prelude.Dict.{Dict, lookup, lookup-upsert, string_key}
use alteryx_server_maintenan.Config.{LogSourceConfig}
use alteryx_server_maintenan.RunnerTypes.{RunContext, UnitResult}
use alteryx_server_maintenan.S3.{UploadResult, put_object}
use alteryx_server_maintenan.Sinks.{SinkResult}
use alteryx_server_maintenan.Sinks.Keeping.{unlink-Keeps, abort-Keeps, upload-Keeps}
use alteryx_server_maintenan.State.{Db, FileOffset, get_offsets}
use alteryx_server_maintenan.State.Separate.{
  get_offsets-set_offsets_apart, get_offsets-delete_offset_apart, set_offsets-watermarks,
  delete_offset-watermarks,
}
use alteryx_server_maintenan.World.{World, Env, Content}
use alteryx_server_maintenan.World.Keeping.{
  asks-Keeps, Keeps, OfStores, >>=-Keeps, pure-Keeps, if-Keeps, commit-Keeps,
  try-upload_error-Keeps,
}
use alteryx_server_maintenan.Logs.Tailer.{Bytes, Text}
use alteryx_server_maintenan.Logs.Sources.{Calendar, gc_offsets, gc_loop, is_stale, cutoff_of}
use alteryx_server_maintenan.Logs.Ship.{
  Disk, Gathered, log_object_key, commit_offsets, after_ship, try_ship, deliver_records,
  ship_source,
}
use alteryx_server_maintenan.Logs.Ship.Keeping.{ship_source-Keeps}

-- Only the object under one key and the offsets of one source may differ.
pub record Frame (object source : String) (w0 w : World) : Type 0 where
  pub objects : (k : String) → object ≢ k → lookup k w.bucket ≡ lookup k w0.bucket
  pub offsets : (s : String) → source ≢ s → get_offsets s w.db ≡ get_offsets s w0.db
  pub watermarks : w.db.watermarks ≡ w0.db.watermarks

pub Frame-refl : (object source : String) (w : World) → Frame object source w w
Frame-refl object source w = record {
  objects = λ k ne. refl;
  offsets = λ s ne. refl;
  watermarks = refl;
}

module _ (object source : String) (w0 : World) where
  Frame-OfStores : OfStores (Frame object source w0)
  Frame-OfStores w w' d b f = record {
    objects = λ k ne. ap (lookup k) b ∙ f.objects k ne;
    offsets = λ s ne. ap (get_offsets s) d ∙ f.offsets s ne;
    watermarks = ap (λ (db : Db). db.watermarks) d ∙ f.watermarks;
  }

  put_object-Frame :
      (content : Content) (w : World) (n : ℕ)
      → Frame object source w0 w
      → Frame object source w0 (record (put_object object content w) { budget = n })
  put_object-Frame content w n f = record {
    objects = λ k ne.
        ground (arith, lookup-upsert k object content w.bucket, eq_iff object k, f.objects k ne);
    offsets = f.offsets;
    watermarks = f.watermarks;
  }

  -- Another database in which neither the offsets of other sources nor the watermarks differ.
  with_db-Frame :
      (db : Db) (w : World) (n : ℕ)
      → ((s : String) → source ≢ s → get_offsets s db ≡ get_offsets s w.db)
      → db.watermarks ≡ w.db.watermarks
      → Frame object source w0 w
      → Frame object source w0 (record w { db = db; budget = n })
  with_db-Frame db w n same wm f = record {
    objects = f.objects;
    offsets = λ s ne. same s ne ∙ f.offsets s ne;
    watermarks = wm ∙ f.watermarks;
  }

  gc_loop-Frame :
      (env : Env) (calendar : Calendar) (current : List String) (cutoff : ℕ)
      (offsets : Dict String FileOffset) (deleted : ℕ)
      → Keeps (Frame object source w0) (gc_loop env calendar source current cutoff offsets deleted)
  unfolding gc_loop
  gc_loop-Frame env calendar current cutoff [] deleted = pure-Keeps deleted
  gc_loop-Frame env calendar current cutoff ((key, fo) ∷ offsets) deleted =
      if-Keeps (is_stale calendar cutoff current key fo)
        (λ _.
          >>=-Keeps
            (commit-Keeps _ (λ w n f.
              with_db-Frame _ w n
                (λ s ne. get_offsets-delete_offset_apart source s ne _ _ "" key w.db)
                (delete_offset-watermarks _ _ source "" key w.db) f))
            (λ _. gc_loop-Frame env calendar current cutoff offsets (deleted + 1)))
        (λ _. gc_loop-Frame env calendar current cutoff offsets deleted)

  gc_offsets-Frame :
      (env : Env) (calendar : Calendar) (current : List String) (gc_days : ℤ)
      → Keeps (Frame object source w0) (gc_offsets env calendar source current gc_days)
  unfolding gc_offsets
  gc_offsets-Frame env calendar current gc_days =
      >>=-Keeps (asks-Keeps (λ w. cutoff_of (calendar.clock w) gc_days)) λ cutoff.
        >>=-Keeps (asks-Keeps _) λ offsets. gc_loop-Frame env calendar current cutoff offsets 0

module _ (env : Env) (hexdigest : Bytes → String) (decode : Text → Bytes → Result Text)
    (calendar : Calendar) (disk : Disk) (prefix : String) (run_ctx : RunContext)
    (source_cfg : LogSourceConfig) (gc_days : ℤ) (w0 : World) where
  abbrev object : String
  object = log_object_key env hexdigest decode calendar disk prefix source_cfg run_ctx gc_days

  -- The frame of a source.
  abbrev pub Framed : World → Type 0
  Framed = Frame object source_cfg.name w0

  abbrev stores : OfStores Framed
  stores = Frame-OfStores object source_cfg.name w0

  after_ship-Framed :
      (g : Gathered) (result : SinkResult) (r : UnitResult ⊎ UploadResult)
      → Keeps Framed (
          after_ship env hexdigest decode calendar disk prefix source_cfg run_ctx gc_days g result
            r)
  unfolding after_ship commit_offsets
  after_ship-Framed g result (inl failure) = pure-Keeps failure
  after_ship-Framed g result (inr uploaded) =
      >>=-Keeps
        (commit-Keeps _ (λ w n f.
          with_db-Frame object source_cfg.name w0 _ w n
            (λ s ne. get_offsets-set_offsets_apart source_cfg.name s ne _ _ _ _ w.db)
            (set_offsets-watermarks _ _ source_cfg.name _ _ w.db) f))
        λ _.
          >>=-Keeps (gc_offsets-Frame object source_cfg.name w0 env calendar g.current_keys gc_days)
            λ gc_count. >>=-Keeps (unlink-Keeps env stores _) λ _. pure-Keeps _

  try_ship-Framed :
      (result : SinkResult)
      → Keeps Framed
          (try_ship env hexdigest decode calendar disk prefix source_cfg run_ctx gc_days result)
  unfolding try_ship
  try_ship-Framed result =
      try-upload_error-Keeps
        (>>=-Keeps
          (upload-Keeps env object
            (λ content w n f. put_object-Frame object source_cfg.name w0 content w n f) _)
          (λ uploaded. pure-Keeps (inr uploaded)))
        (λ e. >>=-Keeps (abort-Keeps env stores _) (λ _. pure-Keeps _))

  deliver_records-Framed :
      (g : Gathered) (result : SinkResult)
      → Keeps Framed (
          deliver_records env hexdigest decode calendar disk prefix source_cfg run_ctx gc_days g
            result)
  unfolding deliver_records
  deliver_records-Framed g result =
      if-Keeps run_ctx.dry_run (λ _. >>=-Keeps (unlink-Keeps env stores _) (λ _. pure-Keeps _))
        (λ _. >>=-Keeps (try_ship-Framed result) (λ r. after_ship-Framed g result r))

  -- However a poll of a log source ends, it has changed no object but that under its key, no offset
  -- of another source and no watermark.
  pub ship_source-Framed :
      Keeps Framed
        (ship_source env hexdigest decode calendar disk prefix source_cfg run_ctx gc_days)
  ship_source-Framed =
      ship_source-Keeps env hexdigest decode calendar disk prefix run_ctx stores source_cfg gc_days
        deliver_records-Framed
