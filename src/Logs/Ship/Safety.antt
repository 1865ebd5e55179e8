-- ===== src/Logs/Ship/Safety.antt =====
-- ship.py: the offsets are advanced only after a confirmed upload, at whatever point the poll ends.
use alteryx_server_maintenan.Prelude.Int.{ℤ}
use alteryx_server_maintenan.Prelude.{
  ◌≡◌, refl, ap, ◌∙◌, ◌⊎◌, inl, inr, String, false, none, List, [], ◌∷◌, Result, Exn,
}
use alteryx_server_maintenan.Prelude.Dict.{lookup, string_key}
use alteryx_server_maintenan.Config.{LogSourceConfig}
use alteryx_server_maintenan.RunnerTypes.{RunContext, UnitResult}
use alteryx_server_maintenan.S3.{UploadResult}
use alteryx_server_maintenan.Sinks.{SinkResult, GzipNdjsonSink, abort, close_sink}
use alteryx_server_maintenan.Sinks.Laws.{
  SameStores, SameStores-trans, IsUploaded, upload-Post, unlink-Post, abort-Post, close_sink-Post,
}
use alteryx_server_maintenan.World.{World, Env, ndjson, LogRecord}
use alteryx_server_maintenan.World.Exec.{raise, ◌>>◌}
use alteryx_server_maintenan.World.Rules.{
  Post, returns, raises, >>=-Post, lift->>=-Post, select->>=-Post, Post-map, try-exception-Post,
  try-upload_error-Post, branch-Post,
}
use alteryx_server_maintenan.Logs.Tailer.{Bytes, Text}
use alteryx_server_maintenan.Logs.Sources.{Calendar}
use alteryx_server_maintenan.Logs.Ship.{
  Disk, Gathered, after_ship, try_ship, deliver_records, ship_records, after_gather, ship_source,
}
use alteryx_server_maintenan.Logs.Ship.Writing.{IsWritten, open_sink-Post, write_records-Post}
use alteryx_server_maintenan.Logs.Ship.Outcomes.{
  IsGathered, Outcome, no_lines, rehearsed, upload_failed, IsSafe, not_advanced,
}
use alteryx_server_maintenan.Logs.Ship.Commit
use alteryx_server_maintenan.Logs.Ship.Commit.{IsReady, after_ship-Post}

-- The handler never returns, and leaves the stores.
abort_and_raise-Post :
    {A : Type 0} (env : Env) (path : String) (e : Exn) (w0 w : World)
    → SameStores w0 w
    → Post {A = A} (λ _ _. ⊥) (SameStores w0) ((do abort env path; raise e) w)
abort_and_raise-Post env path e w0 w s =
    >>=-Post _ _ w (Post-map (abort-Post env path w) (λ _ w' a. a) (λ w' a. SameStores-trans s a))
      (λ _ w' a. raises (SameStores-trans s a))

module _ (env : Env) (hexdigest : Bytes → String) (decode : Text → Bytes → Result Text)
    (calendar : Calendar) (disk : Disk) (prefix : String) (source_cfg : LogSourceConfig)
    (run_ctx : RunContext) (gc_days : ℤ) where
  abbrev spool : String
  spool = Commit.spool env hexdigest decode calendar disk prefix source_cfg run_ctx gc_days

  abbrev key : String
  key = Commit.key env hexdigest decode calendar disk prefix source_cfg run_ctx gc_days

  module _ (w : World) where
    abbrev Returned : UnitResult → World → Type 0
    Returned = Outcome env hexdigest decode calendar disk prefix source_cfg run_ctx gc_days w

    abbrev Ended : World → Type 0
    Ended = IsSafe env hexdigest decode calendar disk prefix source_cfg run_ctx gc_days w

    module _ (g : Gathered)
        (q : IsGathered env hexdigest decode calendar disk prefix source_cfg run_ctx gc_days w
          g) where
      abbrev Ready : SinkResult → World → Type 0
      Ready = IsReady env hexdigest decode calendar disk prefix source_cfg run_ctx gc_days w g q

      -- The result of the `try` of the upload.
      abbrev Tried : World → UnitResult ⊎ UploadResult → World → Type 0
      Tried w1 (inl u) w2 = Returned u w2
      Tried w1 (inr u) w2 = IsUploaded env key (ndjson g.records) w1 w2

      try_ship-Post :
          (result : SinkResult) (w1 : World)
          → Ready result w1
          → run_ctx.dry_run ≡ false
          → Post (Tried w1) Ended (
              try_ship env hexdigest decode calendar disk prefix source_cfg run_ctx gc_days result
                w1)
      unfolding try_ship
      try_ship-Post result w1 r real =
          try-upload_error-Post {S = λ w2. w2.db ≡ w.db} _ _ w1
            (>>=-Post _ _ w1
              (Post-map (upload-Post env _ _ (ndjson g.records) w1 r.on_disk) (λ u w2 a. a)
                (λ w2 a. a ∙ r.same.db))
              (λ u w2 a. returns a))
            (λ w2 a. not_advanced a)
            (λ e w2 a.
              >>=-Post {P = λ _ w3. w3.db ≡ w.db} _ _ w2
                (Post-map (abort-Post env _ w2) (λ _ w3 b. b.db ∙ a)
                  (λ w3 b. not_advanced (b.db ∙ a)))
                (λ _ w3 b. returns (upload_failed q real b r.counted)))

      after_try-Post :
          (result : SinkResult) (w1 : World)
          → Ready result w1
          → run_ctx.dry_run ≡ false
          → (t : UnitResult ⊎ UploadResult) (w2 : World) → Tried w1 t w2
          → Post Returned Ended (
              after_ship env hexdigest decode calendar disk prefix source_cfg run_ctx gc_days g
                result t w2)
      unfolding after_ship
      after_try-Post result w1 r real (inl u) w2 t = returns t
      after_try-Post result w1 r real (inr u) w2 t =
          after_ship-Post env hexdigest decode calendar disk prefix source_cfg run_ctx gc_days w g q
            w1 r.same w2 t result u r.counted real

      deliver_records-Post :
          (result : SinkResult) (w1 : World)
          → Ready result w1
          → Post Returned Ended (
              deliver_records env hexdigest decode calendar disk prefix source_cfg run_ctx gc_days g
                result w1)
      unfolding deliver_records
      deliver_records-Post result w1 r =
          branch-Post run_ctx.dry_run _ _ w1
            (λ dry.
              >>=-Post {P = λ _ w2. (lookup spool w2.spool ≡ none) × SameStores w w2} _ _ w1
                (Post-map (unlink-Post env _ w1) (λ _ w2 a. (a.0, SameStores-trans r.same a.1))
                  (λ w2 a. not_advanced (a.db ∙ r.same.db)))
                (λ _ w2 a. returns (rehearsed q dry a.1 a.0 r.counted)))
            (λ real.
              >>=-Post _ _ w1 (try_ship-Post result w1 r real)
                (λ t w2 a. after_try-Post result w1 r real t w2 a))

      close_sink-IsReady :
          (sink : GzipNdjsonSink) (w1 : World)
          → IsWritten spool g.records sink w w1
          → Post (λ result w2. Ready result w2) Ended (close_sink env sink w1)
      close_sink-IsReady sink w1 h =
          Post-map (close_sink-Post env sink w1)
            (λ result w2 (rows, spooled, same). record {
              on_disk = ap (lookup spool) spooled ∙ h.in_file;
              counted = rows ∙ h.counted;
              same = SameStores-trans h.same same;
            })
            (λ w2 same. not_advanced (same.db ∙ h.same.db))

      ship_records-Post :
          Post Returned Ended
            (ship_records env hexdigest decode calendar disk prefix source_cfg run_ctx gc_days g w)
      unfolding ship_records
      ship_records-Post =
          >>=-Post _ _ w
            (Post-map (open_sink-Post env spool w) (λ s w1 a. a) (λ w1 a. not_advanced a.db))
            λ sink w1 opened.
              >>=-Post _ _ w1
                (try-exception-Post {S = SameStores w} _ (λ e. do abort env spool; raise e) w1
                  (write_records-Post env spool w g.records sink w1 opened)
                  (λ w2 a. not_advanced a.db)
                  (λ e w2 a.
                    Post-map (abort_and_raise-Post env spool e w w2 a) (λ r w3 b. absurd b)
                      (λ w3 b. not_advanced b.db)))
                λ written w2 h.
                  >>=-Post _ _ w2 (close_sink-IsReady written w2 h)
                    (λ result w3 r. deliver_records-Post result w3 r)

      after_gather-Post :
          (records : List LogRecord)
          → g.records ≡ records
          → Post Returned Ended (
              after_gather env hexdigest decode calendar disk prefix source_cfg run_ctx gc_days g
                records w)
      unfolding after_gather
      after_gather-Post [] e = returns (no_lines q e)
      after_gather-Post (r ∷ rs) e = ship_records-Post

    -- Whatever the disk, SQLite and S3 do, and wherever the process dies, a poll of one log source
    -- ends in one of these ways. It returns `empty`: no file had a new line, and nothing has
    -- changed. It returns `ok` from a dry run: the database and the bucket are as they were. It
    -- returns `ok`: all lines that the poll gathered are in the object of this run in the bucket, no
    -- other object has changed, the offsets of all files of the poll were committed together, and
    -- after that only stale ones deleted, and the spool file is gone. It returns `failed`: the
    -- upload was not confirmed and the database is as it was. It raises or dies: the database is as
    -- it was, or object and offsets are as after `ok`, but for stale offsets that are still there.
    pub ship_source-Outcome :
        Post Returned Ended
          (ship_source env hexdigest decode calendar disk prefix source_cfg run_ctx gc_days w)
    unfolding ship_source
    ship_source-Outcome =
        select->>=-Post _ _ _ w (not_advanced refl)
          (lift->>=-Post _ _ w (not_advanced refl) λ g q. after_gather-Post g q g.records refl)
