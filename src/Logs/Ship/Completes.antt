-- ===== src/Logs/Ship/Completes.antt =====
-- logs/ship.py: a poll returns with a good status where nothing goes wrong.
use mathlib.Core.Path.{subst}
use alteryx_server_maintenan.Prelude.{
  ℕ, ◌+◌, ◌≤◌, ◌≡◌, ◌≢◌, refl, sym, ap, ◌∙◌, String, some, List, [], ◌∷◌, arith, length, inr,
  Result, ok,
}
use alteryx_server_maintenan.Prelude.Dict.{lookup, string_key}
use alteryx_server_maintenan.Prelude.Int.{ℤ}
use alteryx_server_maintenan.Config.{LogSourceConfig}
use alteryx_server_maintenan.RunnerTypes.{RunContext, UnitResult, failed}
use alteryx_server_maintenan.S3.{UploadResult}
use alteryx_server_maintenan.Sinks.{SinkResult, abort}
use alteryx_server_maintenan.Sinks.Laws.{close_sink-Post, upload-Post}
use alteryx_server_maintenan.Sinks.Total.{
  unlink-Returns, upload-Returns, open_sink-Returns, write_records-Returns, close_sink-Returns,
}
use alteryx_server_maintenan.State.{get_offsets}
use alteryx_server_maintenan.State.Atomic.{operations_total}
use alteryx_server_maintenan.World.{World, Env, Content, LogRecord}
use alteryx_server_maintenan.World.Exec.{raise, ◌>>◌}
use alteryx_server_maintenan.World.Rules.{returns, >>=-Post, Post-ok, branch-Post}
use alteryx_server_maintenan.World.Total.{
  select->>=-Returns, IsQuiet, Returns, Returns-ok, Returns-both, Lives, commit-Returns,
  lift->>=-Returns, try-exception-Returns, try-upload_error-Returns,
}
use alteryx_server_maintenan.Logs.Sources.{Calendar, discover, cutoff_of}
use alteryx_server_maintenan.Logs.Tailer.{Bytes, Text}
use alteryx_server_maintenan.Logs.Ship.{
  Disk, Gathered, nothing_gathered, commit_offsets, offsets_to_commit, after_ship, try_ship,
  deliver_records, ship_records, after_gather, ship_source, log_spool_file, log_object_key,
}
use alteryx_server_maintenan.Logs.Ship.Writing.{open_sink-Post, write_records-Post}
use alteryx_server_maintenan.Logs.Ship.Outcomes.{Outcome}
use alteryx_server_maintenan.Logs.Ship.Safety.{ship_source-Outcome}
use alteryx_server_maintenan.Logs.Ship.Total.{
  IsReadable, gather_total, length-offsets_to_commit, length-upsert_offset, gc_offsets-Returns,
}

module _ (env : Env) (hexdigest : Bytes → String) (decode : Text → Bytes → Result Text)
    (calendar : Calendar) (disk : Disk) (prefix : String) (source_cfg : LogSourceConfig)
    (run_ctx : RunContext) (gc_days : ℤ) (quiet : IsQuiet env)
    (has_cutoff : (w : World)
      → (cutoff : ℕ) × (cutoff_of (calendar.clock w) gc_days ≡ ok cutoff)) where
  abbrev spool : String
  spool = log_spool_file env hexdigest decode calendar disk prefix source_cfg run_ctx gc_days

  abbrev key : String
  key = log_object_key env hexdigest decode calendar disk prefix source_cfg run_ctx gc_days

  abbrev Good : UnitResult → World → Type 0
  Good u w = u.status ≢ failed

  commit_offsets-Returns :
      (n : ℕ) (g : Gathered) (w : World)
      → Lives (n + 1) w
      → Returns
          (λ _ w'.
            (length w'.db.file_offsets ≤ length g.new_offsets + length w.db.file_offsets)
            × Lives n w')
          (commit_offsets env hexdigest decode calendar disk prefix source_cfg run_ctx gc_days g w)
  unfolding commit_offsets
  commit_offsets-Returns n g w l =
      let os =
        offsets_to_commit env hexdigest decode calendar disk prefix source_cfg run_ctx gc_days
          g.new_offsets in
      let done =
        (operations_total (env.sql_raises w) (env.now w) (quiet.sql w) w.db).1 source_cfg.name
          run_ctx.run_id os in
      commit-Returns n _ w (ap (λ r. r.0) done) l (λ c m. (
        rw done (
            omega (
              arith,
              length-upsert_offset (env.sql_raises w) (env.now w) source_cfg.name run_ctx.run_id os
                  w.db,
              length-offsets_to_commit env hexdigest decode calendar disk prefix source_cfg run_ctx
                  gc_days g.new_offsets,
            )),
        m,
      ))

  after_ship-Returns :
      (g : Gathered) (result : SinkResult) (up : UploadResult) (w : World)
      → Lives (length g.new_offsets + length w.db.file_offsets + 2) w
      → Returns Good (
          after_ship env hexdigest decode calendar disk prefix source_cfg run_ctx gc_days g result
            (inr up)
            w)
  unfolding after_ship
  after_ship-Returns g result up w l =
      >>=-Post _ _ w
        (commit_offsets-Returns (length g.new_offsets + length w.db.file_offsets + 1) g w
          (omega arith))
        (λ _ w1 (few, m).
          >>=-Post _ _ w1
            (gc_offsets-Returns env quiet calendar source_cfg.name g.current_keys 1 gc_days w1
              (has_cutoff w1).1 (omega arith))
            (λ _ w2 k.
              >>=-Post _ _ w2 (unlink-Returns env quiet 0 _ w2 k) (λ _ w3 j. returns (λ e. cc))))

  try_ship-Returns :
      (n : ℕ) (result : SinkResult) (w : World) {c : Content}
      → lookup spool w.spool ≡ some c
      → Lives (n + 1) w
      → Returns
          (λ t w'. ((up : UploadResult) × (t ≡ inr up)) × (w'.db ≡ w.db) × Lives n w')
          (try_ship env hexdigest decode calendar disk prefix source_cfg run_ctx gc_days result w)
  unfolding try_ship
  try_ship-Returns n result w e l = try-upload_error-Returns _ _ w (
      >>=-Post _ _ w
        (Returns-both (upload-Post env _ key _ w e) (upload-Returns env quiet n _ key w e l))
        (λ u w' (a, m). returns ((u, refl), a.db, m)))

  deliver_records-Returns :
      (g : Gathered) (result : SinkResult) (w : World) {c : Content}
      → lookup spool w.spool ≡ some c
      → Lives (length g.new_offsets + length w.db.file_offsets + 3) w
      → Returns Good (
          deliver_records env hexdigest decode calendar disk prefix source_cfg run_ctx gc_days g
            result w)
  unfolding deliver_records
  deliver_records-Returns g result w e l =
      branch-Post run_ctx.dry_run _ _ w
        (λ dry.
          >>=-Post _ _ w (unlink-Returns env quiet 0 _ w (omega arith))
            (λ _ w' m. returns (λ e. cc)))
        (λ real.
          >>=-Post _ _ w
            (try_ship-Returns (length g.new_offsets + length w.db.file_offsets + 2) result w e
              (omega arith))
            (λ t w' (up, same, m).
              subst
                (λ t. Returns Good (
                  after_ship env hexdigest decode calendar disk prefix source_cfg run_ctx gc_days g
                    result t w'))
                (sym (up.1))
                (after_ship-Returns g result up.0 w'
                  (omega (arith, ap (λ db. length db.file_offsets) same)))))

  ship_records-Returns :
      (g : Gathered) (w : World)
      → Lives (length g.new_offsets + length w.db.file_offsets + 6) w
      → Returns Good
          (ship_records env hexdigest decode calendar disk prefix source_cfg run_ctx gc_days g w)
  unfolding ship_records
  ship_records-Returns g w l =
      let n : ℕ = length g.new_offsets + length w.db.file_offsets + 3 in
      >>=-Post _ _ w
        (Returns-both (open_sink-Post env spool w)
          (open_sink-Returns env quiet (n + 2) spool w (omega arith)))
        (λ sink w1 (opened, m1).
          >>=-Post _ _ w1
            (try-exception-Returns _ (λ e. do abort env spool; raise e) w1
              (Returns-both (write_records-Post env spool w g.records sink w1 opened)
                (write_records-Returns env quiet (n + 1) g.records sink w1 (omega arith))))
            (λ s w2 (written, m2).
              >>=-Post _ _ w2
                (Returns-both (close_sink-Post env s w2) (close_sink-Returns env quiet n s w2 m2))
                (λ result w3 (closed, m3).
                  deliver_records-Returns g result w3
                    (ap (λ f. lookup spool f) closed.1 ∙ written.in_file)
                    (omega
                      (arith, ap (λ db. length db.file_offsets) (closed.2.db ∙ written.same.db))))))

  module _
      (readable : IsReadable env hexdigest decode calendar disk prefix source_cfg run_ctx gc_days)
      (w : World) where
    abbrev plans : ℕ
    plans =
        length
          (discover hexdigest (get_offsets source_cfg.name w.db) (disk.glob source_cfg.path_glob))

    after_gather-Returns :
        (g : Gathered) (records : List LogRecord)
        → Lives (length g.new_offsets + length w.db.file_offsets + 6) w
        → Returns Good (
            after_gather env hexdigest decode calendar disk prefix source_cfg run_ctx gc_days g
              records w)
    unfolding after_gather
    after_gather-Returns g [] l = returns (λ e. cc)
    after_gather-Returns g (r ∷ rs) l = ship_records-Returns g w l

    run-Returns :
        Lives (plans + length w.db.file_offsets + 6) w
        → Returns Good
            (ship_source env hexdigest decode calendar disk prefix source_cfg run_ctx gc_days w)
    unfolding ship_source
    run-Returns l =
        let (g, made, few) =
          gather_total env hexdigest decode calendar disk prefix source_cfg run_ctx gc_days readable
            disk.shipped_at
            (discover hexdigest (get_offsets source_cfg.name w.db) (disk.glob source_cfg.path_glob))
            nothing_gathered in
        select->>=-Returns _ _ _ w (quiet.selects w)
          (lift->>=-Returns _ _ w made (after_gather-Returns g g.records (omega arith)))

    -- Where the disk and SQLite raise nothing, S3 stores what it is given, `max_bytes_per_poll` is a
    -- count that `read` takes, `gc_days` before the clock is an instant that Python has, the codec of the
    -- source raises nothing, no file grows beyond the bound on what is read, and the process lives for an
    -- effect for each plan and for each stored offset and six more: the poll returns, its status is
    -- not `failed`, and it has ended in one of its ways to return. The fuel for the reading is enough.
    pub ship_source-Completes :
        plans + length w.db.file_offsets + 6 ≤ w.budget
        → (u : UnitResult) × (w' : World) × (ship_source env hexdigest decode calendar disk prefix
              source_cfg run_ctx gc_days w
            ≡ (ok u, w'))
          × (u.status ≢ failed)
          × Outcome env hexdigest decode calendar disk prefix source_cfg run_ctx gc_days w u w'
    ship_source-Completes l =
        let (u, w', ends, good) = Returns-ok (run-Returns l) in
        let outcome =
          Post-ok
            (ship_source-Outcome env hexdigest decode calendar disk prefix source_cfg run_ctx
              gc_days w)
            ends in
        (u, w', ends, good, outcome)
