-- ===== src/Logs/Ship/Commit.antt =====
-- ship.py: from the confirmed upload to the end of the poll.
use alteryx_server_maintenan.Prelude.Int.{ℤ}
use alteryx_server_maintenan.Prelude.{
  ℕ, ◌≡◌, refl, sym, ap, ◌∙◌, inr, append-nil, String, Bool, false, none, some, [], length, Result,
  ok,
}
use alteryx_server_maintenan.Prelude.Dict.{lookup, string_key}
use alteryx_server_maintenan.Config.{LogSourceConfig}
use alteryx_server_maintenan.RunnerTypes.{RunContext, UnitResult}
use alteryx_server_maintenan.S3.{UploadResult}
use alteryx_server_maintenan.Sinks.{SinkResult}
use alteryx_server_maintenan.Sinks.Laws.{SameStores, IsUploaded, unlink-Post}
use alteryx_server_maintenan.State.{Db, set_offsets}
use alteryx_server_maintenan.State.Atomic.{set_offsets-raised}
use alteryx_server_maintenan.World.{World, Env, ndjson}
use alteryx_server_maintenan.World.Rules.{Post, returns, >>=-Post, Post-map, commit-Post}
use alteryx_server_maintenan.Logs.Tailer.{Bytes, Text}
use alteryx_server_maintenan.Logs.Sources.{Calendar, gc_offsets}
use alteryx_server_maintenan.Logs.Sources.Pruning.{gc_offsets-stale_keys}
use alteryx_server_maintenan.Logs.Ship.{
  Disk, Gathered, offsets_to_commit, log_object_key, log_spool_file, commit_offsets, after_ship,
}
use alteryx_server_maintenan.Logs.Ship.Outcomes.{
  IsGathered, IsAdvanced, IsShipped, Outcome, shipped, IsSafe, not_advanced, advanced,
}

module _ (env : Env) (hexdigest : Bytes → String) (decode : Text → Bytes → Result Text)
    (calendar : Calendar) (disk : Disk) (prefix : String) (source_cfg : LogSourceConfig)
    (run_ctx : RunContext) (gc_days : ℤ) where
  abbrev pub spool : String
  spool = log_spool_file env hexdigest decode calendar disk prefix source_cfg run_ctx gc_days

  abbrev pub key : String
  key = log_object_key env hexdigest decode calendar disk prefix source_cfg run_ctx gc_days

  module _ (w : World) (g : Gathered)
      (q : IsGathered env hexdigest decode calendar disk prefix source_cfg run_ctx gc_days w
        g) where
    abbrev pub Returned : UnitResult → World → Type 0
    Returned = Outcome env hexdigest decode calendar disk prefix source_cfg run_ctx gc_days w

    abbrev pub Ended : World → Type 0
    Ended = IsSafe env hexdigest decode calendar disk prefix source_cfg run_ctx gc_days w

    abbrev Advanced : Db → Db → Type 0
    Advanced = IsAdvanced env hexdigest decode calendar disk prefix source_cfg run_ctx gc_days g

    abbrev Shipped : World → Type 0
    Shipped = IsShipped env hexdigest decode calendar disk prefix source_cfg run_ctx gc_days g w

    -- The spool file is complete.
    pub record IsReady (result : SinkResult) (w1 : World) : Type 0 where
      pub on_disk : lookup spool w1.spool ≡ some (ndjson g.records)
      pub counted : result.rows ≡ length g.records
      pub same : SameStores w w1

    module _ (w1 : World) (same : SameStores w w1) (w2 : World)
        (up : IsUploaded env key (ndjson g.records) w1 w2) where
      -- An advance of the offsets from here on.
      upload-Shipped : (w3 : World) → w3.bucket ≡ w2.bucket → Advanced w2.db w3.db → Shipped w3
      upload-Shipped w3 bucket a = record {
        in_bucket = rw bucket up.in_bucket;
        others = λ k ne. rw bucket (up.others k ne ∙ ap (λ b. lookup k b) same.bucket);
        offsets = rw (sym (up.db ∙ same.db)) a;
      }

      -- From the commit to the end of the pruning.
      commit_offsets-Post :
          Post
            (λ _ w3.
              (fails : ℕ → Bool) × (now : String) × (set_offsets fails now source_cfg.name
                  (offsets_to_commit env hexdigest decode calendar disk prefix source_cfg run_ctx
                    gc_days g.new_offsets)
                  run_ctx.run_id
                  w2.db
                ≡ (ok tt, w3.db))
              × (w3.bucket ≡ w2.bucket))
            Ended
            (commit_offsets env hexdigest decode calendar disk prefix source_cfg run_ctx gc_days g
              w2)
      unfolding commit_offsets
      commit_offsets-Post =
          commit-Post _ w2 (not_advanced (up.db ∙ same.db))
            (λ n db e. (env.sql_raises w2, env.now w2, e, refl))
            (λ n x db e. not_advanced (
              set_offsets-raised (env.sql_raises w2) (env.now w2) source_cfg.name _ run_ctx.run_id
                w2.db e
              ∙ up.db
              ∙ same.db))

      gc-Post :
          (w3 : World) (fails : ℕ → Bool) (now : String)
          → set_offsets fails now source_cfg.name
              (offsets_to_commit env hexdigest decode calendar disk prefix source_cfg run_ctx
                gc_days g.new_offsets)
              run_ctx.run_id
              w2.db
            ≡ (ok tt, w3.db)
          → w3.bucket ≡ w2.bucket
          → Post
              (λ _ w4. Shipped w4)
              Ended
              (gc_offsets env calendar source_cfg.name g.current_keys gc_days w3)
      gc-Post w3 fails now e bucket =
          Post-map (gc_offsets-stale_keys env calendar source_cfg.name g.current_keys gc_days w3)
            (λ n w4 (cutoff, e', all). upload-Shipped w4 (all.bucket ∙ bucket) (record {
              committed = w3.db;
              fails = fails;
              now = now;
              cutoff = cutoff;
              set = e;
              deleted = _;
              undeleted = [];
              split = append-nil _;
              pruned = all.pruned;
            }))
            (λ w4 (cutoff, o, part). advanced q (
              upload-Shipped w4 (part.bucket ∙ bucket) (record {
                committed = w3.db;
                fails = fails;
                now = now;
                cutoff = cutoff;
                set = e;
                deleted = part.done;
                undeleted = part.rest;
                split = part.split;
                pruned = part.pruned;
              })))

      moved_on : (w3 w4 : World) → Shipped w3 → SameStores w3 w4 → Shipped w4
      moved_on w3 w4 c s = record {
        in_bucket = rw (s.bucket) c.in_bucket;
        others = λ k ne. rw (s.bucket) (c.others k ne);
        offsets = rw (s.db) c.offsets;
      }

      pub after_ship-Post :
          (result : SinkResult) (u : UploadResult)
          → result.rows ≡ length g.records
          → run_ctx.dry_run ≡ false
          → Post Returned Ended (
              after_ship env hexdigest decode calendar disk prefix source_cfg run_ctx gc_days g
                result
                (inr u)
                w2)
      unfolding after_ship
      after_ship-Post result u counted real =
          >>=-Post _ _ w2 commit_offsets-Post λ _ w3 (fails, now, e, bucket).
            >>=-Post _ _ w3 (gc-Post w3 fails now e bucket) λ n w4 c.
              >>=-Post {P = λ _ w5. (lookup spool w5.spool ≡ none) × Shipped w5} _ _ w4
                (Post-map (unlink-Post env spool w4) (λ _ w5 a. (a.0, moved_on w4 w5 c a.1))
                  (λ w5 a. advanced q (moved_on w4 w5 c a)))
                λ _ w5 a. returns (shipped q real a.1 a.0 counted)
