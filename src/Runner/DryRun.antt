-- ===== src/Runner/DryRun.antt =====
-- runner.py: what `--dry-run` keeps.
use alteryx_server_maintenan.Prelude.{
  ℕ, ◌+◌, ◌≡◌, refl, String, Bool, true, ◌&&◌, Option, none, some, List, [], ◌∷◌, str_eq,
  if◌then◌else◌, false, Result,
}
use alteryx_server_maintenan.Prelude.Int.{ℤ}
use alteryx_server_maintenan.Config.{MongoConfig, AgentConfig}
use alteryx_server_maintenan.RunnerTypes.{RunContext, RunSummary, UnitResult}
use alteryx_server_maintenan.State.{record_run, upsert_run}
use alteryx_server_maintenan.State.Open.{tables_of, open_store-contents}
use alteryx_server_maintenan.State.Atomic.{transaction-keeps}
use alteryx_server_maintenan.Spool.Sweep.{
  Directories, setup_spool, sweep_orphans, sweep_each, remove_tree, remove_dir,
}
use alteryx_server_maintenan.Sinks.Keeping.{
  unlink-Keeps, abort-Keeps, open_sink-Keeps, write_metrics-Keeps, close_sink-Keeps,
}
use alteryx_server_maintenan.World.{World, Env, MetricRecord}
use alteryx_server_maintenan.World.Exec.{Exec}
use alteryx_server_maintenan.World.Rules.{Post, Post-map}
use alteryx_server_maintenan.World.Keeping.{
  Keeps, SameData, SameData-refl, SameData-OfStores, os_effect-OfStores, effect-Keeps, commit-Keeps,
  >>=-Keeps, asks-Keeps, pure-Keeps, raise-Keeps, if-Keeps, try-exception-Keeps,
}
use alteryx_server_maintenan.Locking.{acquire}
use alteryx_server_maintenan.Locking.Laws.{
  Acquires, granted, already_running, acquire-Post, release-Post,
}
use alteryx_server_maintenan.Mongo.All.Rehearsal.{extract_all-SameData}
use alteryx_server_maintenan.Logs.Ship.Rehearsal.{ship_all-SameData}
use alteryx_server_maintenan.Runner.HostMetricsUnit.{ship_metrics, metrics_spool_file}
use alteryx_server_maintenan.Runner.{
  Surroundings, Progress, wants, sampled, mongo_with, mongo_module, logs_module, hostmetrics_module,
  conclude, context, modules, open_state, run_modules, locked, run_cycle, lock_path,
}

module _ (dirs : Directories) (spool_base : String) (w0 : World) where
  setup_spool-SameData :
      (run_id : String) → Keeps (SameData w0) (setup_spool dirs spool_base run_id)
  unfolding setup_spool
  setup_spool-SameData run_id =
      >>=-Keeps (os_effect-OfStores (SameData-OfStores w0) _ _ (λ w. refl) (λ w. refl))
        (λ _. pure-Keeps _)

  remove_tree-SameData : (name : String) → Keeps (SameData w0) (remove_tree dirs spool_base name)
  unfolding remove_tree
  remove_tree-SameData name = effect-Keeps _ (λ w n s. go w n (dirs.rmtree_fails w name) s)
    where
      go :
          (w : World) (n : ℕ) (b : Bool)
          → SameData w0 w
          → SameData w0 (record (if b then w else remove_dir dirs spool_base name w) { budget = n })
      go w n true s = SameData-OfStores w0 _ _ refl refl s
      go w n false s = SameData-OfStores w0 _ _ refl refl s

  sweep_each-SameData :
      (current_run_id : String) (items : List String) (count : ℕ)
      → Keeps (SameData w0) (sweep_each dirs spool_base current_run_id items count)
  unfolding sweep_each
  sweep_each-SameData current_run_id [] count = pure-Keeps count
  sweep_each-SameData current_run_id (name ∷ items) count =
      if-Keeps (str_eq name current_run_id) (λ _. sweep_each-SameData current_run_id items count)
        (λ _.
          >>=-Keeps (remove_tree-SameData name)
            (λ _. sweep_each-SameData current_run_id items (count + 1)))

  sweep_orphans-SameData :
      (run_id : String) → Keeps (SameData w0) (sweep_orphans dirs spool_base run_id)
  unfolding sweep_orphans
  sweep_orphans-SameData run_id w =
      branch-Keeps (dirs.base_exists w) w
        (branch-Keeps (dirs.iterdir_raises w) w (raise-Keeps _ w)
          (sweep_each-SameData run_id w.run_dirs 0 w))
        (pure-Keeps 0 w)
    where
      branch-Keeps :
          (b : Bool) (w : World) {x y : Result ℕ × World}
          → (SameData w0 w → Post (λ n w'. SameData w0 w') (SameData w0) x)
          → (SameData w0 w → Post (λ n w'. SameData w0 w') (SameData w0) y)
          → SameData w0 w
          → Post (λ n w'. SameData w0 w') (SameData w0) (if b then x else y)
      branch-Keeps true w h k = h
      branch-Keeps false w h k = k

module _ (env : Env) (prefix : String) (run_ctx : RunContext) (w0 : World) where
  ship_metrics-SameData :
      run_ctx.dry_run ≡ true
      → (records : List MetricRecord)
      → Keeps (SameData w0) (ship_metrics env prefix run_ctx records)
  unfolding ship_metrics
  ship_metrics-SameData dry [] = pure-Keeps _
  ship_metrics-SameData dry (r ∷ records) =
      >>=-Keeps (open_sink-Keeps env (SameData-OfStores w0) _) λ sink.
        >>=-Keeps
          (try-exception-Keeps (write_metrics-Keeps env (SameData-OfStores w0) (r ∷ records) sink)
            (λ e.
              >>=-Keeps
                (abort-Keeps env (SameData-OfStores w0) (metrics_spool_file env prefix run_ctx))
                (λ _. raise-Keeps e)))
          λ written. >>=-Keeps (close_sink-Keeps env (SameData-OfStores w0) written) λ result.
            if-Keeps run_ctx.dry_run
              (λ _. >>=-Keeps (unlink-Keeps env (SameData-OfStores w0) _) (λ _. pure-Keeps _))
              (λ real. cc)

module _ {Doc Oid Client : Type 0} (s : Surroundings Doc Oid Client) (cfg : AgentConfig)
    (only : Option (List String)) (collection : Option String) (w0 : World) where
  sampled-SameData :
      (p : Progress) (m : Exec (List UnitResult))
      → Keeps (SameData w0) m
      → Keeps (SameData w0) (sampled s cfg only collection true p m)
  unfolding sampled
  sampled-SameData p m h = >>=-Keeps (>>=-Keeps (asks-Keeps _) (λ _. pure-Keeps _)) λ before.
      >>=-Keeps h
        λ results. >>=-Keeps (>>=-Keeps (asks-Keeps _) (λ _. pure-Keeps _)) (λ after. pure-Keeps _)

  module _ (spool_dir : String) where
    abbrev ctx : RunContext
    ctx = context s cfg only collection true spool_dir

    mongo_with-SameData :
        (p : Progress) (o : Option MongoConfig)
        → Keeps (SameData w0) (mongo_with s cfg only collection true ctx p o)
    mongo_with-SameData p none = pure-Keeps p
    mongo_with-SameData p (some mongo_cfg) = sampled-SameData p _ (
        extract_all-SameData s.env s.json s.bson cfg.s3.prefix ctx mongo_cfg.database s.mongo w0
          refl _ _)

    modules-SameData : Keeps (SameData w0) (modules s cfg only collection true ctx)
    unfolding modules mongo_module logs_module hostmetrics_module
    modules-SameData =
        >>=-Keeps
          (if-Keeps (wants only "mongo" && cfg.mongo_enabled) (λ _. mongo_with-SameData _ cfg.mongo)
            (λ _. pure-Keeps _))
          λ p.
            >>=-Keeps
              (if-Keeps (wants only "logs" && cfg.logs.enabled)
                (λ _. sampled-SameData p _ (
                  ship_all-SameData s.env s.hexdigest s.decode s.calendar s.disk cfg.s3.prefix ctx
                    refl w0 cfg.logs))
                (λ _. pure-Keeps p))
              λ q.
                if-Keeps (wants only "hostmetrics" && cfg.hostmetrics.enabled)
                  (λ _. sampled-SameData q _ (
                    >>=-Keeps (ship_metrics-SameData s.env cfg.s3.prefix ctx w0 refl _)
                      (λ u. pure-Keeps _)))
                  (λ _. pure-Keeps q)

  record_run-SameData :
      (raises : ℕ → Bool) (now : String) (summary : RunSummary) (w : World) (n : ℕ)
      → SameData w0 w
      → SameData w0 (record w { db = (record_run raises now s.dumps summary w.db).1; budget = n })
  unfolding record_run
  record_run-SameData raises now summary w n h =
      transaction-keeps (λ db. SameData w0 (record w { db = db; budget = n })) raises
        (upsert_run raises now s.dumps summary ∷ []) w.db (SameData-OfStores w0 _ _ refl refl h)
        (record { watermarks = h.watermarks; file_offsets = h.file_offsets; bucket = h.bucket })

  conclude-SameData : (p : Progress) → Keeps (SameData w0) (conclude s cfg only collection true p)
  unfolding conclude
  conclude-SameData p = >>=-Keeps (asks-Keeps _) λ duration_s.
      >>=-Keeps (commit-Keeps _ (λ w n h. record_run-SameData _ _ _ w n h)) (λ _. pure-Keeps _)

  open_state-SameData : Keeps (SameData w0) (open_state s cfg only collection true)
  unfolding open_state
  open_state-SameData = commit-Keeps _ (λ w n h.
      SameData-OfStores w0 _ _ (open_store-contents (s.opening w) (tables_of w.db)) refl h)

  run_modules-SameData : Keeps (SameData w0) (run_modules s cfg only collection true)
  unfolding run_modules
  run_modules-SameData = >>=-Keeps open_state-SameData λ _.
      >>=-Keeps (setup_spool-SameData s.dirs cfg.spool_dir w0 _) λ spool_dir.
        >>=-Keeps (sweep_orphans-SameData s.dirs cfg.spool_dir w0 _) λ swept.
          >>=-Keeps (asks-Keeps _)
            λ _. >>=-Keeps (modules-SameData spool_dir) λ p. conclude-SameData p

  locked-SameData : (o : Option ℤ) → Keeps (SameData w0) (locked s cfg only collection true o)
  unfolding locked
  locked-SameData (some other) = pure-Keeps 2
  locked-SameData none =
      >>=-Keeps (try-exception-Keeps run_modules-SameData (λ e. pure-Keeps 2)) λ code.
        >>=-Keeps
          (λ w h.
            Post-map (release-Post s.env _ w)
              (λ u w' c. SameData-OfStores w0 _ _ c.1.db c.1.bucket h)
              (λ w' c. SameData-OfStores w0 _ _ c.db c.bucket h))
          (λ _. pure-Keeps code)

  acquire-SameData :
      Keeps (SameData w0) (acquire s.env (lock_path s cfg only collection true) s.pid_exists s.pid)
  acquire-SameData w h =
      Post-map (acquire-Post s.env (lock_path s cfg only collection true) s.pid_exists s.pid w)
        (λ o w' a. go a) (λ w' c. SameData-OfStores w0 _ _ c.db c.bucket h)
    where
      go :
          {o : Option ℤ} {w' : World}
          → Acquires s.env (lock_path s cfg only collection true) s.pid_exists s.pid w o w'
          → SameData w0 w'
      go (granted e l c) = SameData-OfStores w0 _ _ c.db c.bucket h
      go (already_running e) = h

  -- A run with `--dry-run`, of whatever modules, changes no object of the bucket, no watermark and no
  -- file offset, whether it returns a code, raises or dies, and whatever the modules meet.
  pub run_cycle-SameData :
      Post (λ code w'. SameData w0 w') (SameData w0) (run_cycle s cfg only collection true w0)
  unfolding run_cycle
  run_cycle-SameData =
      >>=-Keeps (asks-Keeps _) (λ _. >>=-Keeps acquire-SameData (λ o. locked-SameData o)) w0
        (SameData-refl w0)
