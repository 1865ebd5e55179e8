-- ===== src/Runner.antt =====
-- mongo-sync-agent/src/mongo_sync_agent/runner.py: one run of the agent, from the lock to the exit
-- code; and logging_setup.py: the peak of the memory that it uses.
pub mod HostMetricsUnit
pub mod Units
pub mod Endings
pub mod DryRun
use Prim.Native.String.{◌++◌ as ◌<>◌}
use alteryx_server_maintenan.Prelude.{
  ℕ, ◌+◌, ltb, String, Bool, true, false, ◌&&◌, ◌||◌, Option, none, some, List, [], ◌∷◌, ◌++◌,
  str_eq, if◌then◌else◌, Result, ok, raised, Exn,
}
use alteryx_server_maintenan.Prelude.Int.{ℤ}
use alteryx_server_maintenan.Config.{CollectionConfig, LogsConfig, MongoConfig, AgentConfig}
use alteryx_server_maintenan.DateTime.{DateTime, isoformat}
use alteryx_server_maintenan.RunnerTypes.{RunContext, UnitResult, RunSummary, exit_code}
use alteryx_server_maintenan.State.{record_run}
use alteryx_server_maintenan.State.Open.{Opening, open_store, tables_of, contents}
use alteryx_server_maintenan.World.{World, Env}
use alteryx_server_maintenan.World.Exec.{
  Exec, pure, lift, ◌>>=◌, ◌>>◌, try_except, except_exception, commit,
}
use alteryx_server_maintenan.Spool.Sweep.{Directories, setup_spool, sweep_orphans}
use alteryx_server_maintenan.Locking.{acquire, release}
use alteryx_server_maintenan.Logging.{Loguru, LogState, configure_logging}
use alteryx_server_maintenan.Mongo.Watermark.Strategies.{Bson, Filter}
use alteryx_server_maintenan.Mongo.Extract.{Mongo, Json}
use alteryx_server_maintenan.Mongo.All.{extract_all}
use alteryx_server_maintenan.Mongo.Connect.{ClientOptions, connect_and_ping}
use alteryx_server_maintenan.Logs.Tailer.{Bytes, Text}
use alteryx_server_maintenan.Logs.Sources.{Calendar}
use alteryx_server_maintenan.Logs.Ship.{Disk, ship_all}
use alteryx_server_maintenan.HostMetrics.{Psutil, collect}
use alteryx_server_maintenan.Runner.HostMetricsUnit.{ship_metrics}

-- What a run meets: the third-party code that it calls and what the machine tells it. `elapsed` is in
-- hundredths of a second; `make_uploader` is the constructor, which may raise.
pub record Surroundings (Doc Oid Client : Type 0) : Type 0 where
  pub env : Env
  pub json : Json Doc
  pub bson : Bson Doc Oid
  pub mongo : Mongo Doc (Filter Oid)
  pub mongo_client : World → ClientOptions → Result Client
  pub ping_command : World → Client → Result (Unit {0})
  pub hexdigest : Bytes → String
  pub decode : Text → Bytes → Result Text
  pub calendar : Calendar
  pub disk : Disk
  pub psutil : Psutil
  pub dirs : Directories
  pub pid_exists : World → ℤ → Bool
  pub pid : ℤ
  pub run_id : String
  pub run_dt : DateTime
  pub gethostname : String
  pub rss : World → Result ℕ
  pub elapsed : World → ℕ
  pub loguru : World → Loguru
  pub logs_before : LogState
  pub opening : World → Opening
  pub make_uploader : World → Result (Unit {0})
  pub dumps : List UnitResult → String

-- `PeakRssTracker.sample`, from one peak to the next.
abbrev pub higher : ℕ → ℕ → ℕ
higher peak rss = if ltb peak rss then rss else peak

-- `only is None or name in only`.
unfoldable pub wants : Option (List String) → String → Bool
wants none name = true
wants (some []) name = false
wants (some (m ∷ only)) name = let rest = wants (some only) name in str_eq m name || rest

unfoldable pub named : String → List CollectionConfig → List CollectionConfig
named name [] = []
named name (c ∷ colls) =
    let rest = named name colls in if str_eq c.name name then c ∷ rest else rest

-- `if collection:`.
unfoldable pub selected : Option String → List CollectionConfig → List CollectionConfig
unfolding named
selected none colls = colls
selected (some name) colls = if str_eq name "" then colls else named name colls

-- `cfg.host_id or socket.gethostname()`.
abbrev pub host_of : Option String → String → String
host_of none hostname = hostname
host_of (some host_id) hostname = if str_eq host_id "" then hostname else host_id

-- `results`, and the peak of the tracker.
pub record Progress : Type 0 where
  pub results : List UnitResult
  pub peak : ℕ

module _ {Doc Oid Client : Type 0} (s : Surroundings Doc Oid Client) (cfg : AgentConfig)
    (only : Option (List String)) (collection : Option String) (dry_run : Bool) where
  abbrev pub sample : ℕ → Exec ℕ
  sample peak = do rss ← (λ w. (s.rss w, w)); pure (higher peak rss)

  -- A module, with samples before and after it.
  unfoldable pub sampled : Progress → Exec (List UnitResult) → Exec Progress
  sampled p m = do
    before ← sample p.peak
    results ← m
    after ← sample before
    pure (record { results = p.results ++ results; peak = after })

  abbrev pub extract_from : RunContext → MongoConfig → Exec (List UnitResult)
  extract_from run_ctx mongo_cfg =
      extract_all s.env s.json s.bson cfg.s3.prefix run_ctx mongo_cfg.database s.mongo
        (λ w. connect_and_ping (s.mongo_client w) (s.ping_command w) mongo_cfg)
        (selected collection cfg.collections)

  abbrev mongo_with : RunContext → Progress → Option MongoConfig → Exec Progress
  mongo_with run_ctx p none = pure p
  mongo_with run_ctx p (some mongo_cfg) = sampled p (extract_from run_ctx mongo_cfg)

  unfoldable pub mongo_module : RunContext → Progress → Exec Progress
  unfolding sampled
  mongo_module run_ctx p =
      if wants only "mongo" && cfg.mongo_enabled then mongo_with run_ctx p cfg.mongo else pure p

  unfoldable pub logs_module : RunContext → Progress → Exec Progress
  unfolding sampled
  logs_module run_ctx p =
      if wants only "logs" && cfg.logs.enabled
      then sampled p
          (ship_all s.env s.hexdigest s.decode s.calendar s.disk cfg.s3.prefix run_ctx cfg.logs)
      else pure p

  unfoldable pub hostmetrics_module : RunContext → Progress → Exec Progress
  unfolding sampled
  hostmetrics_module run_ctx p =
      if wants only "hostmetrics" && cfg.hostmetrics.enabled
      then sampled p (do
        u ←
            ship_metrics s.env cfg.s3.prefix run_ctx
              (collect s.psutil cfg.hostmetrics.disks run_ctx.host)
        pure (u ∷ []))
      else pure p

  abbrev pub summary_of : Progress → ℕ → RunSummary
  summary_of p duration_s = record {
    run_id = s.run_id;
    run_dt = isoformat s.run_dt;
    duration_s = duration_s;
    peak_rss_bytes = p.peak;
    units = p.results;
  }

  -- The summary is persisted.
  unfoldable pub conclude : Progress → Exec ℕ
  conclude p = do
    duration_s ← (λ w. (ok (s.elapsed w), w))
    commit
        (λ w db. record_run (s.env.sql_raises w) (s.env.now w) s.dumps (summary_of p duration_s) db)
    pure (exit_code (summary_of p duration_s))

  abbrev pub context : String → RunContext
  context spool_dir = record {
    run_id = s.run_id;
    run_dt = s.run_dt;
    spool_dir = spool_dir;
    dry_run = dry_run;
    host = host_of cfg.host_id s.gethostname;
  }

  unfoldable pub modules : RunContext → Exec Progress
  modules run_ctx = do
    after_mongo ← mongo_module run_ctx (record { results = []; peak = 0 })
    after_logs ← logs_module run_ctx after_mongo
    hostmetrics_module run_ctx after_logs

  -- `StateStore(Path(cfg.state_db))`. The database of the world is what the tables read as.
  unfoldable pub open_state : Exec (Unit {0})
  open_state =
      commit (λ w db. let (r, t) = open_store (s.opening w) (tables_of db) in (r, contents t))

  -- The body of the `try`.
  unfoldable pub run_modules : Exec ℕ
  run_modules = do
    open_state
    spool_dir ← setup_spool s.dirs cfg.spool_dir s.run_id
    orphans_swept ← sweep_orphans s.dirs cfg.spool_dir s.run_id
    (λ w. (s.make_uploader w, w))
    p ← modules (context spool_dir)
    conclude p

  abbrev pub lock_path : String
  lock_path = cfg.spool_dir <> "/.lock"

  -- `except Exception: return 2`, and the `finally`.
  unfoldable pub locked : Option ℤ → Exec ℕ
  locked (some other) = pure 2
  locked none = do
    code ← try_except run_modules (except_exception (λ e. pure 2))
    release s.env lock_path
    pure code

  -- `configure_logging(cfg.log_dir, run_id, cfg.log_level)`: whether it raises. What it configures
  -- changes nothing else of a run.
  abbrev pub logging_configured : World → Result (Unit {0})
  logging_configured w =
      (configure_logging (s.loguru w) cfg.log_dir s.run_id cfg.log_level s.logs_before).0

  unfoldable pub run_cycle : Exec ℕ
  run_cycle = do
    (λ w. (logging_configured w, w))
    other ← acquire s.env lock_path s.pid_exists s.pid
    locked other
