-- ===== src/Tests/Runner.antt =====
-- A run of the agent, and the theorems on runner.py and locking.py at concrete inputs.
use alteryx_server_maintenan.Prelude.{
  ℕ, zero, suc, String, ◌≡◌, ◌≢◌, refl, true, false, none, some, [], ◌∷◌, ok,
}
use alteryx_server_maintenan.Prelude.Int.{pos}
use alteryx_server_maintenan.World.{World, holds}
use alteryx_server_maintenan.Locking.{owner}
use alteryx_server_maintenan.Locking.Exclusion.{
  Phase, idle, running, gone, Machine, set_phase, Reaches, start, then_step, acquires, is_refused,
  Reaches-exclusive,
}
use alteryx_server_maintenan.Locking.Race.{SplitReaches, passes, writes}
use alteryx_server_maintenan.Locking.Race
use alteryx_server_maintenan.Runner.{Surroundings, run_cycle}
use alteryx_server_maintenan.World.Exec.{◌>>=◌, os_effect, effect, try_except, commit}
use alteryx_server_maintenan.Locking.{acquire, release, write_lock}
use alteryx_server_maintenan.Runner.{
  locked, open_state, run_modules, modules, mongo_module, wants, logs_module, hostmetrics_module,
  sampled, conclude,
}
use alteryx_server_maintenan.Runner.HostMetricsUnit.{ship_metrics, try_metrics, after_metrics}
use alteryx_server_maintenan.Spool.Sweep.{setup_spool, sweep_orphans, sweep_each}
use alteryx_server_maintenan.HostMetrics.{collect, collect_disks}
use alteryx_server_maintenan.Sinks.{open_sink, write_metrics, close_sink, unlink, abort}
use alteryx_server_maintenan.S3.{upload, upload_content, by_reply}
use alteryx_server_maintenan.State.{record_run, transaction, run_statements}
use alteryx_server_maintenan.Logging.{initial_log_state, configure_logging}
use alteryx_server_maintenan.State.Open.{open_store, prepare, run_pragmas, init_schema}
use alteryx_server_maintenan.RunnerTypes.{exit_code, any_failed}
use alteryx_server_maintenan.Spool.{spool_path}
use alteryx_server_maintenan.Prelude.Dict.{lookup, upsert}
use alteryx_server_maintenan.Prelude.{All}
use alteryx_server_maintenan.World.Rules.{Post}
use alteryx_server_maintenan.Spool.Sweep.Orphans.{Survives, orphans, sweep_orphans-Post}
use alteryx_server_maintenan.Runner.Endings.{Ending, run_cycle-Ending}
use alteryx_server_maintenan.Runner.Units.{Returns}
use alteryx_server_maintenan.Tests.Config.{accepted}
use alteryx_server_maintenan.Tests.HostMetrics.{psutil}
use alteryx_server_maintenan.Tests.Logs.{hexdigest, latin1, calendar, disk}
use alteryx_server_maintenan.Tests.Extract.{env, json, bson, bson_docs, world, run_ctx}

abbrev pub server : Surroundings String String (Unit {0})
server = record {
  env = env;
  json = json;
  bson = bson;
  mongo = bson_docs;
  mongo_client = λ w options. ok tt;
  ping_command = λ w client. ok tt;
  hexdigest = hexdigest;
  decode = latin1;
  calendar = calendar;
  disk = disk;
  psutil = psutil;
  dirs = record {
    base_exists = λ w. true;
    mkdir_raises = λ w name. false;
    iterdir_raises = λ w. false;
    rmtree_fails = λ w name. false;
  };
  pid_exists = λ w pid. true;
  pid = pos 42;
  run_id = "r1";
  run_dt = run_ctx.run_dt;
  gethostname = "host";
  rss = λ w. ok 1000;
  elapsed = λ w. 150;
  loguru = λ w. record {
    upper = λ level. level;
    level_name = λ name. some name;
    add = λ sink. ok tt;
    takes = λ sink_level level. true;
    mkdir = λ log_dir. ok tt;
  };
  logs_before = initial_log_state;
  opening =
      λ w. record { mkdir = ok tt; connect = ok tt; pragma = λ p. ok tt; sql_raises = λ k. false };
  make_uploader = λ w. ok tt;
  dumps = λ units. "[]";
}

run_cycle-Ending_example :
    Returns
      (Ending server accepted (some ("hostmetrics" ∷ [])) none false (world 20))
      (run_cycle server accepted (some ("hostmetrics" ∷ [])) none false (world 20))
run_cycle-Ending_example =
    run_cycle-Ending server accepted (some ("hostmetrics" ∷ [])) none false (world 20)

-- A machine where nobody runs, with the lock file of a process that is gone.
abbrev phases : ℕ → Phase
phases zero = gone
phases (suc n) = idle

abbrev stale : Machine
stale = record { file = holds (pos 0); phase = phases }

abbrev taken : Machine
taken = record { file = holds (pos 1); phase = set_phase 1 running phases }

nobody : (p : ℕ) → stale.phase p ≢ running
nobody zero e = cc
nobody (suc p) e = cc

one_runs : Reaches stale (record taken { phase = set_phase 2 gone taken.phase })
unfolding owner
one_runs = then_step (then_step start (acquires 1 refl refl)) (is_refused 2 (pos 1) refl refl)

Reaches-exclusive_example : ◌≡◌ {A = ℕ} 1 1
Reaches-exclusive_example = Reaches-exclusive nobody one_runs 1 1 refl refl

-- Two processes that pass the test of `acquire` before either of them writes the file both run.
both_run : (m : Machine) × SplitReaches stale m × (m.phase 1 ≡ running) × (m.phase 2 ≡ running)
unfolding owner
both_run = (
  _,
  Race.then_step
      (Race.then_step
        (Race.then_step (Race.then_step Race.start (passes 1 refl refl)) (passes 2 refl refl))
        (writes 1 refl))
      (writes 2 refl),
  refl,
  refl,
)

-- The host metrics alone: the run succeeds.
metrics_only :
    (run_cycle server accepted (some ("hostmetrics" ∷ [])) none false (world 20)).0 ≡ ok 0
unfolding run_cycle configure_logging ◌>>=◌ os_effect effect try_except commit acquire release
    write_lock locked run_modules open_state open_store prepare run_pragmas init_schema modules
    mongo_module wants logs_module hostmetrics_module sampled conclude ship_metrics try_metrics
    after_metrics setup_spool sweep_orphans sweep_each collect collect_disks open_sink write_metrics
    close_sink unlink abort upload upload_content by_reply record_run transaction run_statements
    exit_code any_failed spool_path lookup upsert
metrics_only = refl

abbrev littered : World
littered = record (world 9) { run_dirs = "r1" ∷ "r0" ∷ [] }

sweep_orphans-Post_example :
    Post
      (λ count w'.
        (count ≡ orphans "r1" littered.run_dirs)
        × All (λ d. d ≡ "r1") w'.run_dirs
        × Survives server.dirs "spool" "r1" littered.run_dirs littered w')
      (Survives server.dirs "spool" "r1" littered.run_dirs littered)
      (sweep_orphans server.dirs "spool" "r1" littered)
sweep_orphans-Post_example =
    sweep_orphans-Post server.dirs "spool" "r1" (λ w name. refl) littered refl
