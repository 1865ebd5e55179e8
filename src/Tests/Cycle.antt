-- ===== src/Tests/Cycle.antt =====
-- The command line, the log output, the opening of the store, and what one run leaves to the next, at
-- concrete inputs.
use alteryx_server_maintenan.Prelude.{
  ℕ, ◌*◌, ◌≤◌, String, refl, true, false, Option, none, some, [], ◌∷◌, ok, raised, Result,
  exception,
}
use mathlib.Core.Path.{subst}
use alteryx_server_maintenan.Config.Load.{parsed}
use alteryx_server_maintenan.DateTime.{DateTime}
use alteryx_server_maintenan.Logging.{Loguru, Sink, initial_log_state, configure_logging}
use alteryx_server_maintenan.Logging.Configured.{Configures, configure_logging-Configures}
use alteryx_server_maintenan.State.Open.{Opening, Tables, Opens, open_store, open_store-Opens}
use alteryx_server_maintenan.World.Keeping.{SameData}
use alteryx_server_maintenan.World.Rules.{Post}
use alteryx_server_maintenan.Runner.{run_cycle}
use alteryx_server_maintenan.Runner.DryRun.{run_cycle-SameData}
use alteryx_server_maintenan.Cli.{Args, Files, main}
use alteryx_server_maintenan.Cli
use alteryx_server_maintenan.Cli.Exits.{Exits, main-Exits}
use alteryx_server_maintenan.Mongo.Watermark.Clock.{instant}
use alteryx_server_maintenan.Mongo.Watermark.RoundTrip.{IsDate, truncated}
use alteryx_server_maintenan.Mongo.Watermark.Strategies.{Bson, Filter, missing, timestamp_watermark}
use alteryx_server_maintenan.Mongo.Extract.{Mongo, Json, extract_collection}
use alteryx_server_maintenan.Mongo.Continuity.{HasDates, NextRun, extract_collection-Next}
use alteryx_server_maintenan.Tests.Config.{accepted, document}
use alteryx_server_maintenan.Tests.Extract.{env, world, run_ctx}
use alteryx_server_maintenan.Tests.Runner.{server}
use alteryx_server_maintenan.Tests.Watermark.{leap_day, leap_day-IsDate, jobs, enough}

-- A dry run of all modules.
run_cycle-SameData_example :
    Post
      (λ code w'. SameData (world 40) w')
      (SameData (world 40))
      (run_cycle server accepted none none true (world 40))
run_cycle-SameData_example = run_cycle-SameData server accepted none none (world 40)

-- A store with a table of watermarks only, as an older version might have left it.
abbrev old_tables : Tables
old_tables = record {
  watermarks = some (
      ("mongo:db.users", record { kind = "objectid"; value = "5f"; updated_at = "t"; run_id = "r" })
      ∷ []);
  file_offsets = none;
  runs = none;
}

abbrev opens : Opening
opens = record { mkdir = ok tt; connect = ok tt; pragma = λ p. ok tt; sql_raises = λ k. false }

open_store-Opens_example : Opens opens old_tables (open_store opens old_tables)
open_store-Opens_example = open_store-Opens opens old_tables

-- A level that loguru does not know is refused by the console sink.
abbrev refuse_loud : Sink → Result (Unit {0})
refuse_loud s = elim s.rotated [ none ↦ raised (exception "ValueError") | some r ↦ ok tt ]

abbrev loud : Loguru
loud = record {
  upper = λ level. level;
  level_name = λ name. none;
  add = refuse_loud;
  takes = λ sink_level level. true;
  mkdir = λ log_dir. ok tt;
}

configure_logging-Configures_example :
    Configures loud "C:/logs" "r1" "LOUD" initial_log_state
      (configure_logging loud "C:/logs" "r1" "LOUD" initial_log_state)
configure_logging-Configures_example =
    configure_logging-Configures loud "C:/logs" "r1" "LOUD" initial_log_state

abbrev files : Files
files = record { toml = λ w path. parsed document; default_log_dir = "C:/log" }

abbrev metrics_args : Args
metrics_args = record {
  config = "msa.toml";
  only = some ("hostmetrics" ∷ []);
  collection = none;
  dry_run = false;
}

main-Exits_example :
    Exits server files metrics_args
      (world 20)
      (main server files (Cli.parsed metrics_args) (world 20))
main-Exits_example = main-Exits server files metrics_args (world 20)

-- Documents that were all updated on the leap day.
abbrev pub updated : Bson String ℕ
updated = record {
  id_of = λ doc. missing;
  date_at = λ field doc. some leap_day;
  object_id = λ text. ok 0;
  generation_time = λ oid. oid;
  from_datetime = λ t. ok t;
  is_above = λ a b. none;
  id_text = λ oid. "";
}

abbrev pub two_updates : Mongo String (Filter ℕ)
two_updates = record {
  find = λ w coll filter_doc sort batch_size. ok (record { docs = "a" ∷ "b" ∷ []; fault = none });
}

abbrev pub json : Json String
json = record { dumps = λ doc. ok doc; id_text = λ doc. doc }

abbrev OfDate : Option DateTime → Type 0
OfDate none = Unit
OfDate (some d) = IsDate d × (30 * 1000000 ≤ instant (truncated d))

pub updated-HasDates : HasDates env json updated "pre" jobs run_ctx "db" two_updates 30
updated-HasDates doc d h = subst (λ o. OfDate o) h (leap_day-IsDate, enough)

extract_collection-Next_example :
    Post
      (λ u w'. NextRun env json updated "pre" jobs run_ctx "db" two_updates 30 (world 20) w')
      (NextRun env json updated "pre" jobs run_ctx "db" two_updates 30 (world 20))
      (extract_collection env json
        (timestamp_watermark updated jobs)
        "pre"
        jobs
        run_ctx
        "db"
        two_updates
        (world 20))
extract_collection-Next_example =
    extract_collection-Next env json updated "pre" jobs run_ctx "db" two_updates 30 updated-HasDates
      refl (world 20)
