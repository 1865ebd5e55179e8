-- ===== src/Tests/Logs.antt =====
-- The theorems on logs/sources.py and logs/ship.py at concrete inputs.
use mathlib.Core.Option
use mathlib.Core.List.{Permᴰ}
use alteryx_server_maintenan.Prelude.{
  ℕ, String, ◌≡◌, refl, Bool, true, false, some, List, [], ◌∷◌, ok, Result,
}
use alteryx_server_maintenan.Prelude.Dict.{Dict, lookup, string_key, pair_key}
use alteryx_server_maintenan.Prelude.Int.{ℤ, pos}
use alteryx_server_maintenan.Config.{LogSourceConfig}
use alteryx_server_maintenan.RunnerTypes.{RunContext}
use alteryx_server_maintenan.State.{
  FileOffset, empty_db, get_offsets, set_offsets, transaction, run_statements,
}
use alteryx_server_maintenan.State.ReadBack.{newest}
use alteryx_server_maintenan.World.{World, Env, stored, no_lock}
use alteryx_server_maintenan.World.Rules.{Post}
use alteryx_server_maintenan.Logs.Tailer.{Bytes, Text, codes, contents}
use alteryx_server_maintenan.Logs.Sources.{
  Match, TailPlan, Calendar, fingerprint, plan_of, discover, gc_offsets,
}
use alteryx_server_maintenan.Logs.Sources.Order.{Regulars, Plans, IsSorted, discover-IsSorted}
use alteryx_server_maintenan.Logs.Sources.Resume.{
  IsResumable, plan_of-IsResumable, plan_of-renamed, plan_of-set_offsets,
}
use alteryx_server_maintenan.Logs.Sources.Pruning.{Prunes, PrunesSome, gc_offsets-Post}
use alteryx_server_maintenan.Logs.Ship.{Disk, ship_source}
use alteryx_server_maintenan.Logs.Ship.Outcomes.{Outcome, IsSafe}
use alteryx_server_maintenan.Logs.Ship.Safety.{ship_source-Outcome}

abbrev pub hexdigest : Bytes → String
hexdigest raw = "ab"

abbrev log_file : String → ℕ → Match
log_file path mtime = record {
  path = path;
  stat = some (record { mtime = mtime; is_regular = true });
  size = some 5000;
  file_bytes = some (codes "2026");
  size_now = some 5000;
}

abbrev offset_at : ℤ → FileOffset
offset_at offset = record {
  fingerprint = "ab";
  last_path = "C:/logs/a.log";
  offset = offset;
  file_size_at_read = pos 5000;
  updated_at = "t1";
}

abbrev stored_offsets : Dict String FileOffset
stored_offsets = ("ab", offset_at (pos 4800)) ∷ []

abbrev plan_a : TailPlan
plan_a = record { path = "C:/logs/a.log"; fingerprint = some "ab"; start_offset = pos 4800 }

abbrev two_files : List Match
two_files = log_file "C:/logs/a.log" 9 ∷ log_file "C:/logs/b.log" 3 ∷ []

discover-IsSorted_example :
    (regular sorted : List Match) × Regulars two_files regular
    × Permᴰ regular sorted
    × IsSorted sorted
    × Plans hexdigest stored_offsets sorted (discover hexdigest stored_offsets two_files)
discover-IsSorted_example = discover-IsSorted hexdigest stored_offsets two_files

plan_of-a : plan_of hexdigest stored_offsets (log_file "C:/logs/a.log" 9) ≡ some plan_a
unfolding plan_of lookup
plan_of-a = refl

plan_of-IsResumable_example :
    IsResumable hexdigest stored_offsets (log_file "C:/logs/a.log" 9) 5000 plan_a
plan_of-IsResumable_example =
    plan_of-IsResumable hexdigest stored_offsets (log_file "C:/logs/a.log" 9) 5000 refl plan_of-a

plan_of-renamed_example :
    plan_of hexdigest stored_offsets (log_file "C:/logs/a.1.log" 9)
    ≡ Option.map
        (λ (plan : TailPlan). record plan { path = "C:/logs/a.1.log" })
        (plan_of hexdigest stored_offsets (log_file "C:/logs/a.log" 9))
plan_of-renamed_example =
    plan_of-renamed hexdigest stored_offsets (log_file "C:/logs/a.log" 9) 5000 "C:/logs/a.1.log"
      refl refl

abbrev pub never : ℕ → Bool
never k = false

set_offsets-ok :
    (set_offsets never "t2" "gallery" (offset_at (pos 4900) ∷ []) "r2" empty_db).0 ≡ ok tt
unfolding set_offsets transaction run_statements
set_offsets-ok = refl

fingerprint-a : fingerprint hexdigest (log_file "C:/logs/a.log" 9) ≡ some (some "ab")
unfolding fingerprint
fingerprint-a = refl

newest-ab : newest "ab" (offset_at (pos 4900) ∷ []) ≡ some (offset_at (pos 4900))
unfolding newest
newest-ab = refl

plan_of-set_offsets_example :
    plan_of hexdigest
      (get_offsets "gallery"
        (set_offsets never "t2" "gallery" (offset_at (pos 4900) ∷ []) "r2" empty_db).1)
      (log_file "C:/logs/a.log" 9)
    ≡ some (record plan_a { start_offset = pos 4900 })
plan_of-set_offsets_example =
    plan_of-set_offsets hexdigest never "t2" "gallery" "r2" (offset_at (pos 4900) ∷ []) empty_db
      (log_file "C:/logs/a.log" 9) (some "ab") 5000 (offset_at (pos 4900)) set_offsets-ok
      fingerprint-a newest-ab refl refl

abbrev pub env : Env
env = record {
  now = λ w. "t3";
  sql_raises = λ w k. false;
  write_raises = λ w path. false;
  select_raises = λ w. false;
  unlink_raises = λ w path. false;
  s3_reply = λ w path key. stored "etag";
  size = λ c. 9;
}

-- Every stored time is a second, and it is 30 days later now.
abbrev pub calendar : Calendar
calendar = record { fromisoformat = λ s. some 1; clock = λ w. 2592000000000 }

abbrev pub filled : World
filled = record {
  db = record empty_db {
    file_offsets =
        (
          ("gallery", "ab"),
          record {
            last_path = "C:/logs/a.log";
            offset = pos 3;
            file_size_at_read = pos 3;
            updated_at = "t1";
            run_id = "r1";
          },
        )
        ∷ [];
  };
  spool = [];
  lock = no_lock;
  run_dirs = [];
  bucket = [];
  budget = 4;
}

gc_offsets-Post_example :
    Post
      (λ n w'. Prunes env calendar "gallery" ("cd" ∷ []) (pos 14) n filled w')
      (λ w'. PrunesSome env calendar "gallery" ("cd" ∷ []) (pos 14) filled w')
      (gc_offsets env calendar "gallery" ("cd" ∷ []) (pos 14) filled)
gc_offsets-Post_example = gc_offsets-Post env calendar "gallery" ("cd" ∷ []) (pos 14) filled

abbrev pub latin1 : Text → Bytes → Result Text
latin1 encoding raw = ok raw

abbrev pub disk : Disk
disk = record {
  glob = λ g. two_files;
  reads = λ path k. contents (codes "ab\ncd\n");
  bound = 6;
  size_at = λ path. some 6;
  shipped_at = λ path offset. "t3";
}

abbrev pub gallery : LogSourceConfig
gallery = record {
  name = "gallery";
  path_glob = "C:/logs/*.log";
  encoding = codes "utf-8";
  max_bytes_per_poll = pos 4;
}

abbrev pub run_ctx : RunContext
run_ctx = record {
  run_id = "r1";
  run_dt = record {
    year = 2026;
    month = 4;
    day = 1;
    hour = 12;
    minute = 0;
    second = 5;
    microsecond = 7;
  };
  spool_dir = "spool";
  dry_run = false;
  host = "h";
}

-- The process dies between the upload and the commit.
ship_source-Outcome_example :
    Post
      (Outcome env hexdigest latin1 calendar disk "pre" gallery run_ctx (pos 14) filled)
      (IsSafe env hexdigest latin1 calendar disk "pre" gallery run_ctx (pos 14) filled)
      (ship_source env hexdigest latin1 calendar disk "pre" gallery run_ctx (pos 14) filled)
ship_source-Outcome_example =
    ship_source-Outcome env hexdigest latin1 calendar disk "pre" gallery run_ctx (pos 14) filled
