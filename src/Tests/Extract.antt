-- ===== src/Tests/Extract.antt =====
-- A run of mongo/extract.py, and the theorem on it there.
use alteryx_server_maintenan.Mongo.All.{extract_all}
use alteryx_server_maintenan.Mongo.All.Turns.{CutOf}
use alteryx_server_maintenan.Mongo.All.Settled.{Returned, extract_all-Settled}
use alteryx_server_maintenan.Prelude.{
  ◌≢◌, true, List, ℕ, String, ◌≡◌, refl, false, Option, none, some, [], ◌∷◌, ok,
}
use alteryx_server_maintenan.Prelude.Int.{pos}
use alteryx_server_maintenan.Prelude.Dict.{lookup, upsert, remove, string_key}
use alteryx_server_maintenan.Config.{CollectionConfig, append_only}
use alteryx_server_maintenan.RunnerTypes.{RunContext, status_ok}
use alteryx_server_maintenan.S3.{upload, upload_content, by_reply}
use alteryx_server_maintenan.Sinks.{write_rows, open_writer, close, unlink, abort}
use alteryx_server_maintenan.Spool.{spool_path, dots_to_underscores}
use alteryx_server_maintenan.State.{
  empty_db, get_watermark, set_watermark, transaction, run_statements,
}
use alteryx_server_maintenan.World.{World, Env, stored, no_lock}
use alteryx_server_maintenan.World.Exec.{◌>>=◌, try_except, effect, commit, os_effect}
use alteryx_server_maintenan.World.Rules.{Post}
use alteryx_server_maintenan.Mongo.Watermark.{WatermarkStrategy}
use alteryx_server_maintenan.Mongo.Watermark.Strategies.{Bson, id, Filter}
use alteryx_server_maintenan.Mongo.Extract.{
  Mongo, Json, extract_collection, finish, deliver, try_upload, after_upload, advance_watermark,
  read_cursor, for_docs, flush_if_full, doc_to_row, abort_and_raise,
}
use alteryx_server_maintenan.Sinks.{new_sink}
use alteryx_server_maintenan.Sinks.Laws.{SameStores}
use alteryx_server_maintenan.Mongo.Extract.{Cursor, RowContext}
use alteryx_server_maintenan.Mongo.Extract.Streaming.{IsSpooledFrom, read_cursor-Post}
use alteryx_server_maintenan.Mongo.Extract.Delivery.{Outcome, IsSafe}
use alteryx_server_maintenan.Mongo.Extract.Safety.{extract_collection-Outcome}

abbrev pub env : Env
env = record {
  now = λ w. "2026-04-01T12:00:05";
  sql_raises = λ w k. false;
  write_raises = λ w path. false;
  select_raises = λ w. false;
  unlink_raises = λ w path. false;
  s3_reply = λ w path key. stored "etag";
  size = λ c. 9;
}

abbrev pub json : Json String
json = record { dumps = λ doc. ok doc; id_text = λ doc. doc }

-- A strategy that remembers the last document.
abbrev last_seen : WatermarkStrategy String (Option String) (Option String)
last_seen = record {
  kind = "objectid";
  build_filter = λ prev. ok prev;
  sort_spec = none;
  initial = none;
  observe = λ doc st. ok (some doc);
  new_watermark = λ st. st;
  watermark_column_value = λ doc. ok doc;
}

abbrev two_docs : Mongo String (Option String)
two_docs = record {
  find = λ w coll filter_doc sort batch_size. ok (record { docs = "5f" ∷ "6a" ∷ []; fault = none });
}

-- Documents that are their own `_id`, and `_id`s that are their own text.
abbrev pub bson : Bson String String
bson = record {
  id_of = λ doc. id doc;
  date_at = λ field doc. none;
  object_id = λ text. ok text;
  generation_time = λ oid. 0;
  from_datetime = λ t. ok "00";
  is_above = λ a b. none;
  id_text = λ oid. oid;
}

abbrev pub bson_docs : Mongo String (Filter String)
bson_docs = record {
  find = λ w coll filter_doc sort batch_size. ok (record { docs = "5f" ∷ "6a" ∷ []; fault = none });
}

abbrev users : CollectionConfig
users = record {
  name = "users";
  mode = append_only;
  watermark_field = none;
  overlap_seconds = pos 0;
  batch_size = pos 1;
  initial_watermark = none;
  allow_gridfs_chunks = false;
}

abbrev pub run_ctx : RunContext
run_ctx = record {
  run_id = "r1";
  run_dt = record {
    year = 2026;
    month = 4;
    day = 1;
    hour = 12;
    minute = 0;
    second = 5;
    microsecond = 7;
  };
  spool_dir = "spool";
  dry_run = false;
  host = "h";
}

-- A world that lives to see some number of effects.
abbrev pub world : ℕ → World
world budget = record {
  db = empty_db;
  spool = [];
  bucket = [];
  lock = no_lock;
  run_dirs = [];
  budget = budget;
}

-- All goes well: the watermark is the last document.
extract_collection-returns :
    let (r, w) =
      extract_collection env json last_seen "pre" users run_ctx "db" two_docs (world 20) in
    (r
      ≡ ok (record {
        unit = "users";
        status = status_ok;
        docs = 2;
        bytes_uploaded = 9;
        error = none;
      }))
    × (get_watermark "mongo:db.users" w.db
        ≡ some (record {
          kind = "objectid";
          value = "6a";
          updated_at = "2026-04-01T12:00:05";
          run_id = "r1";
        }))
    × (w.spool ≡ [])
unfolding extract_collection finish deliver try_upload after_upload advance_watermark read_cursor
    for_docs flush_if_full doc_to_row abort_and_raise ◌>>=◌ try_except effect commit os_effect
    write_rows open_writer close unlink abort upload upload_content by_reply get_watermark
    set_watermark transaction run_statements lookup upsert remove dots_to_underscores spool_path
extract_collection-returns = (refl, refl, refl)

-- The process dies between the upload and the commit of the watermark.
extract_collection-Outcome_example :
    Post
      (Outcome env json last_seen "pre" users run_ctx "db" two_docs (world 5))
      (IsSafe env json last_seen "pre" users run_ctx "db" two_docs (world 5))
      (extract_collection env json last_seen "pre" users run_ctx "db" two_docs (world 5))
extract_collection-Outcome_example =
    extract_collection-Outcome env json last_seen "pre" users run_ctx "db" two_docs (world 5)

abbrev cursor : Cursor String
cursor = record { docs = "5f" ∷ "6a" ∷ []; fault = none }

abbrev row_context : RowContext
row_context = record { extracted_at = run_ctx.run_dt; host = "h" }

read_cursor-Post_example :
    Post
      (λ r w'.
        IsSpooledFrom env json last_seen (pos 1) row_context "spool/users.parquet" cursor r.0 r.1 w'
        × SameStores (world 20) w')
      (SameStores (world 20))
      (read_cursor env json last_seen
        (pos 1)
        row_context
        cursor
        (new_sink "spool/users.parquet")
        (world 20))
read_cursor-Post_example =
    read_cursor-Post env json last_seen (pos 1) row_context "spool/users.parquet" cursor (world 20)

-- Files of GridFS are refused; the other collection is extracted.
abbrev collections : List CollectionConfig
collections = record users { name = "fs.chunks" } ∷ users ∷ []

names_differ : ◌≢◌ {A = String} "fs.chunks" "users"
names_differ e = cc

extract_all-Settled_example :
    Post
      (Returned env json bson "pre" run_ctx "db" bson_docs collections (world 20))
      (CutOf env json bson "pre" run_ctx "db" bson_docs collections (world 20))
      (extract_all env json bson "pre" run_ctx "db" bson_docs (λ w. ok true) collections (world 20))
extract_all-Settled_example =
    extract_all-Settled env json bson "pre" run_ctx "db" bson_docs (λ w. ok true) collections
      ((names_differ, tt), (tt, tt)) (world 20)
