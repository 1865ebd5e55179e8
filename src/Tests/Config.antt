-- ===== src/Tests/Config.antt =====
-- The theorems on config.py at concrete documents.
use alteryx_server_maintenan.Prelude.{
  String, ◌≡◌, refl, true, false, none, some, [], ◌∷◌, ok, raised, config_error,
}
use alteryx_server_maintenan.Prelude.Int.{pos}
use alteryx_server_maintenan.Logs.Tailer.Encoding.{codes}
use alteryx_server_maintenan.Config.{mutable, AgentConfig}
use alteryx_server_maintenan.Config.Toml.{
  get, Toml, str, int, array, table, no_items, item, Entries, no_entries, entry,
}
use alteryx_server_maintenan.Config.Parse.{is_table, mode_of, is_refused_name}
use alteryx_server_maintenan.Config.Load.{parsed, load_config}
use alteryx_server_maintenan.Config.Access.{require, optional}
use alteryx_server_maintenan.DateTime.{decimal}
use alteryx_server_maintenan.Config.Valid.{IsConfigError}
use alteryx_server_maintenan.Config.Loaded.{
  IsValidConfig, HasSections, load_config-IsValidConfig, load_config-IsConfigError,
}

abbrev with_mongo : Entries → Entries
with_mongo mongo =
    entry "agent"
      (table (entry "state_db" (str "C:/state.db") (entry "spool_dir" (str "C:/spool") no_entries)))
      (entry "mongo" (table mongo) (
        entry "s3" (table (entry "bucket" (str "lake") no_entries)) (
          entry "logs"
            (table (
              entry "sources"
                (array (
                  item
                    (table (
                      entry "name" (str "engine")
                        (entry "path_glob" (str "C:/logs/*.log") no_entries)))
                    no_items))
                no_entries))
            no_entries)))

abbrev collections : Toml → Entries
collections c =
    entry "database" (str "gallery") (entry "collections" (array (item c no_items)) no_entries)

abbrev pub document : Entries
document = with_mongo (
    collections (
      table (
        entry "name" (str "jobs") (
          entry "mode" (str "mutable") (
            entry "watermark_field" (str "updated")
              (entry "batch_size" (int (pos 2)) no_entries))))))

-- A mutable collection without the field to follow.
abbrev unfollowed : Entries
unfollowed =
    with_mongo
      (collections (table (entry "name" (str "jobs") (entry "mode" (str "mutable") no_entries))))

abbrev pub accepted : AgentConfig
accepted = record {
  state_db = "C:/state.db";
  spool_dir = "C:/spool";
  log_dir = "C:/agent";
  log_level = "WARNING";
  mongo_enabled = true;
  mongo = some (record {
    database = "gallery";
    uri = none;
    host = "localhost";
    port = pos 27017;
    username = none;
    password = none;
    auth_source = "admin";
    tls = false;
    tls_ca_file = none;
    server_selection_timeout_ms = pos 5000;
  });
  collections =
      record {
        name = "jobs";
        mode = mutable;
        watermark_field = some "updated";
        overlap_seconds = pos 30;
        batch_size = pos 2;
        initial_watermark = none;
        allow_gridfs_chunks = false;
      }
      ∷ [];
  s3 = record { bucket = "lake"; region = "us-east-1"; prefix = "" };
  logs = record {
    enabled = true;
    sources =
        record {
          name = "engine";
          path_glob = "C:/logs/*.log";
          encoding = codes "utf-8";
          max_bytes_per_poll = pos 8388608;
        }
        ∷ [];
    gc_days = pos 14;
  };
  hostmetrics = record { enabled = true; disks = [] };
  host_id = none;
}

loaded : load_config "C:/agent" "config.toml" (parsed document) ≡ ok accepted
unfolding load_config get require optional is_table mode_of is_refused_name
loaded = refl

load_config-IsValidConfig_example : IsValidConfig accepted
load_config-IsValidConfig_example =
    load_config-IsValidConfig "C:/agent" "config.toml" (parsed document) {cfg = accepted} loaded

abbrev missing_field : String
missing_field = "field 'mongo.collections[0].watermark_field' is required when mode is 'mutable'"

not_loaded :
    load_config "C:/agent" "config.toml" (parsed unfollowed) ≡ raised (config_error missing_field)
unfolding load_config get require optional is_table mode_of decimal
not_loaded = refl

sections : HasSections unfollowed
unfolding get is_table
sections = record { agent = refl; mongo = refl; s3 = refl; logs = refl; hostmetrics = tt }

load_config-IsConfigError_example : IsConfigError (config_error missing_field)
load_config-IsConfigError_example =
    load_config-IsConfigError "C:/agent" "config.toml" unfollowed {e = config_error missing_field}
      sections not_loaded
