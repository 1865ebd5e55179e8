-- ===== src/Config/Load.antt =====
-- config.py: `load_config`, from what opening and parsing the file end with.
use Prim.Native.String.{◌++◌ as ◌<>◌}
use alteryx_server_maintenan.Prelude.{String, Option, none, some, Result, ok, raised, Exn}
use alteryx_server_maintenan.Prelude.Fallible.{◌>>=◌}
use alteryx_server_maintenan.Config.{AgentConfig}
use alteryx_server_maintenan.Config.Toml.{Toml, Entries, get}
use alteryx_server_maintenan.Config.Access.{require, optional, a_str, or_none}
use alteryx_server_maintenan.Config.Parse.{
  reject, parse_mongo, parse_s3, parse_logs, parse_hostmetrics,
}

-- What opening the file and `tomllib.load` end with; `unread` is any other exception.
pub data TomlFile : Type 0 where
  not_found : TomlFile
  undecodable : String → TomlFile
  unread : Exn → TomlFile
  parsed : Entries → TomlFile

abbrev pub section_of : Option Toml → Result Toml
section_of none = reject "missing required section '[agent]'"
section_of (some raw) = ok raw

unfoldable pub parse_config : String → Entries → Result AgentConfig
unfolding parse_mongo parse_s3 parse_logs parse_hostmetrics
parse_config default_log_dir raw = do
  agent_raw ← section_of (get "agent" raw)
  state_db ← require agent_raw "state_db" "agent.state_db" a_str
  spool_dir ← require agent_raw "spool_dir" "agent.spool_dir" a_str
  log_dir ← optional agent_raw "log_dir" "agent.log_dir" a_str default_log_dir
  log_level ← optional agent_raw "log_level" "agent.log_level" a_str "WARNING"
  host_id ← optional agent_raw "host_id" "agent.host_id" (or_none a_str) none
  mongo ← parse_mongo (get "mongo" raw)
  s3 ← parse_s3 (get "s3" raw)
  logs ← parse_logs (get "logs" raw)
  hostmetrics ← parse_hostmetrics (get "hostmetrics" raw)
  ok (record {
    state_db = state_db;
    spool_dir = spool_dir;
    log_dir = log_dir;
    log_level = log_level;
    mongo_enabled = mongo.enabled;
    mongo = mongo.mongo;
    collections = mongo.collections;
    s3 = s3;
    logs = logs;
    hostmetrics = hostmetrics;
    host_id = host_id;
  })

-- `default_log_dir` is `_DEFAULT_LOG_DIR`, which depends on the environment.
unfoldable pub load_config : String → String → TomlFile → Result AgentConfig
unfolding parse_config
load_config default_log_dir path not_found = reject ("config file not found: " <> path)
load_config default_log_dir path (undecodable message) =
    reject ("failed to parse TOML config at " <> path <> ": " <> message)
load_config default_log_dir path (unread e) = raised e
load_config default_log_dir path (parsed raw) = parse_config default_log_dir raw
