-- ===== src/Config/Parse.antt =====
-- config.py: the parsers of the sections.
use Prim.Native.String.{◌++◌ as ◌<>◌}
use alteryx_server_maintenan.Prelude.{
  ℕ, ◌+◌, String, Bool, true, false, not, ◌&&◌, ◌||◌, Option, none, some, List, [], ◌∷◌, str_eq,
  if◌then◌else◌, Result, ok, raised, config_error, exception,
}
use alteryx_server_maintenan.Prelude.Fallible.{◌>>=◌, ◌>>◌}
use alteryx_server_maintenan.Prelude.Int.{pos}
use alteryx_server_maintenan.DateTime.{decimal}
use alteryx_server_maintenan.Logs.Tailer.Encoding.{codes}
use alteryx_server_maintenan.Config.{
  Mode, append_only, mutable, full_refresh, MongoConfig, CollectionConfig, S3Config,
  LogSourceConfig, LogsConfig, HostMetricsConfig,
}
use alteryx_server_maintenan.Config.Toml.{
  Toml, str, int, bool, other, array, table, Items, no_items, item, get,
}
use alteryx_server_maintenan.Config.Access.{require, optional, a_str, an_int, a_bool, or_none}

abbrev pub reject : {A : Type 0} → String → Result A
reject message = raised (config_error message)

-- `raw.get(key)`; a value that is no table has no such method.
unfoldable pub get_entry : Toml → String → Result (Option Toml)
get_entry (table t) key = ok (get key t)
get_entry (str s) key = raised (exception "AttributeError")
get_entry (int n) key = raised (exception "AttributeError")
get_entry (bool b) key = raised (exception "AttributeError")
get_entry other key = raised (exception "AttributeError")
get_entry (array xs) key = raised (exception "AttributeError")

-- An array that may be missing, `[]` by default.
unfoldable pub array_of : String → Option Toml → Result Items
array_of message none = ok no_items
array_of message (some (array xs)) = ok xs
array_of message (some (str s)) = reject message
array_of message (some (int n)) = reject message
array_of message (some (bool b)) = reject message
array_of message (some other) = reject message
array_of message (some (table t)) = reject message

-- `isinstance(raw, dict)`.
unfoldable pub is_table : Toml → Bool
is_table (table t) = true
is_table (str s) = false
is_table (int n) = false
is_table (bool b) = false
is_table other = false
is_table (array xs) = false

-- `name.endswith(suffix)`.
unfoldable pub ends_with : String → String → Bool
ends_with suffix String.[] = str_eq String.[] suffix
ends_with suffix (String.◌∷◌ c s) =
    let rest = ends_with suffix s in str_eq (String.◌∷◌ c s) suffix || rest

-- The test of `_parse_collection`, and the one that `extract_all` repeats.
unfoldable pub is_refused_name : String → Bool → Bool
unfolding ends_with
is_refused_name name allow_gridfs_chunks = ends_with ".chunks" name && not allow_gridfs_chunks

-- `mode in _VALID_MODES`, with the mode.
unfoldable pub mode_of : String → Option Mode
mode_of s =
    if str_eq s "append_only"
    then some append_only
    else if str_eq s "mutable"
    then some mutable
    else if str_eq s "full_refresh"
    then some full_refresh
    else none

abbrev pub valid_mode : String → String → Option Mode → Result Mode
valid_mode prefix mode none = reject (
    "field '" <> prefix <> ".mode' must be one of ('append_only', 'mutable', 'full_refresh'), got '"
    <> mode <> "'")
valid_mode prefix mode (some m) = ok m

abbrev is_filled : Option String → Bool
is_filled none = false
is_filled (some s) = not (str_eq s "")

-- `mode == "mutable" and not watermark_field`.
abbrev pub lacks_field : Mode → Option String → Bool
lacks_field append_only field = false
lacks_field mutable field = not (is_filled field)
lacks_field full_refresh field = false

-- A guard: `if test: raise ConfigError(message)`.
abbrev pub unless : Bool → String → Result (Unit {0})
unless test message = if test then reject message else ok tt

abbrev pub collection_prefix : ℕ → String
collection_prefix idx = "mongo.collections[" <> decimal idx <> "]"

unfoldable pub parse_collection : Toml → ℕ → Result CollectionConfig
parse_collection raw idx =
    let prefix = collection_prefix idx in
    (do
      unless (not (is_table raw)) ("field '" <> prefix <> "' must be a table")
      name ← require raw "name" (prefix <> ".name") a_str
      mode_name ← require raw "mode" (prefix <> ".mode") a_str
      mode ← valid_mode prefix mode_name (mode_of mode_name)
      watermark_field ←
          optional raw "watermark_field" (prefix <> ".watermark_field") (or_none a_str) none
      unless (lacks_field mode watermark_field)
          ("field '" <> prefix <> ".watermark_field' is required when mode is 'mutable'")
      overlap_seconds ←
          optional raw "overlap_seconds" (prefix <> ".overlap_seconds") an_int (pos 30)
      batch_size ← optional raw "batch_size" (prefix <> ".batch_size") an_int (pos 1000)
      initial_watermark ←
          optional raw "initial_watermark" (prefix <> ".initial_watermark") (or_none a_str) none
      allow_gridfs_chunks ←
          optional raw "allow_gridfs_chunks" (prefix <> ".allow_gridfs_chunks") a_bool false
      unless (is_refused_name name allow_gridfs_chunks) (
          "field '" <> prefix <> ".name' ('" <> name
          <> "') looks like a GridFS chunks collection; set '" <> prefix
          <> ".allow_gridfs_chunks = true' to sync it explicitly")
      ok (record {
        name = name;
        mode = mode;
        watermark_field = watermark_field;
        overlap_seconds = overlap_seconds;
        batch_size = batch_size;
        initial_watermark = initial_watermark;
        allow_gridfs_chunks = allow_gridfs_chunks;
      }))

-- `[parse(entry, idx) for idx, entry in enumerate(items)]`.
unfoldable pub parse_each : {A : Type 0} → (Toml → ℕ → Result A) → ℕ → Items → Result (List A)
parse_each parse idx no_items = ok []
parse_each parse idx (item raw items) = do
  a ← parse raw idx
  rest ← parse_each parse (idx + 1) items
  ok (a ∷ rest)

-- What `_parse_mongo` gives.
pub record MongoSection : Type 0 where
  pub enabled : Bool
  pub mongo : Option MongoConfig
  pub collections : List CollectionConfig

abbrev pub mongo_off : MongoSection
mongo_off = record { enabled = false; mongo = none; collections = [] }

unfoldable pub parse_mongo_on : Toml → Result MongoSection
unfolding parse_each parse_collection get_entry array_of
parse_mongo_on raw = do
  database ← require raw "database" "mongo.database" a_str
  uri ← optional raw "uri" "mongo.uri" (or_none a_str) none
  host ← optional raw "host" "mongo.host" a_str "localhost"
  port ← optional raw "port" "mongo.port" an_int (pos 27017)
  username ← optional raw "username" "mongo.username" (or_none a_str) none
  password ← optional raw "password" "mongo.password" (or_none a_str) none
  auth_source ← optional raw "auth_source" "mongo.auth_source" a_str "admin"
  tls ← optional raw "tls" "mongo.tls" a_bool false
  tls_ca_file ← optional raw "tls_ca_file" "mongo.tls_ca_file" (or_none a_str) none
  server_selection_timeout_ms ←
      optional raw "server_selection_timeout_ms" "mongo.server_selection_timeout_ms" an_int
        (pos 5000)
  collections_raw ← get_entry raw "collections"
  items ← array_of "field 'mongo.collections' must be an array of tables" collections_raw
  collections ← parse_each parse_collection 0 items
  ok (record {
    enabled = true;
    mongo = some (record {
      database = database;
      uri = uri;
      host = host;
      port = port;
      username = username;
      password = password;
      auth_source = auth_source;
      tls = tls;
      tls_ca_file = tls_ca_file;
      server_selection_timeout_ms = server_selection_timeout_ms;
    });
    collections = collections;
  })

unfoldable pub parse_mongo : Option Toml → Result MongoSection
unfolding parse_mongo_on
parse_mongo none = ok mongo_off
parse_mongo (some raw) = do
  enabled ← optional raw "enabled" "mongo.enabled" a_bool true
  if enabled then parse_mongo_on raw else ok mongo_off

unfoldable pub parse_s3 : Option Toml → Result S3Config
parse_s3 none = reject "missing required section '[s3]'"
parse_s3 (some raw) = do
  bucket ← require raw "bucket" "s3.bucket" a_str
  region ← optional raw "region" "s3.region" a_str "us-east-1"
  prefix ← optional raw "prefix" "s3.prefix" a_str ""
  ok (record { bucket = bucket; region = region; prefix = prefix })

abbrev pub source_prefix : ℕ → String
source_prefix idx = "logs.sources[" <> decimal idx <> "]"

unfoldable pub parse_log_source : Toml → ℕ → Result LogSourceConfig
parse_log_source raw idx =
    let prefix = source_prefix idx in
    (do
      unless (not (is_table raw)) ("field '" <> prefix <> "' must be a table")
      name ← require raw "name" (prefix <> ".name") a_str
      path_glob ← require raw "path_glob" (prefix <> ".path_glob") a_str
      encoding ← optional raw "encoding" (prefix <> ".encoding") a_str "utf-8"
      max_bytes_per_poll ←
          optional raw "max_bytes_per_poll" (prefix <> ".max_bytes_per_poll") an_int (pos 8388608)
      ok (record {
        name = name;
        path_glob = path_glob;
        encoding = codes encoding;
        max_bytes_per_poll = max_bytes_per_poll;
      }))

unfoldable pub parse_logs : Option Toml → Result LogsConfig
unfolding parse_each parse_log_source get_entry array_of
parse_logs none = ok (record { enabled = true; sources = []; gc_days = pos 14 })
parse_logs (some raw) = do
  enabled ← optional raw "enabled" "logs.enabled" a_bool true
  gc_days ← optional raw "gc_days" "logs.gc_days" an_int (pos 14)
  sources_raw ← get_entry raw "sources"
  items ← array_of "field 'logs.sources' must be an array of tables" sources_raw
  sources ← parse_each parse_log_source 0 items
  ok (record { enabled = enabled; sources = sources; gc_days = gc_days })

-- The array as a list of strings, if all of its items are.
unfoldable pub all_strs : Items → Option (List String)
all_strs no_items = some []
all_strs (item v items) = elim (all_strs items) [
  | none ↦ none
  | some rest ↦ elim v [ str s ↦ some (s ∷ rest) | _ ↦ none ]
]

abbrev pub strings : Option (List String) → Result (List String)
strings none = reject "field 'hostmetrics.disks' must be an array of strings"
strings (some disks) = ok disks

unfoldable pub parse_hostmetrics : Option Toml → Result HostMetricsConfig
unfolding get_entry array_of all_strs
parse_hostmetrics none = ok (record { enabled = true; disks = [] })
parse_hostmetrics (some raw) = do
  enabled ← optional raw "enabled" "hostmetrics.enabled" a_bool true
  disks_raw ← get_entry raw "disks"
  items ← array_of "field 'hostmetrics.disks' must be an array of strings" disks_raw
  disks ← strings (all_strs items)
  ok (record { enabled = enabled; disks = disks })
