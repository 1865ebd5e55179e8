-- ===== src/Mongo/Connect.antt =====
-- mongo-sync-agent/src/mongo_sync_agent/mongo/connect.py: how a client is made of the configuration.
-- What `pymongo.MongoClient` is given is a `ClientOptions`.
use alteryx_server_maintenan.Prelude.{
  String, Bool, true, false, Option, none, some, str_eq, if◌then◌else◌, Result, ok, raised,
  config_error, upload_error, exception, killed,
}
use alteryx_server_maintenan.Prelude.Int.{ℤ}
use alteryx_server_maintenan.Config.{MongoConfig}

-- The three arguments that name the user; a password may be `None`.
pub record Credentials : Type 0 where
  pub username : String
  pub password : Option String
  pub auth_source : String

-- `by_uri` is `MongoClient(uri, serverSelectionTimeoutMS=...)`, `by_host` the keyword arguments.
-- `tls` is absent or true; `tls_ca_file` may be given with it.
pub data ClientOptions : Type 0 where
  by_uri : String → ℤ → ClientOptions
  by_host : String → ℤ → ℤ → Option Credentials → Bool → Option String → ClientOptions

-- The truth of a text that may be missing.
abbrev pub filled : Option String → Option String
filled none = none
filled (some text) = if str_eq text "" then none else some text

abbrev credentials_of : MongoConfig → Option String → Option Credentials
credentials_of cfg none = none
credentials_of cfg (some username) =
    some (record { username = username; password = cfg.password; auth_source = cfg.auth_source })

abbrev options_from : MongoConfig → Option String → ClientOptions
options_from cfg (some uri) = by_uri uri cfg.server_selection_timeout_ms
options_from cfg none =
    by_host cfg.host cfg.port cfg.server_selection_timeout_ms
      (credentials_of cfg (filled cfg.username)) cfg.tls
      (if cfg.tls then filled cfg.tls_ca_file else none)

unfoldable pub client_options : MongoConfig → ClientOptions
client_options cfg = options_from cfg (filled cfg.uri)

-- `ping`: any exception of the command is a `False`.
abbrev pub answered : Result (Unit {0}) → Result Bool
answered (ok reply) = ok true
answered (raised (config_error s)) = ok false
answered (raised (upload_error s)) = ok false
answered (raised (exception s)) = ok false
answered (raised killed) = raised killed

module _ {Client : Type 0} (mongo_client : ClientOptions → Result Client)
    (ping_command : Client → Result (Unit {0})) where
  abbrev ping_of : Result Client → Result Bool
  ping_of (ok client) = answered (ping_command client)
  ping_of (raised e) = raised e

  -- `make_client`, then `ping`, as `extract_all` calls them.
  unfoldable pub connect_and_ping : MongoConfig → Result Bool
  unfolding client_options
  connect_and_ping cfg = ping_of (mongo_client (client_options cfg))
