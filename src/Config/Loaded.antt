-- ===== src/Config/Loaded.antt =====
-- config.py: what holds of every configuration that `load_config` returns, and what it raises.
use mathlib.Core.Path.{subst}
use alteryx_server_maintenan.Prelude.{
  ℕ, ◌+◌, ◌≡◌, refl, String, Bool, true, false, not, Option, none, some, List, [], arith, All,
  str_eq, if◌then◌else◌, Result, ok, raised, Exn,
}
use alteryx_server_maintenan.Prelude.Fallible.{
  Ends, returned, failed, >>=-Ends, Ends-map, Ends-ok, Ends-raised,
}
use alteryx_server_maintenan.Prelude.Int.{pos}
use alteryx_server_maintenan.Config.{MongoConfig, CollectionConfig, LogSourceConfig, AgentConfig}
use alteryx_server_maintenan.Config.Toml.{
  Toml, str, int, bool, other, array, table, Items, no_items, item, Entries, get,
}
use alteryx_server_maintenan.Config.Access.{a_str, an_int, a_bool, or_none}
use alteryx_server_maintenan.Config.Parse.{
  is_table, parse_collection, parse_each, get_entry, array_of, all_strs, strings, MongoSection,
  parse_mongo_on, parse_mongo, parse_s3, parse_log_source, parse_logs, parse_hostmetrics,
}
use alteryx_server_maintenan.Config.Load.{TomlFile, parsed, section_of, parse_config, load_config}
use alteryx_server_maintenan.Config.Valid.{
  IsConfigError, OfTable, rejected, require-Ends, optional-Ends, unless-Ends, text-Ends,
  option-Ends, IsValidCollection, parse_collection-Ends,
}

pub record IsValidSource (cfg : LogSourceConfig) : Type 0 where
  pub named : str_eq cfg.name "" ≡ false
  pub located : str_eq cfg.path_glob "" ≡ false

parse_log_source-Ends :
    (raw : Toml) (idx : ℕ) → Ends IsValidSource IsConfigError (parse_log_source raw idx)
unfolding parse_log_source
parse_log_source-Ends raw idx = >>=-Ends _ (unless-Ends (not (is_table raw)) _) λ _ h.
    let is : is_table raw ≡ true = ground arith in
    >>=-Ends _ (text-Ends raw "name" _ is) λ name named.
      >>=-Ends _ (text-Ends raw "path_glob" _ is) λ path_glob located.
        >>=-Ends _ (option-Ends raw "encoding" _ a_str "utf-8" is) λ encoding _.
          >>=-Ends _ (option-Ends raw "max_bytes_per_poll" _ an_int (pos 8388608) is)
            λ size _. returned (record { named = named; located = located })

parse_each-Ends :
    {A : Type 0} {P : A → Type 0} (parse : Toml → ℕ → Result A)
    → ((raw : Toml) (idx : ℕ) → Ends P IsConfigError (parse raw idx))
    → (idx : ℕ) (items : Items) → Ends (All P) IsConfigError (parse_each parse idx items)
unfolding parse_each
parse_each-Ends parse each idx no_items = returned tt
parse_each-Ends parse each idx (item raw items) =
    >>=-Ends _ (each raw idx)
      λ a p. >>=-Ends _ (parse_each-Ends parse each (idx + 1) items) λ rest q. returned (p, q)

array_of-Ends :
    (message : String) (o : Option Toml) → Ends (λ _. Unit {0}) IsConfigError (array_of message o)
unfolding array_of
array_of-Ends message none = returned tt
array_of-Ends message (some (array xs)) = returned tt
array_of-Ends message (some (str s)) = rejected message
array_of-Ends message (some (int n)) = rejected message
array_of-Ends message (some (bool b)) = rejected message
array_of-Ends message (some other) = rejected message
array_of-Ends message (some (table t)) = rejected message

get_entry-Ends :
    (raw : Toml) (key : String) → Ends (λ _. Unit {0}) (OfTable raw) (get_entry raw key)
unfolding get_entry is_table
get_entry-Ends (table t) key = returned tt
get_entry-Ends (str s) key = failed (λ h. cc)
get_entry-Ends (array xs) key = failed (λ h. cc)
get_entry-Ends (int n) key = failed (λ h. cc)
get_entry-Ends (bool b) key = failed (λ h. cc)
get_entry-Ends other key = failed (λ h. cc)

-- A section that is there is a table.
abbrev pub IsSection : Option Toml → Type 0
IsSection none = Unit
IsSection (some raw) = is_table raw ≡ true

-- What a read of a section raises.
abbrev OfSection : Option Toml → Exn → Type 0
OfSection o e = IsSection o → IsConfigError e

always :
    {A : Type 0} {P : A → Type 0} {r : Result A} (raw : Toml)
    → Ends P IsConfigError r
    → Ends P (OfTable raw) r
always raw h = Ends-map h (λ a p. p) (λ e c _. c)

-- The module is off and nothing of it is configured, or it has a database and valid collections.
pub data IsValidMongo : Bool → Option MongoConfig → List CollectionConfig → Type 0 where
  off : IsValidMongo false none []
  on :
      {mongo : MongoConfig} {collections : List CollectionConfig}
      → str_eq mongo.database "" ≡ false
      → All IsValidCollection collections
      → IsValidMongo true (some mongo) collections

abbrev IsValidSection : MongoSection → Type 0
IsValidSection s = IsValidMongo s.enabled s.mongo s.collections

parse_mongo_on-Ends : (raw : Toml) → Ends IsValidSection (OfTable raw) (parse_mongo_on raw)
unfolding parse_mongo_on
parse_mongo_on-Ends raw = >>=-Ends _ (require-Ends raw _ _ a_str) λ database named.
    >>=-Ends _ (optional-Ends raw _ _ (or_none a_str) none) λ uri _.
      >>=-Ends _ (optional-Ends raw _ _ a_str "localhost") λ host _.
        >>=-Ends _ (optional-Ends raw _ _ an_int (pos 27017)) λ port _.
          >>=-Ends _ (optional-Ends raw _ _ (or_none a_str) none) λ username _.
            >>=-Ends _ (optional-Ends raw _ _ (or_none a_str) none) λ password _.
              >>=-Ends _ (optional-Ends raw _ _ a_str "admin") λ auth_source _.
                >>=-Ends _ (optional-Ends raw _ _ a_bool false) λ tls _.
                  >>=-Ends _ (optional-Ends raw _ _ (or_none a_str) none) λ tls_ca_file _.
                    >>=-Ends _ (optional-Ends raw _ _ an_int (pos 5000)) λ timeout _.
                      >>=-Ends _ (get_entry-Ends raw _) λ o _.
                        >>=-Ends _ (always raw (array_of-Ends _ o)) λ items _.
                          >>=-Ends _
                            (always raw
                              (parse_each-Ends parse_collection parse_collection-Ends 0 items))
                            λ collections valid. returned (on named valid)

parse_mongo-Ends : (o : Option Toml) → Ends IsValidSection (OfSection o) (parse_mongo o)
unfolding parse_mongo
parse_mongo-Ends none = returned off
parse_mongo-Ends (some raw) = >>=-Ends _ (optional-Ends raw _ _ a_bool true) λ enabled _. go enabled
  where
    go :
        (enabled : Bool)
        → Ends IsValidSection (OfTable raw) (
            if enabled
            then parse_mongo_on raw
            else ok (record { enabled = false; mongo = none; collections = [] }))
    go true = parse_mongo_on-Ends raw
    go false = returned off

parse_s3-Ends :
    (o : Option Toml) → Ends (λ s. str_eq s.bucket "" ≡ false) (OfSection o) (parse_s3 o)
unfolding parse_s3
parse_s3-Ends none = Ends-map (rejected _) (λ a p. p) (λ e c _. c)
parse_s3-Ends (some raw) = >>=-Ends _ (require-Ends raw _ _ a_str) λ bucket named.
    >>=-Ends _ (optional-Ends raw _ _ a_str "us-east-1")
      λ region _. >>=-Ends _ (optional-Ends raw _ _ a_str "") λ prefix _. returned named

parse_logs-Ends :
    (o : Option Toml) → Ends (λ l. All IsValidSource l.sources) (OfSection o) (parse_logs o)
unfolding parse_logs
parse_logs-Ends none = returned tt
parse_logs-Ends (some raw) = >>=-Ends _ (optional-Ends raw _ _ a_bool true) λ enabled _.
    >>=-Ends _ (optional-Ends raw _ _ an_int (pos 14)) λ gc_days _.
      >>=-Ends _ (get_entry-Ends raw _) λ o _.
        >>=-Ends _ (always raw (array_of-Ends _ o)) λ items _.
          >>=-Ends _ (always raw (parse_each-Ends parse_log_source parse_log_source-Ends 0 items))
            λ sources valid. returned valid

strings-Ends : (o : Option (List String)) → Ends (λ _. Unit {0}) IsConfigError (strings o)
strings-Ends none = rejected _
strings-Ends (some disks) = returned tt

parse_hostmetrics-Ends :
    (o : Option Toml) → Ends (λ _. Unit {0}) (OfSection o) (parse_hostmetrics o)
unfolding parse_hostmetrics
parse_hostmetrics-Ends none = returned tt
parse_hostmetrics-Ends (some raw) = >>=-Ends _ (optional-Ends raw _ _ a_bool true) λ enabled _.
    >>=-Ends _ (get_entry-Ends raw _) λ o _.
      >>=-Ends _ (always raw (array_of-Ends _ o))
        λ items _. >>=-Ends _ (always raw (strings-Ends (all_strs items))) λ disks _. returned tt

pub record IsValidConfig (cfg : AgentConfig) : Type 0 where
  pub state_db : str_eq cfg.state_db "" ≡ false
  pub spool_dir : str_eq cfg.spool_dir "" ≡ false
  pub mongo : IsValidMongo cfg.mongo_enabled cfg.mongo cfg.collections
  pub bucket : str_eq cfg.s3.bucket "" ≡ false
  pub sources : All IsValidSource cfg.logs.sources

-- The sections of a document that are there are tables.
pub record HasSections (raw : Entries) : Type 0 where
  pub agent : IsSection (get "agent" raw)
  pub mongo : IsSection (get "mongo" raw)
  pub s3 : IsSection (get "s3" raw)
  pub logs : IsSection (get "logs" raw)
  pub hostmetrics : IsSection (get "hostmetrics" raw)

abbrev OfDocument : Entries → Exn → Type 0
OfDocument raw e = HasSections raw → IsConfigError e

section_of-Ends : (o : Option Toml) → Ends (λ agent. o ≡ some agent) (OfSection o) (section_of o)
section_of-Ends none = Ends-map (rejected _) (λ a p. absurd p) (λ e c _. c)
section_of-Ends (some raw) = returned refl

parse_config-Ends :
    (default_log_dir : String) (raw : Entries)
    → Ends IsValidConfig (OfDocument raw) (parse_config default_log_dir raw)
unfolding parse_config
parse_config-Ends default_log_dir raw =
    >>=-Ends _ (under (section_of-Ends (get "agent" raw)) (λ h. h.agent)) λ agent e.
      let is : HasSections raw → is_table agent ≡ true = λ h. subst IsSection e h.agent in
      >>=-Ends _ (under (require-Ends agent _ _ a_str) is) λ state_db named_db.
        >>=-Ends _ (under (require-Ends agent _ _ a_str) is) λ spool_dir named_dir.
          >>=-Ends _ (under (optional-Ends agent _ _ a_str default_log_dir) is) λ log_dir _.
            >>=-Ends _ (under (optional-Ends agent _ _ a_str "WARNING") is) λ log_level _.
              >>=-Ends _ (under (optional-Ends agent _ _ (or_none a_str) none) is) λ host_id _.
                >>=-Ends _ (under (parse_mongo-Ends (get "mongo" raw)) (λ h. h.mongo)) λ mongo m.
                  >>=-Ends _ (under (parse_s3-Ends (get "s3" raw)) (λ h. h.s3)) λ s3 bucket.
                    >>=-Ends _ (under (parse_logs-Ends (get "logs" raw)) (λ h. h.logs))
                      λ logs sources.
                        >>=-Ends _
                          (under (parse_hostmetrics-Ends (get "hostmetrics" raw))
                            (λ h. h.hostmetrics))
                          λ hostmetrics _. returned (record {
                            state_db = named_db;
                            spool_dir = named_dir;
                            mongo = m;
                            bucket = bucket;
                            sources = sources;
                          })
  where
    under :
        {A S : Type 0} {P : A → Type 0} {r : Result A}
        → Ends P (λ e. S → IsConfigError e) r
        → (HasSections raw → S)
        → Ends P (OfDocument raw) r
    under h f = Ends-map h (λ a p. p) (λ e c s. c (f s))

-- Every configuration that is accepted names its state database, its spool directory and its bucket; the
-- MongoDB module is off, with nothing configured, or has a database, and collections with
-- a name, with a field to follow if they are mutable, and that `extract_all` does not refuse; each
-- log source has a name and a glob.
pub load_config-IsValidConfig :
    (default_log_dir path : String) (file : TomlFile) {cfg : AgentConfig}
    → load_config default_log_dir path file ≡ ok cfg
    → IsValidConfig cfg
unfolding load_config
load_config-IsValidConfig default_log_dir path TomlFile.not_found h = cc
load_config-IsValidConfig default_log_dir path (TomlFile.undecodable message) h = cc
load_config-IsValidConfig default_log_dir path (TomlFile.unread e) h = cc
load_config-IsValidConfig default_log_dir path (parsed raw) h =
    Ends-ok (parse_config-Ends default_log_dir raw) h

-- Where the sections of a document are tables, whatever is wrong in it is a `ConfigError`.
pub load_config-IsConfigError :
    (default_log_dir path : String) (raw : Entries) {e : Exn}
    → HasSections raw
    → load_config default_log_dir path (parsed raw) ≡ raised e
    → IsConfigError e
unfolding load_config
load_config-IsConfigError default_log_dir path raw s h =
    Ends-raised (parse_config-Ends default_log_dir raw) h s
