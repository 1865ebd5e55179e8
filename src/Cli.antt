-- ===== src/Cli.antt =====
-- mongo-sync-agent/src/mongo_sync_agent/cli.py, and `run` of __init__.py: the command line.
pub mod Exits
use alteryx_server_maintenan.Prelude.{ℕ, String, Bool, Option, none, some, List, [], ◌∷◌}
use alteryx_server_maintenan.Config.{AgentConfig}
use alteryx_server_maintenan.Config.Load.{TomlFile, load_config}
use alteryx_server_maintenan.World.{World}
use alteryx_server_maintenan.World.Exec.{Exec, pure, ◌>>=◌, try_except, except_exception}
use alteryx_server_maintenan.Runner.{Surroundings, run_cycle}

pub record Args : Type 0 where
  pub config : String
  pub only : Option (List String)
  pub collection : Option String
  pub dry_run : Bool

-- What `argparse` makes of the words: the arguments, or an exit of its own (a usage error, `--help`
-- or `--version`).
pub data Parsed : Type 0 where
  exits : ℕ → Parsed
  parsed : Args → Parsed

-- `set(args.only) if args.only else None`.
abbrev pub only_of : Option (List String) → Option (List String)
only_of none = none
only_of (some []) = none
only_of (some (m ∷ only)) = some (m ∷ only)

-- The file that a path leads to, when it is read, and `_DEFAULT_LOG_DIR`.
pub record Files : Type 0 where
  pub toml : World → String → TomlFile
  pub default_log_dir : String

module _ {Doc Oid Client : Type 0} (s : Surroundings Doc Oid Client) (files : Files) where
  -- `load_config(args.config)`.
  abbrev pub load : String → Exec AgentConfig
  load path w = (load_config files.default_log_dir path (files.toml w path), w)

  -- `run` of the package, which handles nothing.
  unfoldable pub run : String → Option (List String) → Bool → Exec ℕ
  run config_path only dry_run = do cfg ← load config_path; run_cycle s cfg only none dry_run

  -- The body of the `try`; `SystemExit` is no `Exception`.
  unfoldable pub run_with : Args → Exec ℕ
  run_with args = do
    cfg ← load args.config
    run_cycle s cfg (only_of args.only) args.collection args.dry_run

  -- The status that `main` exits with.
  unfoldable pub main : Parsed → Exec ℕ
  unfolding run_with
  main (exits status) = pure status
  main (parsed args) = try_except (run_with args) (except_exception (λ e. pure 2))
