-- ===== src/Cli/Exits.antt =====
-- cli.py: what the exit status of the command says.
use alteryx_server_maintenan.Prelude.{
  ℕ, ◌≡◌, refl, ◌⊎◌, inl, inr, Result, ok, raised, config_error, upload_error, exception, killed,
}
use alteryx_server_maintenan.Config.{AgentConfig}
use alteryx_server_maintenan.Config.Load.{load_config}
use alteryx_server_maintenan.Config.Loaded.{IsValidConfig, load_config-IsValidConfig}
use alteryx_server_maintenan.World.{World, no_lock}
use alteryx_server_maintenan.World.Exec.{pure, handle, try_except, except_exception}
use alteryx_server_maintenan.World.Rules.{Post-map, returns, raises, asks->>=-Post}
use alteryx_server_maintenan.Runner.{Surroundings}
use alteryx_server_maintenan.Runner.Endings.{
  Ending, refused, finished, fatal, IsRecorded, run_cycle-Ending,
}
use alteryx_server_maintenan.Runner.Units.{Returns}
use alteryx_server_maintenan.Cli.{Args, parsed, Files, only_of, run_with, main}

module _ {Doc Oid Client : Type 0} (s : Surroundings Doc Oid Client) (files : Files)
    (args : Args) where
  -- The command ran a cycle, with a configuration that is valid.
  pub data Ran (w : World) : ℕ → World → Type 0 where
    cycle :
        {cfg : AgentConfig} {code : ℕ} {w' : World}
        → load_config files.default_log_dir args.config (files.toml w args.config) ≡ ok cfg
        → IsValidConfig cfg
        → Ending s cfg (only_of args.only) args.collection args.dry_run w code w'
        → Ran w code w'

  run_with-Ran : (w : World) → Returns (Ran w) (run_with s files args w)
  unfolding run_with
  run_with-Ran w = asks->>=-Post _ _ w tt λ cfg loaded.
      Post-map (run_cycle-Ending s cfg (only_of args.only) args.collection args.dry_run w)
        (λ code w' e.
          cycle loaded
            (load_config-IsValidConfig files.default_log_dir args.config (files.toml w args.config)
              loaded)
            e)
        (λ w' u. u)

  -- What an exit status other than 2 says: a cycle with the configuration of the file that the
  -- arguments name, which is valid, is recorded, with one result for each unit; the status is 1 if one
  -- of them failed and 0 otherwise.
  pub record Says (w : World) (code : ℕ) (w' : World) : Type 0 where
    pub cfg : AgentConfig
    pub loaded : load_config files.default_log_dir args.config (files.toml w args.config) ≡ ok cfg
    pub valid : IsValidConfig cfg
    pub recorded : IsRecorded s cfg (only_of args.only) args.collection args.dry_run code w'
    pub unlocked : w'.lock ≡ no_lock

  Ran-Says : {w w' : World} {code : ℕ} → Ran w code w' → (code ≡ 2) ⊎ Says w code w'
  Ran-Says (cycle l v (refused e)) = inl refl
  Ran-Says (cycle l v (fatal e u)) = inl refl
  Ran-Says (cycle {cfg} l v (finished e r u)) =
      inr (record { cfg = cfg; loaded = l; valid = v; recorded = r; unlocked = u })

  -- How the process ends that began in a world.
  pub data Exits (w : World) : Result ℕ × World → Type 0 where
    exited : {code : ℕ} {w' : World} → Says w code w' → Exits w (ok code, w')
    in_error : {code : ℕ} {w' : World} → code ≡ 2 → Exits w (ok code, w')
    died : {w' : World} → Exits w (raised killed, w')

  by_code : {w w' : World} {code : ℕ} → (code ≡ 2) ⊎ Says w code w' → Exits w (ok code, w')
  by_code (inl e) = in_error e
  by_code (inr h) = exited h

  handled-Exits :
      (w : World) (x : Result ℕ × World)
      → Returns (Ran w) x
      → Exits w (handle x.0 (except_exception (λ e. pure 2)) x.1)
  handled-Exits w x (returns h) = by_code (Ran-Says h)
  handled-Exits w x (raises {e = config_error m} u) = in_error refl
  handled-Exits w x (raises {e = upload_error m} u) = in_error refl
  handled-Exits w x (raises {e = exception m} u) = in_error refl
  handled-Exits w x (raises {e = killed} u) = died

  -- However the command ends, whatever is wrong with the configuration, the log output or the run, no
  -- exception leaves `main`. If the process does not die, it exits with 2, or with 0 or 1 after a
  -- cycle with the configuration that `load_config` made of the file of `--config`: the summary of the run is in the store with one result for each
  -- unit that was asked for, in order, the lock is free, and the status is 1 if a unit failed and 0
  -- if none did.
  pub main-Exits : (w : World) → Exits w (main s files (parsed args) w)
  unfolding main try_except
  main-Exits w = handled-Exits w (run_with s files args w) (run_with-Ran w)
