-- ===== src/Spool/Sweep.antt =====
-- spool.py: the directory of a run, and those that crashed runs have left.
pub mod Orphans
use Prim.Native.String.{◌++◌ as ◌<>◌}
use alteryx_server_maintenan.Prelude.{
  ℕ, ◌+◌, String, Bool, List, [], ◌∷◌, str_eq, if◌then◌else◌, raised, ok, Exn,
}
use alteryx_server_maintenan.Prelude.Texts.{starts_with}
use alteryx_server_maintenan.Prelude.Dict.{Dict}
use alteryx_server_maintenan.World.{World, Content}
use alteryx_server_maintenan.World.Exec.{Exec, pure, ◌>>=◌, ◌>>◌, lift, effect, os_effect, os_error}

-- How the file system answers. `rmtree_fails` is an error that `ignore_errors` hides.
pub record Directories : Type 0 where
  pub base_exists : World → Bool
  pub mkdir_raises : World → String → Bool
  pub iterdir_raises : World → Bool
  pub rmtree_fails : World → String → Bool

abbrev pub without : String → List String → List String
without name [] = []
without name (d ∷ dirs) = if str_eq d name then without name dirs else d ∷ without name dirs

-- The files that are not under a directory.
abbrev pub outside : String → Dict String Content → Dict String Content
outside dir [] = []
outside dir ((path, c) ∷ files) =
    if starts_with dir path then outside dir files else (path, c) ∷ outside dir files

module _ (dirs : Directories) (spool_base : String) where
  abbrev pub run_dir : String → String
  run_dir run_id = spool_base <> "/" <> run_id

  -- `mkdir(parents=True, exist_ok=True)`.
  unfoldable pub setup_spool : String → Exec String
  setup_spool run_id = do
    os_effect (λ w. dirs.mkdir_raises w run_id)
        (λ w. record w { run_dirs = run_id ∷ without run_id w.run_dirs })
    pure (run_dir run_id)

  abbrev pub remove_dir : String → World → World
  remove_dir name w = record w {
    run_dirs = without name w.run_dirs;
    spool = outside (run_dir name <> "/") w.spool;
  }

  -- `shutil.rmtree(item, ignore_errors=True)`, which removes all of a directory or nothing.
  unfoldable pub remove_tree : String → Exec (Unit {0})
  unfolding starts_with
  remove_tree name = effect (λ w. if dirs.rmtree_fails w name then w else remove_dir name w)

  -- The loop over the items.
  unfoldable pub sweep_each : String → List String → ℕ → Exec ℕ
  unfolding remove_tree
  sweep_each current_run_id [] count = pure count
  sweep_each current_run_id (name ∷ items) count =
      if str_eq name current_run_id
      then sweep_each current_run_id items count
      else (do remove_tree name; sweep_each current_run_id items (count + 1))

  unfoldable pub sweep_orphans : String → Exec ℕ
  unfolding sweep_each
  sweep_orphans current_run_id w =
      if dirs.base_exists w
      then (if dirs.iterdir_raises w
          then (raised os_error, w)
          else sweep_each current_run_id w.run_dirs 0 w)
      else (ok 0, w)
