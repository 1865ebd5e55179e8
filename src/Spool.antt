-- ===== src/Spool.antt =====
-- mongo-sync-agent/src/mongo_sync_agent/spool.py: the paths of the spool files.
pub mod Sweep
use Prim.Native.String.{◌++◌ as ◌<>◌, [], ◌∷◌}
use alteryx_server_maintenan.Prelude.{String, str_eq, if◌then◌else◌}

-- `spool_dir / f"{unit}.{ext}"`.
unfoldable pub spool_path : String → String → String → String
spool_path spool_dir unit ext = spool_dir <> "/" <> unit <> "." <> ext

-- `name.replace(".", "_")`.
unfoldable pub dots_to_underscores : String → String
dots_to_underscores [] = []
dots_to_underscores (c ∷ s) =
    let rest = dots_to_underscores s in if str_eq (c ∷ []) "." then "_" <> rest else c ∷ rest
