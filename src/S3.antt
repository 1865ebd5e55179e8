-- ===== src/S3.antt =====
-- mongo-sync-agent/src/mongo_sync_agent/s3.py: the uploader. S3 itself is `Env.s3_reply`.
pub mod Keys
use Prim.Native.String.{◌++◌ as ◌<>◌}
use Prim.Native.String.{[], ◌∷◌}
use alteryx_server_maintenan.Prelude.{
  ℕ, String, Bool, false, Option, none, some, raised, upload_error, exception, str_eq,
  if◌then◌else◌,
}
use alteryx_server_maintenan.DateTime.{DateTime, date_partition, run_stamp}
use alteryx_server_maintenan.Prelude.Dict.{lookup, upsert, string_key}
use alteryx_server_maintenan.World.{
  World, Env, Content, S3Reply, stored, refused, unconfirmed, broken, broken_after,
}
use alteryx_server_maintenan.World.Exec.{Exec, pure, raise, ◌>>◌, effect, os_error}

pub record UploadResult : Type 0 where
  pub key : String
  pub bytes_uploaded : ℕ
  pub etag : String

abbrev pub put_object : String → Content → World → World
put_object key c w = record w { bucket = upsert key c w.bucket }

module _ (env : Env) where
  -- The body of the `try`, from the reply of S3 on.
  unfoldable pub by_reply : String → Content → S3Reply → Exec UploadResult
  by_reply key c (stored etag) = do
    effect (put_object key c)
    pure (record { key = key; bytes_uploaded = env.size c; etag = etag })
  by_reply key c refused = raise (upload_error "Failed to upload")
  by_reply key c unconfirmed = do effect (put_object key c); raise (upload_error "Failed to upload")
  by_reply key c broken = raise (exception "upload_file")
  by_reply key c broken_after = do effect (put_object key c); raise (exception "head_object")

  unfoldable pub upload_content : String → String → Option Content → Exec UploadResult
  unfolding by_reply
  upload_content local_path key none w = (raised os_error, w)
  upload_content local_path key (some c) w = by_reply key c (env.s3_reply w local_path key) w

  -- `stat` of a file that is not there raises outside of the `try`.
  unfoldable pub upload : String → String → Exec UploadResult
  unfolding upload_content
  upload local_path key w = upload_content local_path key (lookup local_path w.spool) w

-- `prefix.endswith("/")`.
ends_with_slash : String → Bool
ends_with_slash [] = false
ends_with_slash (c ∷ []) = str_eq (c ∷ []) "/"
ends_with_slash (c ∷ d ∷ s) = ends_with_slash (d ∷ s)

-- `if prefix and not prefix.endswith("/"): prefix += "/"`, of the constructor and of the keys.
unfoldable pub normalise_prefix : String → String
unfolding ends_with_slash
normalise_prefix prefix =
    if str_eq prefix "" then prefix else if ends_with_slash prefix then prefix else prefix <> "/"

abbrev pub partition : DateTime → String
partition run_dt = "/dt=" <> date_partition run_dt <> "/part-" <> run_stamp run_dt

unfoldable pub mongo_key : String → String → String → DateTime → String
unfolding normalise_prefix
mongo_key prefix db coll run_dt =
    normalise_prefix prefix <> "mongo/" <> db <> "/" <> coll <> partition run_dt <> ".parquet"

unfoldable pub logs_key : String → String → DateTime → String
unfolding normalise_prefix
logs_key prefix source run_dt =
    normalise_prefix prefix <> "logs/" <> source <> partition run_dt <> ".jsonl.gz"

unfoldable pub hostmetrics_key : String → DateTime → String
unfolding normalise_prefix
hostmetrics_key prefix run_dt =
    normalise_prefix prefix <> "hostmetrics" <> partition run_dt <> ".jsonl.gz"
