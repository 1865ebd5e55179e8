-- ===== src/S3/Keys.antt =====
-- s3.py: different collections have different keys.
use Prim.Native.String.{◌++◌ as ◌<>◌}
use alteryx_server_maintenan.Prelude.{◌≡◌, String}
use alteryx_server_maintenan.DateTime.{DateTime}
use alteryx_server_maintenan.S3.{mongo_key, logs_key, normalise_prefix, partition}
use text.Mathlib.TextLemmas.{append_cancel_left, append_cancel_right}

-- In one run, two collections of one database with the same key are one collection.
pub mongo_key_injective :
    (prefix db : String) (run_dt : DateTime) (c d : String)
    → mongo_key prefix db c run_dt ≡ mongo_key prefix db d run_dt
    → c ≡ d
unfolding mongo_key
mongo_key_injective prefix db run_dt c d h =
    append_cancel_right c d (partition run_dt <> ".parquet") (
      append_cancel_left "/" _ _ (
        append_cancel_left db _ _
          (append_cancel_left "mongo/" _ _ (append_cancel_left (normalise_prefix prefix) _ _ h))))

-- The same of log sources.
pub logs_key_injective :
    (prefix : String) (run_dt : DateTime) (c d : String)
    → logs_key prefix c run_dt ≡ logs_key prefix d run_dt
    → c ≡ d
unfolding logs_key
logs_key_injective prefix run_dt c d h =
    append_cancel_right c d (partition run_dt <> ".jsonl.gz")
      (append_cancel_left "logs/" _ _ (append_cancel_left (normalise_prefix prefix) _ _ h))
