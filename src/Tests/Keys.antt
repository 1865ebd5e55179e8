-- ===== src/Tests/Keys.antt =====
-- Runs of s3.py.
use alteryx_server_maintenan.Prelude.{◌≡◌, refl}
use alteryx_server_maintenan.DateTime.{DateTime, date_partition, run_stamp}
use alteryx_server_maintenan.S3.{mongo_key, logs_key}

abbrev at_noon : DateTime
at_noon = record {
  year = 2026;
  month = 4;
  day = 1;
  hour = 12;
  minute = 0;
  second = 5;
  microsecond = 7;
}

mongo_key-at_noon :
    mongo_key "pre" "AlteryxGallery" "users" at_noon
    ≡ "pre/mongo/AlteryxGallery/users/dt=2026-04-01/part-20260401T120005Z.parquet"
unfolding mongo_key date_partition run_stamp
mongo_key-at_noon = refl

logs_key-at_noon :
    logs_key "" "gallery" at_noon ≡ "logs/gallery/dt=2026-04-01/part-20260401T120005Z.jsonl.gz"
unfolding logs_key date_partition run_stamp
logs_key-at_noon = refl
