-- ===== src/Tests/State.antt =====
-- The theorems on state.py at concrete inputs.
use alteryx_server_maintenan.Prelude.{ℕ, ◌≡◌, refl, Bool, false, [], ◌∷◌, ok, ◌==◌}
use alteryx_server_maintenan.Prelude.Dict.{string_key}
use alteryx_server_maintenan.Prelude.Int.{pos}
use alteryx_server_maintenan.State.{
  Db, FileOffset, empty_db, set_watermark, set_offsets, upsert_watermark, watermark_row,
  transaction, run_statements, Statement,
}
use alteryx_server_maintenan.State.Atomic.{Atomic, transaction-Atomic}
use alteryx_server_maintenan.State.ReadBack.{OffsetsSet, get_offsets-set_offsets}

abbrev never : ℕ → Bool
never k = false

abbrev second : ℕ → Bool
second k = k == 2

abbrev fill : Statement
fill = upsert_watermark never "t1" "mongo:db.users" (watermark_row never "t1" "objectid" "5f" "r1")

abbrev refill : Statement
refill = upsert_watermark never "t2" "mongo:db.jobs" (watermark_row never "t2" "objectid" "6a" "r1")

abbrev one_watermark : Db
one_watermark = fill empty_db

abbrev offset_7 : FileOffset
offset_7 = record {
  fingerprint = "ab";
  last_path = "C:/logs/a.log";
  offset = pos 7;
  file_size_at_read = pos 9;
  updated_at = "";
}

-- SQLite raises at the second of two statements.
transaction-Atomic_example :
    Atomic (fill ∷ refill ∷ []) empty_db (transaction second (fill ∷ refill ∷ []) empty_db)
transaction-Atomic_example = transaction-Atomic second (fill ∷ refill ∷ []) empty_db

set_watermark-ok :
    (set_watermark never "t2" "mongo:db.users" "objectid" "6a" "r2" one_watermark).0 ≡ ok tt
unfolding set_watermark transaction run_statements
set_watermark-ok = refl

get_offsets-set_offsets_example :
    OffsetsSet never "t2" "gallery" "r2"
      (offset_7 ∷ [])
      one_watermark
      (set_offsets never "t2" "gallery" (offset_7 ∷ []) "r2" one_watermark)
get_offsets-set_offsets_example =
    get_offsets-set_offsets never "t2" "gallery" "r2" (offset_7 ∷ []) one_watermark
