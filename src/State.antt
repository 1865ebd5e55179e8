-- ===== src/State.antt =====
-- mongo-sync-agent/src/mongo_sync_agent/state.py: the SQLite store of watermarks, file offsets and
-- run summaries. A table is the list of its rows under the primary key. `raises k` says whether
-- SQLite raises at the `k`-th statement of a transaction (`BEGIN IMMEDIATE` is statement 0, `COMMIT`
-- the last one); `now` is what `_utcnow_iso` returns.
pub mod Atomic
pub mod ReadBack
pub mod Refines
pub mod Open
pub mod Separate
use alteryx_server_maintenan.Prelude.{
  ℕ, zero, suc, ◌+◌, String, Bool, true, false, Option, none, some, List, [], ◌∷◌, map, str_eq,
  if◌then◌else◌, Result, ok, raised, Exn, exception,
}
use alteryx_server_maintenan.Prelude.Dict.{Dict, lookup, upsert, remove, string_key, pair_key}
use alteryx_server_maintenan.Prelude.Int.{ℤ}
use alteryx_server_maintenan.RunnerTypes.{RunSummary, UnitResult}

pub record Watermark : Type 0 where
  pub kind : String
  pub value : String
  pub updated_at : String
  pub run_id : String

pub record FileOffset : Type 0 where
  pub fingerprint : String
  pub last_path : String
  pub offset : ℤ
  pub file_size_at_read : ℤ
  pub updated_at : String

-- A row of `file_offsets` behind its key.
pub record OffsetRow : Type 0 where
  pub last_path : String
  pub offset : ℤ
  pub file_size_at_read : ℤ
  pub updated_at : String
  pub run_id : String

-- A row of `runs` behind its key.
pub record RunRow : Type 0 where
  pub run_dt : String
  pub duration_s : ℕ
  pub peak_rss_bytes : ℕ
  pub units_json : String
  pub recorded_at : String

-- The three tables; the keys are `namespace`, `(source, fingerprint)` and `run_id`.
pub record Db : Type 0 where
  pub watermarks : Dict String Watermark
  pub file_offsets : Dict (String × String) OffsetRow
  pub runs : Dict String RunRow

-- `_init_schema` on a new database.
abbrev pub empty_db : Db
empty_db = record { watermarks = []; file_offsets = []; runs = [] }

abbrev pub Statement : Type 0
Statement = Db → Db

abbrev pub sqlite_error : Exn
sqlite_error = exception "sqlite3.Error"

-- The statements from the `k`-th on, on the working copy; then `COMMIT`, or `ROLLBACK` to `before`
-- (which is also what is on disk after a `COMMIT` that raises).
unfoldable pub run_statements :
    {S : Type 0} → (ℕ → Bool) → ℕ → List (S → S) → S → S → Result (Unit {0}) × S
run_statements raises k [] working before =
    if raises k then (raised sqlite_error, before) else (ok tt, working)
run_statements raises k (s ∷ ss) working before =
    let rest = run_statements raises (k + 1) ss (s working) before in
    if raises k then (raised sqlite_error, before) else rest

-- `_ImmediateTransaction`.
unfoldable pub transaction : {S : Type 0} → (ℕ → Bool) → List (S → S) → S → Result (Unit {0}) × S
unfolding run_statements
transaction raises statements db =
    if raises 0 then (raised sqlite_error, db) else run_statements raises 1 statements db db

unfoldable pub get_watermark : String → Db → Option Watermark
get_watermark namespace db = lookup namespace db.watermarks

module _ (raises : ℕ → Bool) (now : String) where
  abbrev pub watermark_row : String → String → String → Watermark
  watermark_row kind value run_id = record {
    kind = kind;
    value = value;
    updated_at = now;
    run_id = run_id;
  }

  abbrev pub upsert_watermark : String → Watermark → Statement
  upsert_watermark namespace w db = record db { watermarks = upsert namespace w db.watermarks }

  unfoldable pub set_watermark : String → String → String → String → Db → Result (Unit {0}) × Db
  unfolding transaction
  set_watermark namespace kind value run_id =
      transaction raises (upsert_watermark namespace (watermark_row kind value run_id) ∷ [])

  abbrev pub offset_row : FileOffset → String → OffsetRow
  offset_row fo run_id = record {
    last_path = fo.last_path;
    offset = fo.offset;
    file_size_at_read = fo.file_size_at_read;
    updated_at = now;
    run_id = run_id;
  }

  abbrev pub upsert_offset : String → String → FileOffset → Statement
  upsert_offset source run_id fo db = record db {
    file_offsets = upsert (source, fo.fingerprint) (offset_row fo run_id) db.file_offsets;
  }

  -- `executemany` in one transaction.
  unfoldable pub set_offsets : String → List FileOffset → String → Db → Result (Unit {0}) × Db
  unfolding transaction
  set_offsets source offsets run_id = transaction raises (map (upsert_offset source run_id) offsets)

  abbrev pub remove_offset : String → String → Statement
  remove_offset source fingerprint db = record db {
    file_offsets = remove (source, fingerprint) db.file_offsets;
  }

  unfoldable pub delete_offset : String → String → Db → Result (Unit {0}) × Db
  unfolding transaction
  delete_offset source fingerprint = transaction raises (remove_offset source fingerprint ∷ [])

  abbrev pub run_row : (List UnitResult → String) → RunSummary → RunRow
  run_row dumps summary = record {
    run_dt = summary.run_dt;
    duration_s = summary.duration_s;
    peak_rss_bytes = summary.peak_rss_bytes;
    units_json = dumps summary.units;
    recorded_at = now;
  }

  abbrev pub upsert_run : (List UnitResult → String) → RunSummary → Statement
  upsert_run dumps summary db = record db {
    runs = upsert summary.run_id (run_row dumps summary) db.runs;
  }

  -- `dumps` is `json.dumps` of the units' five fields.
  unfoldable pub record_run : (List UnitResult → String) → RunSummary → Db → Result (Unit {0}) × Db
  unfolding transaction
  record_run dumps summary = transaction raises (upsert_run dumps summary ∷ [])

abbrev pub file_offset : String → OffsetRow → FileOffset
file_offset fingerprint row = record {
  fingerprint = fingerprint;
  last_path = row.last_path;
  offset = row.offset;
  file_size_at_read = row.file_size_at_read;
  updated_at = row.updated_at;
}

-- The dict that `get_offsets` fills from the rows of a source. The key of the table is unique, so
-- the order of the assignments makes no difference.
unfoldable pub offsets_of : String → Dict (String × String) OffsetRow → Dict String FileOffset
offsets_of source [] = []
offsets_of source (((s, fingerprint), row) ∷ rows) =
    let rest = offsets_of source rows in
    if str_eq s source then upsert fingerprint (file_offset fingerprint row) rest else rest

unfoldable pub get_offsets : String → Db → Dict String FileOffset
unfolding offsets_of
get_offsets source db = offsets_of source db.file_offsets
