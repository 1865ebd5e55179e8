-- ===== src/State/Open.antt =====
-- state.py: how the store is opened: the directory, the connection, the four pragmas and the schema.
-- A table that the file does not have is `none`.
use alteryx_server_maintenan.Prelude.{
  ℕ, String, ◌≡◌, refl, Bool, Option, none, some, List, [], ◌∷◌, inl, inr, Result, ok, raised, Exn,
}
use alteryx_server_maintenan.Prelude.Dict.{Dict}
use alteryx_server_maintenan.State.{Db, Watermark, OffsetRow, RunRow, transaction}
use alteryx_server_maintenan.State.Atomic.{transaction-Atomic, apply_all}

pub record Tables : Type 0 where
  pub watermarks : Option (Dict String Watermark)
  pub file_offsets : Option (Dict (String × String) OffsetRow)
  pub runs : Option (Dict String RunRow)

-- `CREATE TABLE IF NOT EXISTS`.
abbrev pub create_if_missing : {A : Type 0} → Option (List A) → Option (List A)
create_if_missing none = some []
create_if_missing (some rows) = some rows

abbrev pub create_watermarks : Tables → Tables
create_watermarks t = record t { watermarks = create_if_missing t.watermarks }

abbrev pub create_file_offsets : Tables → Tables
create_file_offsets t = record t { file_offsets = create_if_missing t.file_offsets }

abbrev pub create_runs : Tables → Tables
create_runs t = record t { runs = create_if_missing t.runs }

abbrev pub schema_statements : List (Tables → Tables)
schema_statements = create_watermarks ∷ create_file_offsets ∷ create_runs ∷ []

unfoldable pub init_schema : (ℕ → Bool) → Tables → Result (Unit {0}) × Tables
unfolding transaction
init_schema raises = transaction raises schema_statements

abbrev pub pragmas : List String
pragmas =
    "PRAGMA journal_mode=WAL" ∷ "PRAGMA synchronous=FULL" ∷ "PRAGMA busy_timeout=5000"
    ∷ "PRAGMA foreign_keys=ON" ∷ []

-- How the file system and SQLite answer.
pub record Opening : Type 0 where
  pub mkdir : Result (Unit {0})
  pub connect : Result (Unit {0})
  pub pragma : String → Result (Unit {0})
  pub sql_raises : ℕ → Bool

-- The calls before the schema, in their order.
abbrev pub in_turn : Result (Unit {0}) → Result (Unit {0}) → Result (Unit {0})
in_turn (ok u) next = next
in_turn (raised e) next = raised e

unfoldable pub run_pragmas : (String → Result (Unit {0})) → List String → Result (Unit {0})
run_pragmas pragma [] = ok tt
run_pragmas pragma (p ∷ ps) = in_turn (pragma p) (run_pragmas pragma ps)

unfoldable pub prepare : Opening → Result (Unit {0})
unfolding run_pragmas
prepare o = in_turn o.mkdir (in_turn o.connect (run_pragmas o.pragma pragmas))

abbrev pub after_prepare : (ℕ → Bool) → Result (Unit {0}) → Tables → Result (Unit {0}) × Tables
after_prepare raises (ok u) t = init_schema raises t
after_prepare raises (raised e) t = (raised e, t)

-- `StateStore.__init__`.
unfoldable pub open_store : Opening → Tables → Result (Unit {0}) × Tables
unfolding init_schema prepare
open_store o t = after_prepare o.sql_raises (prepare o) t

-- What is in the tables; nothing is in one that is not there.
abbrev pub rows_of : {A : Type 0} → Option (List A) → List A
rows_of none = []
rows_of (some rows) = rows

abbrev pub contents : Tables → Db
contents t = record {
  watermarks = rows_of t.watermarks;
  file_offsets = rows_of t.file_offsets;
  runs = rows_of t.runs;
}

abbrev pub tables_of : Db → Tables
tables_of db = record {
  watermarks = some db.watermarks;
  file_offsets = some db.file_offsets;
  runs = some db.runs;
}

-- Every call before the schema has returned, each of the four pragmas among them.
pub record IsPrepared (o : Opening) : Type 0 where
  pub directory : o.mkdir ≡ ok tt
  pub connected : o.connect ≡ ok tt
  pub journal_mode : o.pragma "PRAGMA journal_mode=WAL" ≡ ok tt
  pub synchronous : o.pragma "PRAGMA synchronous=FULL" ≡ ok tt
  pub busy_timeout : o.pragma "PRAGMA busy_timeout=5000" ≡ ok tt
  pub foreign_keys : o.pragma "PRAGMA foreign_keys=ON" ≡ ok tt

in_turn-ok : (r next : Result (Unit {0})) → in_turn r next ≡ ok tt → (r ≡ ok tt) × (next ≡ ok tt)
in_turn-ok (ok u) next h = (refl, h)
in_turn-ok (raised e) next h = cc

prepare-IsPrepared : (o : Opening) → prepare o ≡ ok tt → IsPrepared o
unfolding prepare run_pragmas
prepare-IsPrepared o h =
    let (directory, h1) = in_turn-ok o.mkdir _ h in
    let (connected, h2) = in_turn-ok o.connect _ h1 in
    let (journal_mode, h3) = in_turn-ok (o.pragma "PRAGMA journal_mode=WAL") _ h2 in
    let (synchronous, h4) = in_turn-ok (o.pragma "PRAGMA synchronous=FULL") _ h3 in
    let (busy_timeout, h5) = in_turn-ok (o.pragma "PRAGMA busy_timeout=5000") _ h4 in
    let (foreign_keys, h6) = in_turn-ok (o.pragma "PRAGMA foreign_keys=ON") _ h5 in
    record {
      directory = directory;
      connected = connected;
      journal_mode = journal_mode;
      synchronous = synchronous;
      busy_timeout = busy_timeout;
      foreign_keys = foreign_keys;
    }

-- Opened, with all tables and every row that there was; or an error, and the file as it was.
pub data Opens (o : Opening) (t : Tables) : Result (Unit {0}) × Tables → Type 0 where
  opened : IsPrepared o → Opens o t (ok tt, tables_of (contents t))
  refused : {e : Exn} → Opens o t (raised e, t)

with_schema : (t : Tables) → apply_all schema_statements t ≡ tables_of (contents t)
with_schema t = go t.watermarks t.file_offsets t.runs
  where
    go :
        (w : Option (Dict String Watermark)) (f : Option (Dict (String × String) OffsetRow))
        (r : Option (Dict String RunRow))
        → let u : Tables = record { watermarks = w; file_offsets = f; runs = r } in
          apply_all schema_statements u ≡ tables_of (contents u)
    go none none none = refl
    go none none (some r) = refl
    go none (some f) none = refl
    go none (some f) (some r) = refl
    go (some w) none none = refl
    go (some w) none (some r) = refl
    go (some w) (some f) none = refl
    go (some w) (some f) (some r) = refl

-- Opening a store, new or old, ends in one of two ways, wherever the file system or SQLite raises:
-- each of the four pragmas was executed and raised nothing, the three tables are there, and each has the rows that it had, none
-- if it was missing; or it raises, and no table was made or changed.
pub open_store-Opens : (o : Opening) (t : Tables) → Opens o t (open_store o t)
unfolding open_store init_schema
open_store-Opens o t = go (prepare o) refl
  where
    go : (r : Result (Unit {0})) → prepare o ≡ r → Opens o t (after_prepare o.sql_raises r t)
    go (raised e) h = refused
    go (ok u) h = elim (transaction-Atomic o.sql_raises schema_statements t) [
      | inl e ↦ rw (e, with_schema t) (opened (prepare-IsPrepared o h))
      | inr e ↦ rw e refused
    ]

-- Either way the store reads as before.
pub open_store-contents : (o : Opening) (t : Tables) → contents (open_store o t).1 ≡ contents t
open_store-contents o t = go (open_store-Opens o t)
  where
    go : {x : Result (Unit {0}) × Tables} → Opens o t x → contents x.1 ≡ contents t
    go (opened h) = refl
    go refused = refl
