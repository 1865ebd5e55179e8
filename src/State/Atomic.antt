-- ===== src/State/Atomic.antt =====
-- state.py: transactions are all or nothing.
use alteryx_server_maintenan.Prelude.{
  ℕ, ◌+◌, String, ◌≡◌, ap, ◌⊎◌, inl, inr, Bool, false, Bool-cases, List, [], ◌∷◌, map, Result, ok,
  raised, Exn,
}
use alteryx_server_maintenan.Prelude.Dict.{string_key, pair_key}
use alteryx_server_maintenan.RunnerTypes.{RunSummary, UnitResult}
use alteryx_server_maintenan.State.{
  FileOffset, Db, watermark_row, upsert_watermark, remove_offset, upsert_run, Statement,
  sqlite_error, run_statements, transaction, set_watermark, upsert_offset, set_offsets,
  delete_offset, record_run,
}

module _ {S : Type 0} where
  -- All statements, one after the other.
  abbrev pub apply_all : List (S → S) → S → S
  apply_all [] db = db
  apply_all (s ∷ ss) db = apply_all ss (s db)

  -- All or nothing.
  abbrev pub Atomic : List (S → S) → S → Result (Unit {0}) × S → Type 0
  Atomic ss db r = (r ≡ (ok tt, apply_all ss db)) ⊎ (r ≡ (raised sqlite_error, db))

  pub run_statements-Atomic :
      (raises : ℕ → Bool) (k : ℕ) (ss : List (S → S)) (working before : S)
      → (run_statements raises k ss working before ≡ (ok tt, apply_all ss working))
        ⊎ (run_statements raises k ss working before ≡ (raised sqlite_error, before))
  unfolding run_statements
  run_statements-Atomic raises k [] working before = elim (Bool-cases (raises k)) [
    | inl e ↦ inr (rw e)
    | inr e ↦ inl (rw e)
  ]
  run_statements-Atomic raises k (s ∷ ss) working before = elim (Bool-cases (raises k)) [
    | inl e ↦ inr (rw e)
    | inr e ↦ rw e (run_statements-Atomic raises (k + 1) ss (s working) before)
  ]

  -- A transaction applies all of its statements, or raises and leaves what it works on as it was, at
  -- whichever statement SQLite raises.
  pub transaction-Atomic :
      (raises : ℕ → Bool) (ss : List (S → S)) (db : S) → Atomic ss db (transaction raises ss db)
  unfolding transaction
  transaction-Atomic raises ss db = elim (Bool-cases (raises 0)) [
    | inl e ↦ inr (rw e)
    | inr e ↦ rw e (run_statements-Atomic raises 1 ss db db)
  ]

-- What a transaction that raises has done: nothing.
pub transaction-raised :
    (raises : ℕ → Bool) (ss : List Statement) (db : Db) {e : Exn} {db' : Db}
    → transaction raises ss db ≡ (raised e, db')
    → db' ≡ db
transaction-raised raises ss db h = elim (transaction-Atomic raises ss db) [
  | inl e ↦ cc
  | inr e ↦ cc
]

-- What a transaction that returns has done.
pub transaction-ok :
    (raises : ℕ → Bool) (ss : List Statement) (db : Db)
    → (transaction raises ss db).0 ≡ ok tt
    → (transaction raises ss db).1 ≡ apply_all ss db
transaction-ok raises ss db h = elim (transaction-Atomic raises ss db) [
  | inl e ↦ ap (λ (r : Result (Unit {0}) × Db). r.1) e
  | inr e ↦ cc
]

-- Atomicity carries a property of the database that each statement keeps.
pub transaction-keeps :
    (P : Db → Type 0) (raises : ℕ → Bool) (ss : List Statement) (db : Db)
    → P db
    → P (apply_all ss db)
    → P (transaction raises ss db).1
transaction-keeps P raises ss db h k = elim (transaction-Atomic raises ss db) [
  | inl e ↦ rw e k
  | inr e ↦ rw e h
]

module _ (raises : ℕ → Bool) (now : String) where
  pub set_watermark-raised :
      (namespace kind value run_id : String) (db : Db) {e : Exn} {db' : Db}
      → set_watermark raises now namespace kind value run_id db ≡ (raised e, db')
      → db' ≡ db
  unfolding set_watermark
  set_watermark-raised namespace kind value run_id db h =
      transaction-raised raises
        (upsert_watermark raises now namespace (watermark_row raises now kind value run_id) ∷ []) db
        h

  pub set_offsets-raised :
      (source : String) (os : List FileOffset) (run_id : String) (db : Db) {e : Exn} {db' : Db}
      → set_offsets raises now source os run_id db ≡ (raised e, db')
      → db' ≡ db
  unfolding set_offsets
  set_offsets-raised source os run_id db h =
      transaction-raised raises (map (upsert_offset raises now source run_id) os) db h

-- Statements that SQLite raises at none of are all run.
run_statements_total :
    (raises : ℕ → Bool) (k : ℕ) (ss : List Statement) (working before : Db)
    → ((i : ℕ) → raises i ≡ false)
    → run_statements raises k ss working before ≡ (ok tt, apply_all ss working)
unfolding run_statements
run_statements_total raises k [] working before h = rw (h k)
run_statements_total raises k (s ∷ ss) working before h =
    rw (h k) (run_statements_total raises (k + 1) ss (s working) before h)

transaction_total :
    (raises : ℕ → Bool) (ss : List Statement) (db : Db)
    → ((i : ℕ) → raises i ≡ false)
    → transaction raises ss db ≡ (ok tt, apply_all ss db)
unfolding transaction
transaction_total raises ss db never = rw (never 0) (run_statements_total raises 1 ss db db never)

-- Where SQLite raises at no statement, every operation of the store returns, with all of its
-- statements applied.
pub operations_total :
    (raises : ℕ → Bool) (now : String)
    → ((i : ℕ) → raises i ≡ false)
    → (db : Db)
    → ((namespace kind value run_id : String)
        → (set_watermark raises now namespace kind value run_id db).0 ≡ ok tt)
      × ((source run_id : String) (os : List FileOffset)
          → set_offsets raises now source os run_id db
            ≡ (ok tt, apply_all (map (upsert_offset raises now source run_id) os) db))
      × ((source fingerprint : String)
          → delete_offset raises now source fingerprint db
            ≡ (ok tt, remove_offset raises now source fingerprint db))
      × ((dumps : List UnitResult → String) (summary : RunSummary)
          → (record_run raises now dumps summary db).0 ≡ ok tt)
unfolding set_watermark set_offsets delete_offset record_run
operations_total raises now never db = (
  λ namespace kind value run_id.
      ap (λ r. r.0)
        (transaction_total raises
          (upsert_watermark raises now namespace (watermark_row raises now kind value run_id) ∷ [])
          db never),
  λ source run_id os.
      transaction_total raises (map (upsert_offset raises now source run_id) os) db never,
  λ source fingerprint.
      transaction_total raises (remove_offset raises now source fingerprint ∷ []) db never,
  λ dumps summary.
      ap (λ r. r.0) (transaction_total raises (upsert_run raises now dumps summary ∷ []) db never),
)
