-- ===== src/State/Refines.antt =====
-- state.py: the store as its callers see it, as maps that forget the order and the representation of
-- the rows. Every history of operations acts on the tables as it does on the maps.
use alteryx_server_maintenan.Prelude.{
  ℕ, ◌≡◌, refl, ap, ◌∙◌, String, Bool, false, Option, none, some, List, [], ◌∷◌, map, ◌⊎◌, inl, inr,
  if◌then◌else◌, Result, ok, raised,
}
use alteryx_server_maintenan.Prelude.Dict.{
  Eq, lookup, lookup-upsert, lookup-remove, string_key, pair_key,
}
use alteryx_server_maintenan.RunnerTypes.{UnitResult, RunSummary}
use alteryx_server_maintenan.State.{
  Watermark, FileOffset, OffsetRow, RunRow, Db, Statement, sqlite_error, watermark_row, offset_row,
  run_row, upsert_watermark, upsert_offset, remove_offset, upsert_run, set_watermark, set_offsets,
  delete_offset, record_run, transaction,
}
use alteryx_server_maintenan.State.Atomic.{apply_all, transaction-Atomic}

-- The maps.
pub record View : Type 0 where
  pub watermarks : String → Option Watermark
  pub offsets : String × String → Option OffsetRow
  pub runs : String → Option RunRow

abbrev pub view : Db → View
view db = record {
  watermarks = λ namespace. lookup namespace db.watermarks;
  offsets = λ key. lookup key db.file_offsets;
  runs = λ run_id. lookup run_id db.runs;
}

module _ {K V : Type 0} ⦃e : Eq K⦄ where
  abbrev pub put : K → V → (K → Option V) → K → Option V
  put k v m j = if e.beq k j then some v else m j

  abbrev pub drop_key : K → (K → Option V) → K → Option V
  drop_key k m j = if e.beq k j then none else m j

-- The operations that change the store.
pub data Operation : Type 0 where
  sets_watermark : String → String → String → String → Operation
  sets_offsets : String → List FileOffset → String → Operation
  deletes_offset : String → String → Operation
  records_run : RunSummary → Operation

-- One call of an operation: what SQLite does, the time, and the operation.
pub record Call : Type 0 where
  pub raises : ℕ → Bool
  pub now : String
  pub operation : Operation

module _ (dumps : List UnitResult → String) where
  abbrev run_operation : (ℕ → Bool) → String → Operation → Db → Result (Unit {0}) × Db
  run_operation raises now (sets_watermark namespace kind value run_id) db =
      set_watermark raises now namespace kind value run_id db
  run_operation raises now (sets_offsets source offsets run_id) db =
      set_offsets raises now source offsets run_id db
  run_operation raises now (deletes_offset source fingerprint) db =
      delete_offset raises now source fingerprint db
  run_operation raises now (records_run summary) db = record_run raises now dumps summary db

  abbrev pub run_call : Call → Db → Result (Unit {0}) × Db
  run_call c db = run_operation c.raises c.now c.operation db

  -- What an operation means for the maps.
  abbrev put_offsets : String → String → String → List FileOffset → View → View
  put_offsets now source run_id [] v = v
  put_offsets now source run_id (o ∷ offsets) v = put_offsets now source run_id offsets (record v {
    offsets = put (source, o.fingerprint) (offset_row (λ k. false) now o run_id) v.offsets;
  })

  abbrev meaning_of : String → Operation → View → View
  meaning_of now (sets_watermark namespace kind value run_id) v = record v {
    watermarks = put namespace (watermark_row (λ k. false) now kind value run_id) v.watermarks;
  }
  meaning_of now (sets_offsets source offsets run_id) v = put_offsets now source run_id offsets v
  meaning_of now (deletes_offset source fingerprint) v = record v {
    offsets = drop_key (source, fingerprint) v.offsets;
  }
  meaning_of now (records_run summary) v = record v {
    runs = put summary.run_id (run_row (λ k. false) now dumps summary) v.runs;
  }

  abbrev pub meaning : Call → View → View
  meaning c v = meaning_of c.now c.operation v

  -- What a call may end with.
  abbrev pub Implements : Call → Db → Result (Unit {0}) × Db → Type 0
  Implements c db (r, db') =
      ((r ≡ ok tt) × (view db' ≡ meaning c (view db))) ⊎ ((r ≡ raised sqlite_error) × (db' ≡ db))

  transaction-view :
      (raises : ℕ → Bool) (ss : List Statement) (db : Db) (v : View)
      → view (apply_all ss db) ≡ v
      → let (r, db') = transaction raises ss db in
        ((r ≡ ok tt) × (view db' ≡ v)) ⊎ ((r ≡ raised sqlite_error) × (db' ≡ db))
  transaction-view raises ss db v h = elim (transaction-Atomic raises ss db) [
    | inl e ↦ rw e (inl (refl, h))
    | inr e ↦ rw e (inr (refl, refl))
  ]

  view-put_offsets :
      (raises : ℕ → Bool) (now source run_id : String) (os : List FileOffset) (db : Db)
      → view (apply_all (map (upsert_offset raises now source run_id) os) db)
        ≡ put_offsets now source run_id os (view db)
  view-put_offsets raises now source run_id [] db = refl
  view-put_offsets raises now source run_id (o ∷ os) db =
      view-put_offsets raises now source run_id os (upsert_offset raises now source run_id o db)
      ∙ ap (put_offsets now source run_id os) (λ i. record (view db) {
        offsets = λ key.
            lookup-upsert key (source, o.fingerprint) (offset_row raises now o run_id)
              db.file_offsets i;
      })

  run_operation-Implements :
      (raises : ℕ → Bool) (now : String) (o : Operation) (db : Db)
      → Implements
          (record { raises = raises; now = now; operation = o })
          db
          (run_operation raises now o db)
  unfolding set_watermark set_offsets delete_offset record_run
  run_operation-Implements raises now (sets_watermark namespace kind value run_id) db =
      let row = watermark_row raises now kind value run_id in
      transaction-view raises (upsert_watermark raises now namespace row ∷ []) db _
        (λ i. record (view db) { watermarks = λ j. lookup-upsert j namespace row db.watermarks i })
  run_operation-Implements raises now (sets_offsets source os run_id) db =
      transaction-view raises (map (upsert_offset raises now source run_id) os) db _
        (view-put_offsets raises now source run_id os db)
  run_operation-Implements raises now (deletes_offset source fingerprint) db =
      transaction-view raises (remove_offset raises now source fingerprint ∷ []) db _ (λ i.
        record (view db) {
          offsets = λ key. lookup-remove key (source, fingerprint) db.file_offsets i;
        })
  run_operation-Implements raises now (records_run summary) db =
      transaction-view raises (upsert_run raises now dumps summary ∷ []) db _ (λ i.
        record (view db) {
          runs = λ j. lookup-upsert j summary.run_id (run_row raises now dumps summary) db.runs i;
        })

  -- A history of calls, with what each ended with.
  abbrev pub run_all : List Call → Db → List (Result (Unit {0})) × Db
  run_all [] db = ([], db)
  run_all (c ∷ calls) db =
      let (r, db') = run_call c db in let (rs, db'') = run_all calls db' in (r ∷ rs, db'')

  -- The meaning of the calls that returned.
  abbrev pub meaning_of_all : List Call → List (Result (Unit {0})) → View → View
  meaning_of_all [] rs v = v
  meaning_of_all (c ∷ calls) [] v = v
  meaning_of_all (c ∷ calls) (ok u ∷ rs) v = meaning_of_all calls rs (meaning c v)
  meaning_of_all (c ∷ calls) (raised e ∷ rs) v = meaning_of_all calls rs v

  -- After any history of calls, wherever SQLite raises, the tables read as the maps do on which only
  -- the calls that returned have acted, one after the other.
  pub run_all-meaning :
      (calls : List Call) (db : Db)
      → view (run_all calls db).1 ≡ meaning_of_all calls (run_all calls db).0 (view db)
  run_all-meaning [] db = refl
  run_all-meaning (c ∷ calls) db =
      go (run_call c db) (run_operation-Implements c.raises c.now c.operation db)
        (run_all-meaning calls (run_call c db).1)
    where
      go :
          (x : Result (Unit {0}) × Db)
          → Implements c db x
          → view (run_all calls x.1).1 ≡ meaning_of_all calls (run_all calls x.1).0 (view x.1)
          → view (run_all calls x.1).1
            ≡ meaning_of_all (c ∷ calls) (x.0 ∷ (run_all calls x.1).0) (view db)
      go (r, db') (inl h) rest = rw h.0 (rest ∙ ap (meaning_of_all calls (run_all calls db').0) h.1)
      go (r, db') (inr h) rest =
          rw h.0 (rest ∙ ap (λ (d : Db). meaning_of_all calls (run_all calls db').0 (view d)) h.1)
