-- ===== src/State/ReadBack.antt =====
-- state.py: what is read back after a write.
use mathlib.Core.Option
use alteryx_server_maintenan.Prelude.{
  ℕ, String, ◌≡◌, refl, ◌⊎◌, inl, inr, Bool, Option, none, some, List, [], ◌∷◌, map, arith, str_eq,
  eq_iff, if◌then◌else◌, Result, ok, raised,
}
use alteryx_server_maintenan.Prelude.Dict.{Dict, lookup, lookup-upsert, string_key, pair_key}
use alteryx_server_maintenan.State.{
  FileOffset, OffsetRow, Db, watermark_row, upsert_watermark, Statement, sqlite_error,
  get_watermark, set_watermark, upsert_offset, set_offsets, file_offset, offsets_of, get_offsets,
  offset_row,
}
use alteryx_server_maintenan.State.Atomic.{apply_all, transaction-Atomic, transaction-ok}

module _ (raises : ℕ → Bool) (now : String) where
  -- After `set_watermark` returned, its namespace has the new watermark, every other namespace the
  -- one it had, and the other tables are as they were.
  pub get_watermark-set_watermark :
      (namespace kind value run_id : String) (db : Db)
      → (set_watermark raises now namespace kind value run_id db).0 ≡ ok tt
      → let db' = (set_watermark raises now namespace kind value run_id db).1 in
        ((other : String)
          → get_watermark other db' ≡ (
              if str_eq namespace other
              then some (watermark_row raises now kind value run_id)
              else get_watermark other db))
        × (db'.file_offsets ≡ db.file_offsets)
        × (db'.runs ≡ db.runs)
  unfolding get_watermark set_watermark
  get_watermark-set_watermark namespace kind value run_id db h =
      let row = watermark_row raises now kind value run_id in
      let e = transaction-ok raises (upsert_watermark raises now namespace row ∷ []) db h in
      rw e ((λ other. lookup-upsert other namespace row db.watermarks), refl, refl)

-- The last offset of a batch for a file, if it has one.
unfoldable pub newest : String → List FileOffset → Option FileOffset
newest f [] = none
newest f (o ∷ os) = elim (newest f os) [
  | some later ↦ some later
  | none ↦ if str_eq o.fingerprint f then some o else none
]

pub lookup-offsets_of :
    (source f : String) (rows : Dict (String × String) OffsetRow)
    → lookup f (offsets_of source rows) ≡ Option.map (file_offset f) (lookup (source, f) rows)
unfolding offsets_of lookup
lookup-offsets_of source f [] = refl
lookup-offsets_of source f (((s, g), row) ∷ rows) = ground (
  arith,
  eq_iff s source,
  eq_iff g f,
  lookup-offsets_of source f rows,
  lookup-upsert f g (file_offset g row) (offsets_of source rows),
)

module _ (raises : ℕ → Bool) (now source run_id : String) where
  abbrev pub batch : List FileOffset → List Statement
  batch os = map (upsert_offset raises now source run_id) os

  -- What a batch leaves of a row.
  abbrev row_after : Option FileOffset → Option OffsetRow → Option OffsetRow
  row_after none old = old
  row_after (some fo) old = some (offset_row raises now fo run_id)

  lookup-batch :
      (s f : String) (os : List FileOffset) (db : Db)
      → lookup (s, f) (apply_all (batch os) db).file_offsets ≡ (
          if str_eq source s
          then row_after (newest f os) (lookup (s, f) db.file_offsets)
          else lookup (s, f) db.file_offsets)
  unfolding newest
  lookup-batch s f [] db = ground arith
  lookup-batch s f (o ∷ os) db = ground (
    arith,
    lookup-batch s f os (upsert_offset raises now source run_id o db),
    lookup-upsert (s, f) (source, o.fingerprint) (offset_row raises now o run_id) db.file_offsets,
  )

  batch-watermarks :
      (os : List FileOffset) (db : Db)
      → ((apply_all (batch os) db).watermarks ≡ db.watermarks)
        × ((apply_all (batch os) db).runs ≡ db.runs)
  batch-watermarks [] db = (refl, refl)
  batch-watermarks (o ∷ os) db = batch-watermarks os (upsert_offset raises now source run_id o db)

  -- What a batch of offsets may end with.
  abbrev pub OffsetsSet : List FileOffset → Db → Result (Unit {0}) × Db → Type 0
  OffsetsSet os db (r, db') =
      ((r ≡ raised sqlite_error) × (db' ≡ db))
      ⊎ ((r ≡ ok tt)
          × ((s f : String)
              → lookup f (get_offsets s db') ≡ (
                  if str_eq source s
                  then elim (newest f os) [
                    | none ↦ lookup f (get_offsets s db)
                    | some fo ↦ some (file_offset f (offset_row raises now fo run_id))
                  ]
                  else lookup f (get_offsets s db)))
          × (db'.watermarks ≡ db.watermarks)
          × (db'.runs ≡ db.runs))

  -- `set_offsets` is all or nothing: it raises and changes nothing, or it returns, and then each
  -- file of the source has the last offset that the batch has for it, stamped with the current
  -- time, every other file the offset it had, and the watermarks and runs are as they were.
  pub get_offsets-set_offsets :
      (os : List FileOffset) (db : Db)
      → OffsetsSet os db (set_offsets raises now source os run_id db)
  unfolding set_offsets get_offsets
  get_offsets-set_offsets os db = elim (transaction-Atomic raises (batch os) db) [
    | inl e ↦ rw e (inr (refl, read, (batch-watermarks os db).0, (batch-watermarks os db).1))
    | inr e ↦ rw e (inl (refl, refl))
  ]
    where
      read :
          (s f : String)
          → lookup f (offsets_of s (apply_all (batch os) db).file_offsets) ≡ (
              if str_eq source s
              then elim (newest f os) [
                | none ↦ lookup f (get_offsets s db)
                | some fo ↦ some (file_offset f (offset_row raises now fo run_id))
              ]
              else lookup f (get_offsets s db))
      read s f = ground (
        arith,
        lookup-offsets_of s f (apply_all (batch os) db).file_offsets,
        lookup-batch s f os db,
        lookup-offsets_of s f db.file_offsets,
      )
