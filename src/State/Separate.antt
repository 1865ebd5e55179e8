-- ===== src/State/Separate.antt =====
-- state.py: what the operations on the offsets of one source do to those of another: nothing.
use alteryx_server_maintenan.Prelude.{
  ℕ, String, ◌≡◌, ◌≢◌, refl, ◌∙◌, Bool, List, [], ◌∷◌, map, arith, eq_iff,
}
use alteryx_server_maintenan.Prelude.Dict.{Dict, upsert, remove, pair_key, string_key}
use alteryx_server_maintenan.State.{
  Db, FileOffset, OffsetRow, offsets_of, get_offsets, set_offsets, upsert_offset, delete_offset,
  remove_offset,
}
use alteryx_server_maintenan.State.Atomic.{apply_all, transaction-keeps}

module _ (source other : String) (apart : source ≢ other) where
  offsets_of-upsert :
      (f : String) (row : OffsetRow) (rows : Dict (String × String) OffsetRow)
      → offsets_of other (upsert (source, f) row rows) ≡ offsets_of other rows
  unfolding offsets_of upsert
  offsets_of-upsert f row [] = ground (arith, eq_iff source other)
  offsets_of-upsert f row (((s, g), r) ∷ rows) = ground (
    arith,
    eq_iff source other,
    eq_iff s source,
    eq_iff g f,
    eq_iff s other,
    offsets_of-upsert f row rows,
  )

  offsets_of-remove :
      (f : String) (rows : Dict (String × String) OffsetRow)
      → offsets_of other (remove (source, f) rows) ≡ offsets_of other rows
  unfolding offsets_of remove
  offsets_of-remove f [] = refl
  offsets_of-remove f (((s, g), r) ∷ rows) = ground (
    arith,
    eq_iff source other,
    eq_iff s source,
    eq_iff g f,
    eq_iff s other,
    offsets_of-remove f rows,
  )

  module _ (raises : ℕ → Bool) (now run_id : String) where
    upserts-apart :
        (offsets : List FileOffset) (db : Db)
        → get_offsets other (apply_all (map (upsert_offset raises now source run_id) offsets) db)
          ≡ get_offsets other db
    unfolding get_offsets
    upserts-apart [] db = refl
    upserts-apart (fo ∷ offsets) db =
        upserts-apart offsets (upsert_offset raises now source run_id fo db)
        ∙ offsets_of-upsert fo.fingerprint _ db.file_offsets

    pub get_offsets-set_offsets_apart :
        (offsets : List FileOffset) (db : Db)
        → get_offsets other (set_offsets raises now source offsets run_id db).1
          ≡ get_offsets other db
    unfolding set_offsets
    get_offsets-set_offsets_apart offsets db =
        transaction-keeps (λ d. get_offsets other d ≡ get_offsets other db) raises
          (map (upsert_offset raises now source run_id) offsets) db refl (upserts-apart offsets db)

    pub get_offsets-delete_offset_apart :
        (f : String) (db : Db)
        → get_offsets other (delete_offset raises now source f db).1 ≡ get_offsets other db
    unfolding delete_offset get_offsets
    get_offsets-delete_offset_apart f db =
        transaction-keeps (λ d. get_offsets other d ≡ get_offsets other db) raises
          (remove_offset raises now source f ∷ []) db refl (offsets_of-remove f db.file_offsets)

module _ (raises : ℕ → Bool) (now source run_id : String) where
  upserts-watermarks :
      (offsets : List FileOffset) (db : Db)
      → (apply_all (map (upsert_offset raises now source run_id) offsets) db).watermarks
        ≡ db.watermarks
  upserts-watermarks [] db = refl
  upserts-watermarks (fo ∷ offsets) db =
      upserts-watermarks offsets (upsert_offset raises now source run_id fo db)

  -- Nor do they touch a watermark.
  pub set_offsets-watermarks :
      (offsets : List FileOffset) (db : Db)
      → (set_offsets raises now source offsets run_id db).1.watermarks ≡ db.watermarks
  unfolding set_offsets
  set_offsets-watermarks offsets db =
      transaction-keeps (λ d. d.watermarks ≡ db.watermarks) raises
        (map (upsert_offset raises now source run_id) offsets) db refl
        (upserts-watermarks offsets db)

  pub delete_offset-watermarks :
      (f : String) (db : Db) → (delete_offset raises now source f db).1.watermarks ≡ db.watermarks
  unfolding delete_offset
  delete_offset-watermarks f db =
      transaction-keeps (λ d. d.watermarks ≡ db.watermarks) raises
        (remove_offset raises now source f ∷ []) db refl refl
