-- ===== src/Mongo/Extract/Total.antt =====
-- mongo/extract.py: a run returns, and with a good status, where nothing goes wrong.
use alteryx_server_maintenan.Prelude.{
  ℕ, ◌+◌, ◌*◌, ◌≡◌, refl, String, Option, none, some, List, [], ◌∷◌, ◌++◌, length, arith, ok, Exn,
}
use alteryx_server_maintenan.Prelude.Dict.{string_key}
use alteryx_server_maintenan.Prelude.Int.{ℤ}
use alteryx_server_maintenan.Sinks.{ParquetVariantSink}
use alteryx_server_maintenan.World.{World, Env, Row}
use alteryx_server_maintenan.World.Exec.{Exec, ◌>>=◌, ◌>>◌}
use alteryx_server_maintenan.World.Rules.{returns, >>=-Post, branch-Post}
use alteryx_server_maintenan.World.Total.{IsQuiet, Returns, Lives, lift->>=-Returns}
use alteryx_server_maintenan.Mongo.Watermark.{WatermarkStrategy}
use alteryx_server_maintenan.Mongo.Extract.{
  Cursor, Json, RowContext, doc_to_row, flush_if_full, for_docs, read_cursor, reaches, stop_at,
}
use alteryx_server_maintenan.Sinks.Total.{write_rows-Returns}

stop_at-Returns :
    {B : Type 0} {Q : B → World → Type 0} (fault : Option Exn) (m : Exec B) (w : World)
    → fault ≡ none
    → Returns Q (m w)
    → Returns Q ((stop_at fault >> m) w)
unfolding ◌>>=◌
stop_at-Returns none m w e h = h
stop_at-Returns (some x) m w e h = cc

-- No document is refused: each is observed, is written as JSON and has a watermark text.
pub record IsAccepting {Doc Filter St : Type 0} (json : Json Doc)
    (strategy : WatermarkStrategy Doc Filter St) : Type 0 where
  pub observed : (doc : Doc) (st : St) → (st' : St) × (strategy.observe doc st ≡ ok st')
  pub dumped : (doc : Doc) → (payload : String) × (json.dumps doc ≡ ok payload)
  pub marked : (doc : Doc) → (column : String) × (strategy.watermark_column_value doc ≡ ok column)

module _ {Doc Filter St : Type 0} (env : Env) (json : Json Doc)
    (strategy : WatermarkStrategy Doc Filter St) (quiet : IsQuiet env)
    (accepting : IsAccepting json strategy) where
  module _ (batch_size : ℤ) (ctx : RowContext) where
    doc_to_row_total : (doc : Doc) → (row : Row) × (doc_to_row env json strategy doc ctx ≡ ok row)
    unfolding doc_to_row
    doc_to_row_total doc = rw ((accepting.dumped doc).1, (accepting.marked doc).1) (_, refl)

    flush_if_full-Returns :
        (n : ℕ) (rows : List Row) (sink : ParquetVariantSink) (w : World)
        → Lives (n + 2) w
        → Returns (λ _ w'. Lives n w') (flush_if_full env json strategy batch_size rows sink w)
    unfolding flush_if_full
    flush_if_full-Returns n rows sink w l =
        branch-Post (reaches batch_size (length rows)) _ _ w
          (λ e. >>=-Post _ _ w (write_rows-Returns env quiet n rows sink w l) (λ s w' m. returns m))
          (λ e. returns (omega arith))

    for_docs-Returns :
        (n : ℕ) (docs : List Doc) (st : St) (rows : List Row) (sink : ParquetVariantSink)
        (w : World)
        → Lives (2 * length docs + n) w
        → Returns
            (λ _ w'. Lives n w')
            (for_docs env json strategy batch_size ctx docs st rows sink w)
    unfolding for_docs
    for_docs-Returns n [] st rows sink w l = returns (omega arith)
    for_docs-Returns n (doc ∷ docs) st rows sink w l =
        let (st', seen) = accepting.observed doc st in
        let (row, made) = doc_to_row_total doc in
        lift->>=-Returns _ _ w seen (
          lift->>=-Returns _ _ w made (
            >>=-Post _ _ w
              (flush_if_full-Returns (2 * length docs + n) (rows ++ row ∷ []) sink w (omega arith))
              (λ r w' m. for_docs-Returns n docs st' r.0 r.1 w' m)))

    pub read_cursor-Returns :
        (n : ℕ) (cursor : Cursor Doc) (sink : ParquetVariantSink) (w : World)
        → cursor.fault ≡ none
        → Lives (2 * length cursor.docs + (n + 2)) w
        → Returns (λ _ w'. Lives n w') (read_cursor env json strategy batch_size ctx cursor sink w)
    unfolding read_cursor
    read_cursor-Returns n cursor sink w whole l =
        >>=-Post _ _ w (for_docs-Returns (n + 2) cursor.docs strategy.initial [] sink w l)
          (λ r w' m.
            stop_at-Returns cursor.fault _ w' whole (
              >>=-Post _ _ w' (write_rows-Returns env quiet n r.1 r.2 w' m) (λ s w'' k. returns k)))
