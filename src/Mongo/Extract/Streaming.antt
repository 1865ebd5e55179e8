-- ===== src/Mongo/Extract/Streaming.antt =====
-- mongo/extract.py: the loop over the cursor writes every document once, in order and in bounded
-- row groups, and touches neither the database nor the bucket.
use Prim.Native.Nat.{max}
use mathlib.Core.Path.{subst}
use alteryx_server_maintenan.Prelude.Int.{ℤ, pos, negsuc}
use alteryx_server_maintenan.Prelude.{
  ℕ, ◌≤◌, ◌<◌, ◌≡◌, refl, ◌∙◌, sym, ap, inl, inr, String, Bool-cases, Option, none, some, List, [],
  ◌∷◌, ◌++◌, append-nil, append_assoc, arith, length, length-append, ok, false, Exn,
}
use alteryx_server_maintenan.Sinks.{ParquetVariantSink, new_sink}
use alteryx_server_maintenan.Sinks.Laws.{SameStores, SameStores-refl, SameStores-trans}
use alteryx_server_maintenan.World.{World, Env, Row}
use alteryx_server_maintenan.World.Exec.{Exec, ◌>>=◌, ◌>>◌}
use alteryx_server_maintenan.World.Rules.{Post, returns, raises, >>=-Post, lift->>=-Post, Post-map}
use alteryx_server_maintenan.Mongo.Watermark.{WatermarkStrategy}
use alteryx_server_maintenan.Mongo.Extract.{
  Cursor, Json, RowContext, doc_to_row, flush_if_full, for_docs, read_cursor, stop_at, reaches,
}
use alteryx_server_maintenan.Mongo.Extract.Sinking.{
  all_rows, with_group, all_rows-with_group, IsSpooled, write_rows-Post,
}

-- The longest row group that a batch size allows; a batch size of 0 or less flushes each row.
abbrev pub row_limit : ℤ → ℕ
row_limit (pos batch_size) = max batch_size 1
row_limit (negsuc batch_size) = 1

row_limit_pos : (batch_size : ℤ) → 1 ≤ row_limit batch_size
row_limit_pos (pos batch_size) = omega arith
row_limit_pos (negsuc batch_size) = omega arith

lt-row_limit : (batch_size : ℤ) (n : ℕ) → reaches batch_size n ≡ false → n < row_limit batch_size
lt-row_limit (pos batch_size) n h = ground arith
lt-row_limit (negsuc batch_size) n h = ground arith

stop_at-Post :
    {B : Type 0} {Q : B → World → Type 0} {R : World → Type 0} (fault : Option Exn) (m : Exec B)
    (w : World)
    → R w
    → (fault ≡ none → Post Q R (m w))
    → Post Q R ((stop_at fault >> m) w)
unfolding ◌>>=◌
stop_at-Post none m w h k = k refl
stop_at-Post (some e) m w h k = raises h

module _ {Doc Filter St : Type 0} (env : Env) (json : Json Doc)
    (strategy : WatermarkStrategy Doc Filter St) (batch_size : ℤ) (ctx : RowContext) where
  -- What one pass over the documents gives, batches aside: each document is observed, and makes the
  -- row that the landing format gives for it.
  pub data Reads : St → List Doc → St → List Row → Type 0 where
    nothing : {st : St} → Reads st [] st []
    one :
        {st st' st'' : St} {doc : Doc} {docs : List Doc} {row : Row} {rows : List Row}
        → strategy.observe doc st ≡ ok st'
        → doc_to_row env json strategy doc ctx ≡ ok row
        → Reads st' docs st'' rows
        → Reads st (doc ∷ docs) st'' (row ∷ rows)

  module _ (path : String) where
    flush_if_full-Post :
        (gs : List (List Row)) (rows : List Row) (sink : ParquetVariantSink) (w : World)
        → IsSpooled path (row_limit batch_size) gs sink w
        → length rows ≤ row_limit batch_size
        → Post
            (λ r w'.
              (gs' : List (List Row)) × IsSpooled path (row_limit batch_size) gs' r.1 w'
              × (all_rows gs' ++ r.0 ≡ all_rows gs ++ rows)
              × (length r.0 < row_limit batch_size)
              × SameStores w w')
            (SameStores w)
            (flush_if_full env json strategy batch_size rows sink w)
    unfolding flush_if_full
    flush_if_full-Post gs rows sink w h l = elim (Bool-cases (reaches batch_size (length rows))) [
      | inr e ↦
          simp e (returns (gs, h, refl, lt-row_limit batch_size (length rows) e, SameStores-refl w))
      | inl e ↦ simp e (
          >>=-Post _ _ w (write_rows-Post env path (row_limit batch_size) gs rows sink w h l)
            (λ s w' (a, same). returns (
              with_group gs rows,
              a,
              append-nil _ ∙ all_rows-with_group gs rows,
              row_limit_pos batch_size,
              same,
            )))
    ]

    -- The state of the loop after it has gone through some documents.
    pub record IsReadTo (gs : List (List Row)) (pending : List Row) (st : St) (docs : List Doc)
        (r : St × List Row × ParquetVariantSink) (w : World) : Type 0 where
      pub groups : List (List Row)
      pub rows : List Row
      pub reads : Reads st docs r.0 rows
      pub spooled : IsSpooled path (row_limit batch_size) groups r.2 w
      pub content : all_rows groups ++ r.1 ≡ (all_rows gs ++ pending) ++ rows
      pub short : length r.1 < row_limit batch_size

    for_docs-Post :
        (docs : List Doc) (st : St) (gs : List (List Row)) (pending : List Row)
        (sink : ParquetVariantSink) (w : World)
        → IsSpooled path (row_limit batch_size) gs sink w
        → length pending < row_limit batch_size
        → Post
            (λ r w'. IsReadTo gs pending st docs r w' × SameStores w w')
            (SameStores w)
            (for_docs env json strategy batch_size ctx docs st pending sink w)
    unfolding for_docs
    for_docs-Post [] st gs pending sink w h l = returns (
      record {
        groups = gs;
        rows = [];
        reads = nothing;
        spooled = h;
        content = sym (append-nil _);
        short = l;
      },
      SameStores-refl w,
    )
    for_docs-Post (doc ∷ docs) st gs pending sink w h l =
        lift->>=-Post (strategy.observe doc st) _ w (SameStores-refl w) λ st' observed.
          lift->>=-Post (doc_to_row env json strategy doc ctx) _ w (SameStores-refl w) λ row made.
            >>=-Post _ _ w
              (flush_if_full-Post gs (pending ++ row ∷ []) sink w h
                (omega (arith, length-append pending (row ∷ []))))
              λ r w' (gs', spooled, same_rows, short, same).
                Post-map (for_docs-Post docs st' gs' r.0 r.1 w' spooled short)
                  (λ r' w'' (a, same'). (
                    record {
                      groups = a.groups;
                      rows = row ∷ a.rows;
                      reads = one observed made a.reads;
                      spooled = a.spooled;
                      content =
                          a.content
                          ∙ ap (λ (l : List Row). l ++ a.rows) same_rows
                          ∙ regroup (all_rows gs) pending row a.rows;
                      short = a.short;
                    },
                    SameStores-trans same same',
                  ))
                  (λ w'' same'. SameStores-trans same same')
      where
        regroup :
            (xs ys : List Row) (row : Row) (zs : List Row)
            → (xs ++ (ys ++ row ∷ [])) ++ zs ≡ (xs ++ ys) ++ row ∷ zs
        regroup xs ys row zs = simp append_assoc

    -- Reading a cursor to its end writes, behind one another, the rows of all of its documents.
    pub record IsSpooledFrom (cursor : Cursor Doc) (st : St) (sink : ParquetVariantSink) (w : World)
        : Type 0 where
      pub groups : List (List Row)
      pub complete : cursor.fault ≡ none
      pub reads : Reads strategy.initial cursor.docs st (all_rows groups)
      pub spooled : IsSpooled path (row_limit batch_size) groups sink w

    -- Reading a cursor from a new sink on, whatever the disk, the strategy and the landing format
    -- raise: if it returns, the cursor had no fault, the spool file holds one row for each document,
    -- in order, in row groups no longer than the batch size (1 if that is not positive), and the sink has
    -- counted them. Whether it returns, raises or dies, the database and the bucket are as they were.
    pub read_cursor-Post :
        (cursor : Cursor Doc) (w : World)
        → Post
            (λ r w'. IsSpooledFrom cursor r.0 r.1 w' × SameStores w w')
            (SameStores w)
            (read_cursor env json strategy batch_size ctx cursor (new_sink path) w)
    unfolding read_cursor
    read_cursor-Post cursor w =
        >>=-Post _ _ w
          (for_docs-Post cursor.docs strategy.initial [] [] (new_sink path) w
            (record {
              path_same = refl;
              rows_counted = refl;
              in_file = λ e. cc;
              untouched = λ e. refl;
              bounded = tt;
            })
            (row_limit_pos batch_size))
          λ r w' (a, same). stop_at-Post cursor.fault _ w' same λ whole.
            >>=-Post _ _ w'
              (Post-map
                (write_rows-Post env path (row_limit batch_size) a.groups r.1 r.2 w' a.spooled
                  (omega (arith, a.short)))
                (λ s w'' b. b) (λ w'' b. SameStores-trans same b))
              λ s w'' (b, same'). returns (
                record {
                  groups = with_group a.groups r.1;
                  complete = whole;
                  reads =
                      subst (Reads strategy.initial cursor.docs r.0)
                        (sym (all_rows-with_group a.groups r.1 ∙ a.content)) a.reads;
                  spooled = b;
                },
                SameStores-trans same same',
              )
