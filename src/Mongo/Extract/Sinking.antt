-- ===== src/Mongo/Extract/Sinking.antt =====
-- sinks.py: what `ParquetVariantSink.write_rows` leaves in the spool file, whatever raises.
use alteryx_server_maintenan.Prelude.{
  ℕ, ◌+◌, ◌≤◌, ◌≡◌, refl, sym, inl, inr, String, true, false, Bool-cases, some, List, [], ◌∷◌, ◌++◌,
  append-nil, append_assoc, arith, length, length-append, All,
}
use alteryx_server_maintenan.Prelude.Dict.{lookup, lookup-upsert, string_key, beq_refl}
use alteryx_server_maintenan.Sinks.{ParquetVariantSink, open_writer, write_rows}
use alteryx_server_maintenan.Sinks.Laws.{SameStores, SameStores-refl}
use alteryx_server_maintenan.World.{World, Env, parquet, Row}
use alteryx_server_maintenan.World.Rules.{Post, returns, >>=-Post, os_effect-Post, Post-map}

-- The rows of a Parquet file.
abbrev pub all_rows : List (List Row) → List Row
all_rows [] = []
all_rows (g ∷ gs) = g ++ all_rows gs

all_rows-append : (xs ys : List (List Row)) → all_rows (xs ++ ys) ≡ all_rows xs ++ all_rows ys
all_rows-append [] ys = refl
all_rows-append (x ∷ xs) ys =
    rw (all_rows-append xs ys) (sym (append_assoc x (all_rows xs) (all_rows ys)))

-- One more batch; an empty one makes no row group.
abbrev pub with_group : List (List Row) → List Row → List (List Row)
with_group gs [] = gs
with_group gs (r ∷ rs) = gs ++ (r ∷ rs) ∷ []

pub all_rows-with_group :
    (gs : List (List Row)) (rows : List Row) → all_rows (with_group gs rows) ≡ all_rows gs ++ rows
all_rows-with_group gs [] = sym (append-nil (all_rows gs))
all_rows-with_group gs (r ∷ rs) = simp (all_rows-append, append-nil)

-- What a sink has written: the row groups `gs`, none longer than `limit`.
pub record IsSpooled (path : String) (limit : ℕ) (gs : List (List Row)) (sink : ParquetVariantSink)
    (w : World) : Type 0 where
  pub path_same : sink.path ≡ path
  pub rows_counted : sink.rows ≡ length (all_rows gs)
  pub in_file : sink.is_open ≡ true → lookup path w.spool ≡ some (parquet gs)
  pub untouched : sink.is_open ≡ false → gs ≡ []
  pub bounded : All (λ g. length g ≤ limit) gs

All-with_group :
    (limit : ℕ) (gs : List (List Row)) (rows : List Row)
    → All (λ g. length g ≤ limit) gs
    → length rows ≤ limit
    → All (λ g. length g ≤ limit) (with_group gs rows)
All-with_group limit gs [] h l = h
All-with_group limit [] (r ∷ rs) h l = (l, tt)
All-with_group limit (g ∷ gs) (r ∷ rs) (a, h) l = (a, All-with_group limit gs (r ∷ rs) h l)

module _ (env : Env) (path : String) (limit : ℕ) where
  open_writer-Post :
      (gs : List (List Row)) (sink : ParquetVariantSink) (w : World)
      → IsSpooled path limit gs sink w
      → Post
          (λ s w'. IsSpooled path limit gs s w' × (s.is_open ≡ true) × SameStores w w')
          (SameStores w)
          (open_writer env sink w)
  unfolding open_writer
  open_writer-Post gs sink w h = elim (Bool-cases sink.is_open) [
    | inl e ↦ simp e (returns (h, e, SameStores-refl w))
    | inr e ↦ simp e (
        >>=-Post {P = λ _ w'. (lookup path w'.spool ≡ some (parquet gs)) × SameStores w w'} _ _ w
          (os_effect-Post _ _ w (SameStores-refl w) (λ n. (
            rw (
              h.path_same,
              h.untouched e,
              lookup-upsert path path (parquet []) w.spool,
              beq_refl path,
            ),
            record { db = refl; bucket = refl },
          )))
          (λ _ w' a. returns (
            record {
              path_same = h.path_same;
              rows_counted = h.rows_counted;
              in_file = λ _. a.0;
              untouched = λ x. cc;
              bounded = h.bounded;
            },
            refl,
            a.1,
          )))
  ]

  pub write_rows-Post :
      (gs : List (List Row)) (rows : List Row) (sink : ParquetVariantSink) (w : World)
      → IsSpooled path limit gs sink w
      → length rows ≤ limit
      → Post
          (λ s w'. IsSpooled path limit (with_group gs rows) s w' × SameStores w w')
          (SameStores w)
          (write_rows env rows sink w)
  unfolding write_rows
  write_rows-Post gs [] sink w h l = returns (h, SameStores-refl w)
  write_rows-Post gs (r ∷ rs) sink w h l =
      >>=-Post _ _ w (Post-map (open_writer-Post gs sink w h) (λ s w' a. a) (λ w' a. a))
        (λ s w' (a, is_open, same).
          >>=-Post
            {P = λ _ w''.
              (lookup path w''.spool ≡ some (parquet (gs ++ (r ∷ rs) ∷ []))) × SameStores w w''}
            _ _ w'
            (os_effect-Post _ _ w' same (λ n. (
              rw (
                a.path_same,
                lookup-upsert path path _ w'.spool,
                beq_refl path,
                a.in_file is_open,
              ),
              record { db = same.db; bucket = same.bucket },
            )))
            (λ _ w'' b. returns (
              record {
                path_same = a.path_same;
                rows_counted = counted s a.rows_counted;
                in_file = λ _. b.0;
                untouched = λ x. cc;
                bounded = All-with_group limit gs (r ∷ rs) a.bounded l;
              },
              b.1,
            )))
    where
      counted :
          (s : ParquetVariantSink)
          → s.rows ≡ length (all_rows gs)
          → s.rows + length (r ∷ rs) ≡ length (all_rows (gs ++ (r ∷ rs) ∷ []))
      counted s e =
          rw (all_rows-with_group gs (r ∷ rs)) (omega (arith, length-append (all_rows gs) (r ∷ rs)))
