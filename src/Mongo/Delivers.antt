-- ===== src/Mongo/Delivers.antt =====
-- mongo/extract.py: at-least-once delivery of a mutable collection, over two runs.
use mathlib.Core.Path.{subst}
use mathlib.Core.List.{Memᴰ}
use mathlib.Core.List.Memᴰ.{head, tail}
use alteryx_server_maintenan.Prelude.{
  ℕ, ◌+◌, ◌*◌, ◌≤◌, ◌≡◌, ◌≢◌, refl, sym, ap, ◌∙◌, String, false, Option, none, some, List, [], ok,
  All, inl, inr, arith, ok_injective,
}
use mathlib.Core.Option
use alteryx_server_maintenan.Prelude.Dict.{lookup, string_key}
use alteryx_server_maintenan.Prelude.Int.{ℤ, pos}
use alteryx_server_maintenan.Config.{CollectionConfig}
use alteryx_server_maintenan.DateTime.{DateTime}
use alteryx_server_maintenan.RunnerTypes.{RunContext, UnitResult, status_ok, failed}
use alteryx_server_maintenan.State.{get_watermark}
use alteryx_server_maintenan.World.{World, Env, Row, parquet}
use alteryx_server_maintenan.World.Rules.{Post-ok}
use alteryx_server_maintenan.Mongo.Watermark.{WatermarkStrategy}
use alteryx_server_maintenan.Mongo.Watermark.Clock.{instant}
use alteryx_server_maintenan.Mongo.Watermark.Strategies.{Bson, Filter, since, timestamp_watermark}
use alteryx_server_maintenan.Mongo.Extract.{
  Cursor, Mongo, Json, RowContext, doc_to_row, row_context, extract_collection,
}
use alteryx_server_maintenan.Mongo.Extract.Sinking.{all_rows}
use alteryx_server_maintenan.Mongo.Extract.Streaming.{Reads, one}
use alteryx_server_maintenan.Mongo.Extract.Streaming
use alteryx_server_maintenan.Mongo.Extract.Delivery.{
  IsCommitted, IsQuery, Outcome, nothing_new, rehearsed, shipped, upload_failed, ns, key,
}
use alteryx_server_maintenan.Mongo.Extract.Safety.{extract_collection-Outcome}
use alteryx_server_maintenan.Mongo.Continuity.{Resumes, HasDates, committed-Resumes}
use alteryx_server_maintenan.Mongo.Watermark.Maximum.{Greatest, nothing, greatest, values, date_of}

module _ {Doc F St : Type 0} (env : Env) (json : Json Doc) (strategy : WatermarkStrategy Doc F St)
    (batch_size : ℤ) (ctx : RowContext) where
  -- Each document that was read has its row.
  Reads-Memᴰ :
      {st st' : St} {docs : List Doc} {rows : List Row} {doc : Doc}
      → Reads env json strategy batch_size ctx st docs st' rows
      → Memᴰ doc docs
      → (row : Row) × Memᴰ row rows × (doc_to_row env json strategy doc ctx ≡ ok row)
  Reads-Memᴰ Streaming.nothing m = elim m [ ]
  Reads-Memᴰ (one {row} observed made reads) (head e) =
      (row, head refl, ap (λ d. doc_to_row env json strategy d ctx) e ∙ made)
  Reads-Memᴰ (one observed made reads) (tail m) =
      let (row, at, r) = Reads-Memᴰ reads m in (row, tail at, r)

module _ {Doc Oid : Type 0} (env : Env) (json : Json Doc) (bson : Bson Doc Oid) (prefix : String)
    (cfg : CollectionConfig) (first_ctx run_ctx : RunContext) (db_name : String)
    (mongo : Mongo Doc (Filter Oid)) (s : ℕ) where
  abbrev strategy : WatermarkStrategy Doc (Filter Oid) (Option DateTime)
  strategy = timestamp_watermark bson cfg

  abbrev name : String
  name = ns env json strategy prefix cfg run_ctx db_name

  -- The row of a document is in the object of the run.
  pub record HasRow (doc : Doc) (w : World) : Type 0 where
    pub groups : List (List Row)
    pub in_bucket :
        lookup (key env json strategy prefix cfg run_ctx db_name) w.bucket ≡ some (parquet groups)
    pub row : Row
    pub made :
        doc_to_row env json strategy doc (row_context env json strategy prefix cfg run_ctx db_name)
        ≡ ok row
    pub shipped_row : Memᴰ row (all_rows groups)

  -- What MongoDB documents of `{field: {"$gte": lb}}`: a cursor on it delivers every document of the
  -- collection whose field is a date from `lb` on.
  pub record FindsSince (contents : World → List Doc) : Type 0 where
    pub delivered :
        (w : World) (lb : ℕ) {cursor : Cursor Doc} {doc : Doc} {d : DateTime}
        → mongo.find w cfg.name (since cfg.watermark_field lb) strategy.sort_spec cfg.batch_size
          ≡ ok cursor
        → Memᴰ doc (contents w)
        → bson.date_at cfg.watermark_field doc ≡ some d
        → lb ≤ instant d
        → Memᴰ doc cursor.docs

  module _ (contents : World → List Doc) (finds : FindsSince contents) {docs : List Doc}
      (w1 w2 : World) (r : Resumes env json bson prefix cfg first_ctx db_name mongo s docs w1)
      (kept : get_watermark name w2.db ≡ get_watermark name w1.db) {doc : Doc} {d : DateTime}
      (there : Memᴰ doc (contents w2)) (dated : bson.date_at cfg.watermark_field doc ≡ some d)
      (recent : instant r.latest ≤ instant d + s * 1000000) where
    is_found :
        {cursor : Cursor Doc}
        → IsQuery env json strategy prefix cfg run_ctx db_name mongo w2 cursor
        → Memᴰ doc cursor.docs
    is_found {cursor} q =
        let same : q.filter_doc ≡ since cfg.watermark_field r.bound = ok_injective (
          sym q.built
          ∙ ap (λ o. strategy.build_filter (Option.map (λ w. w.value) o)) kept
          ∙ r.asks) in
        finds.delivered w2 r.bound
          (ap (λ f. mongo.find w2 cfg.name f strategy.sort_spec cfg.batch_size) (sym same)
            ∙ q.found)
          there dated (r.covers d recent)

    committed-HasRow :
        {cursor : Cursor Doc} {w3 : World}
        → IsQuery env json strategy prefix cfg run_ctx db_name mongo w2 cursor
        → IsCommitted env json strategy prefix cfg run_ctx db_name cursor w2 w3
        → HasRow doc w3
    committed-HasRow q c =
        let (row, at, made) = Reads-Memᴰ env json strategy _ _ c.reads (is_found q) in
        record {
          groups = c.groups;
          in_bucket = c.in_bucket;
          row = row;
          made = made;
          shipped_row = at;
        }

    no_member : {found : List Doc} → found ≡ [] → Memᴰ doc found → ⊥
    no_member e m = elim (subst (λ l. Memᴰ doc l) e m) [ ]

    outcome-HasRow :
        {u : UnitResult} {w3 : World}
        → run_ctx.dry_run ≡ false
        → u.status ≢ failed
        → Outcome env json strategy prefix cfg run_ctx db_name mongo w2 u w3
        → HasRow doc w3
    outcome-HasRow real fine (nothing_new q none_found f same) =
        absurd (no_member none_found (is_found q))
    outcome-HasRow real fine (rehearsed q dry same l n) = cc
    outcome-HasRow real fine (shipped q d c l n) = committed-HasRow q c
    outcome-HasRow real fine (upload_failed q d e n) = absurd (fine refl)

  -- What a first run with the status `ok` has found, and its latest date: the watermark that it has left.
  module _ (dates : HasDates env json bson prefix cfg first_ctx db_name mongo s)
      (overlap : cfg.overlap_seconds ≡ pos s) (w0 : World) (cursor : Cursor Doc)
      (q : IsQuery env json strategy prefix cfg first_ctx db_name mongo w0 cursor) (m : DateTime)
      (g : Greatest instant (values (date_of bson cfg) cursor.docs) (some m)) where
    abbrev Left : World → Type 0
    Left w1 =
        (r : Resumes env json bson prefix cfg first_ctx db_name mongo s cursor.docs w1) × (instant
            r.latest
          ≤ instant m)

    not_without_date : Greatest instant (values (date_of bson cfg) cursor.docs) none → ⊥
    not_without_date h = go refl refl h g
      where
        go :
            {xs ys : List DateTime} {o : Option DateTime}
            → xs ≡ ys
            → o ≡ none
            → Greatest instant xs o
            → Greatest instant ys (some m)
            → ⊥
        go e f nothing (greatest at all) = elim (subst (λ l. Memᴰ m l) (sym e) at) [ ]
        go e f (greatest at' all') h = cc

    bounded :
        (x : DateTime)
        → Greatest instant (values (date_of bson cfg) cursor.docs) (some x)
        → instant x ≤ instant m
    bounded x h = below (of_greatest h) (all_of g)
      where
        of_greatest : {xs : List DateTime} → Greatest instant xs (some x) → Memᴰ x xs
        of_greatest (greatest at all) = at

        all_of :
            {xs : List DateTime}
            → Greatest instant xs (some m)
            → All (λ y. instant y ≤ instant m) xs
        all_of (greatest at all) = all

        below :
            {xs : List DateTime}
            → Memᴰ x xs
            → All (λ y. instant y ≤ instant m) xs
            → instant x ≤ instant m
        below (head e) h = rw e h.0
        below (tail t) h = below t h.1

    committed-Left :
        (w1 : World)
        → IsCommitted env json strategy prefix cfg first_ctx db_name cursor w0 w1
        → Left w1
    committed-Left w1 c =
        elim (committed-Resumes env json bson prefix cfg first_ctx db_name mongo s dates overlap w0
          w1 cursor c) [
            | inl (same, none_dated) ↦ absurd (not_without_date none_dated)
            | inr r ↦ (r, bounded r.latest r.of_run)
          ]

    same_cursor :
        {other : Cursor Doc}
        → IsQuery env json strategy prefix cfg first_ctx db_name mongo w0 other
        → other ≡ cursor
    same_cursor r =
        let same : r.filter_doc ≡ q.filter_doc = ok_injective (sym r.built ∙ q.built) in
        ok_injective (
          sym r.found
          ∙ ap (λ f. mongo.find w0 cfg.name f strategy.sort_spec cfg.batch_size) same
          ∙ q.found)

    outcome-Left :
        {u : UnitResult} {w1 : World}
        → first_ctx.dry_run ≡ false
        → u.status ≡ status_ok
        → Outcome env json strategy prefix cfg first_ctx db_name mongo w0 u w1
        → Left w1
    outcome-Left real fine (nothing_new r none_found f same) = cc
    outcome-Left real fine (rehearsed r dry same l n) = cc
    outcome-Left {w1} real fine (shipped r d c l n) = committed-Left w1 (
        subst
          (λ (x : Cursor Doc). IsCommitted env json strategy prefix cfg first_ctx db_name x w0 w1)
          (same_cursor r) c)
    outcome-Left real fine (upload_failed r d e n) = cc

    -- At least once, for a mutable collection whose dates are ones that Python has and not before the
    -- first of them by the overlap. A first run, no dry run, has found documents of which `m` is the
    -- latest date, and has returned `ok`. A later run, no dry run either, begins with the watermark that
    -- the first has left, and returns another status than `failed`; MongoDB finds what its filter says.
    -- Then each document of the collection, as it is when the later run begins, whose date is not
    -- further before `m` than the overlap has its row in the object of the later run.
    pub extract_collection-Delivers :
        first_ctx.dry_run ≡ false
        → {u1 : UnitResult} {w1 : World}
        → extract_collection env json strategy prefix cfg first_ctx db_name mongo w0 ≡ (ok u1, w1)
        → u1.status ≡ status_ok
        → (contents : World → List Doc) → FindsSince contents
        → (w2 : World) → get_watermark name w2.db ≡ get_watermark name w1.db
        → {doc : Doc} {d : DateTime} → Memᴰ doc (contents w2)
        → bson.date_at cfg.watermark_field doc ≡ some d
        → instant m ≤ instant d + s * 1000000
        → run_ctx.dry_run ≡ false
        → {u : UnitResult} {w3 : World} → u.status ≢ failed
        → extract_collection env json strategy prefix cfg run_ctx db_name mongo w2 ≡ (ok u, w3)
        → HasRow doc w3
    extract_collection-Delivers real1 {w1} first fine1 contents finds w2 kept there dated recent
          real fine e =
        let (r, earlier) = outcome-Left real1 fine1 (
          Post-ok
            (extract_collection-Outcome env json strategy prefix cfg first_ctx db_name mongo w0)
            first) in
        outcome-HasRow contents finds w1 w2 r kept there dated (omega arith) real fine (
          Post-ok (extract_collection-Outcome env json strategy prefix cfg run_ctx db_name mongo w2)
            e)
