-- ===== src/Mongo/Continuity.antt =====
-- mongo/extract.py with mongo/watermark.py and state.py: from one run of a mutable collection to the
-- query of the next.
mod Steps
pub mod Ids
use mathlib.Core.Option
use alteryx_server_maintenan.Prelude.{
  ◌⊎◌, inl, inr, ℕ, ◌+◌, ◌*◌, ◌≤◌, ◌<◌, ◌≡◌, refl, sym, ap, ◌∙◌, String, Option, none, some, List,
  [], ◌∷◌, Result, ok, ok_injective, eq_refl,
}
use mathlib.Core.Path.{subst}
use mathlib.Core.List.{Memᴰ}
use mathlib.Core.List.Memᴰ.{head, tail}
use alteryx_server_maintenan.Prelude.Dict.{string_key}
use alteryx_server_maintenan.Prelude.Int.{pos}
use alteryx_server_maintenan.Config.{CollectionConfig}
use alteryx_server_maintenan.DateTime.{DateTime}
use alteryx_server_maintenan.RunnerTypes.{RunContext, UnitResult}
use alteryx_server_maintenan.State.{Db, get_watermark, set_watermark}
use alteryx_server_maintenan.State.ReadBack.{get_watermark-set_watermark}
use alteryx_server_maintenan.World.{World, Env, Row}
use alteryx_server_maintenan.World.Rules.{Post, Post-map}
use alteryx_server_maintenan.Mongo.Watermark.{WatermarkStrategy}
use alteryx_server_maintenan.Mongo.Watermark.Clock.{instant}
use alteryx_server_maintenan.Mongo.Watermark.RoundTrip.{IsDate, truncated}
use alteryx_server_maintenan.Mongo.Watermark.Strategies.{
  Bson, Filter, since, timestamp_watermark, observe_each,
}
use alteryx_server_maintenan.Mongo.Watermark.Maximum.{
  Greatest, greatest, values, add_value, date_of, observe_each-Greatest,
}
use alteryx_server_maintenan.Mongo.Watermark.Overlap.{build_filter-since}
use alteryx_server_maintenan.Mongo.Extract.{Cursor, Mongo, Json, RowContext, extract_collection}
use alteryx_server_maintenan.Mongo.Extract.Streaming.{Reads, nothing, one}
use alteryx_server_maintenan.Mongo.Extract.Delivery.{
  Advanced, unchanged, moved, IsCommitted, IsQuery, Outcome, nothing_new, rehearsed, shipped,
  upload_failed, IsSafe, not_advanced, advanced, ns,
}
use alteryx_server_maintenan.Mongo.Extract.Safety.{extract_collection-Outcome}
use alteryx_server_maintenan.Mongo.Continuity.Steps.{
  Memᴰ-values, Stored, IsCommitted-observed, IsCommitted-Stored, Next, again, further,
  every_end-Next,
}

module _ {Doc Oid : Type 0} (env : Env) (json : Json Doc) (bson : Bson Doc Oid) (prefix : String)
    (cfg : CollectionConfig) (run_ctx : RunContext) (db_name : String)
    (mongo : Mongo Doc (Filter Oid)) (s : ℕ) where
  abbrev pub strategy : WatermarkStrategy Doc (Filter Oid) (Option DateTime)
  strategy = timestamp_watermark bson cfg

  abbrev name : String
  name = ns env json strategy prefix cfg run_ctx db_name

  -- The dates in the watermark field are ones that Python has, and not so early that the overlap
  -- leads before the first of them.
  abbrev pub HasDates : Type 0
  HasDates =
      (doc : Doc) (d : DateTime)
      → bson.date_at cfg.watermark_field doc ≡ some d
      → IsDate d × (s * 1000000 ≤ instant (truncated d))

  -- The next run asks for the watermark field from `bound` on, which is at most the overlap, and less
  -- than a millisecond more, before the latest date of the documents.
  pub record Resumes (docs : List Doc) (w : World) : Type 0 where
    pub latest : DateTime
    pub of_run : Greatest instant (values (date_of bson cfg) docs) (some latest)
    pub bound : ℕ
    pub asks :
        strategy.build_filter (Option.map (λ w. w.value) (get_watermark name w.db))
        ≡ ok (since cfg.watermark_field bound)
    pub covers : (d : DateTime) → instant latest ≤ instant d + s * 1000000 → bound ≤ instant d
    pub repeats :
        (d : DateTime) → bound ≤ instant d → instant latest < instant d + s * 1000000 + 1000

  abbrev pub NextRun : World → World → Type 0
  NextRun = Next env json strategy prefix cfg run_ctx db_name mongo Resumes

  -- The watermark that is stored for a date is read back and gives the filter.
  pub stored-Resumes :
      HasDates
      → cfg.overlap_seconds ≡ pos s
      → (docs : List Doc) (w : World) (m : DateTime)
      → Greatest instant (values (date_of bson cfg) docs) (some m)
      → Option.map (λ w. w.value) (get_watermark name w.db) ≡ strategy.new_watermark (some m)
      → Resumes docs w
  stored-Resumes dates overlap docs w m g e =
      let (doc, at) = Memᴰ-values (date_of bson cfg) docs (found g) in
      let (lb, asks, covers, repeats) =
        build_filter-since bson cfg m s (dates doc m at).0 overlap (dates doc m at).1 in
      record {
        latest = m;
        of_run = g;
        bound = lb;
        asks = ap strategy.build_filter e ∙ asks;
        covers = covers;
        repeats = repeats;
      }
    where
      found : {m : DateTime} {xs : List DateTime} → Greatest instant xs (some m) → Memᴰ m xs
      found (greatest h all) = h

  -- A committed run whose documents have no date leaves the watermark, and another one has stored the
  -- latest date.
  pub committed-Resumes :
      HasDates
      → cfg.overlap_seconds ≡ pos s
      → (w w' : World) (cursor : Cursor Doc)
      → IsCommitted env json strategy prefix cfg run_ctx db_name cursor w w'
      → ((get_watermark name w'.db ≡ get_watermark name w.db)
          × Greatest instant (values (date_of bson cfg) cursor.docs) none)
        ⊎ Resumes cursor.docs w'
  unfolding timestamp_watermark
  committed-Resumes dates overlap w w' cursor c =
      let (st, seen, g) = observe_each-Greatest bson cfg cursor.docs in
      let observed = IsCommitted-observed env json strategy prefix cfg run_ctx db_name c in
      go st g (ok_injective (sym observed ∙ seen))
    where
      stored :
          (st : Option DateTime)
          → c.last ≡ st
          → Stored env json strategy prefix cfg run_ctx db_name (strategy.new_watermark st) w w'
      stored st e =
          subst
            (λ o.
              Stored env json strategy prefix cfg run_ctx db_name (strategy.new_watermark o) w w')
            e (IsCommitted-Stored env json strategy prefix cfg run_ctx db_name c)

      go :
          (st : Option DateTime)
          → Greatest instant (values (date_of bson cfg) cursor.docs) st
          → c.last ≡ st
          → ((get_watermark name w'.db ≡ get_watermark name w.db)
              × Greatest instant (values (date_of bson cfg) cursor.docs) none)
            ⊎ Resumes cursor.docs w'
      go none g e = inl (ap (get_watermark name) (stored none e), g)
      go (some m) g e = inr (stored-Resumes dates overlap cursor.docs w' m g (stored (some m) e))

  committed-Next :
      HasDates
      → cfg.overlap_seconds ≡ pos s
      → (w w' : World) (cursor : Cursor Doc)
      → IsQuery env json strategy prefix cfg run_ctx db_name mongo w cursor
      → IsCommitted env json strategy prefix cfg run_ctx db_name cursor w w'
      → NextRun w w'
  committed-Next dates overlap w w' cursor q c =
      elim (committed-Resumes dates overlap w w' cursor c) [
        | inl (same, g) ↦ again same
        | inr r ↦ further q c r
      ]

  -- From one run of a mutable collection to the next, where its dates are ones that Python has and the
  -- overlap does not lead before the first of them: however the run ends, by a return, an exception or
  -- a crash, the watermark is as it was, so that the next run asks the same; or all documents that the
  -- run found are in the bucket, and the next run asks for the watermark field from a bound on which
  -- is not later than the overlap before the latest date of these documents, and less than a
  -- millisecond earlier.
  pub extract_collection-Next :
      HasDates
      → cfg.overlap_seconds ≡ pos s
      → (w : World)
      → Post
          (λ u w'. NextRun w w')
          (NextRun w)
          (extract_collection env json strategy prefix cfg run_ctx db_name mongo w)
  extract_collection-Next dates overlap w =
      every_end-Next env json strategy prefix cfg run_ctx db_name mongo Resumes
        (committed-Next dates overlap) w
