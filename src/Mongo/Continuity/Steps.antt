-- ===== src/Mongo/Continuity/Steps.antt =====
-- mongo/extract.py and state.py: the watermark that a run over a collection leaves to the next.
use mathlib.Core.Option
use alteryx_server_maintenan.Prelude.{
  ◌≡◌, refl, sym, ap, ◌∙◌, String, Option, none, some, List, [], ◌∷◌, Result, ok, eq_refl,
}
use mathlib.Core.List.{Memᴰ}
use mathlib.Core.List.Memᴰ.{head, tail}
use alteryx_server_maintenan.Prelude.Dict.{string_key}
use alteryx_server_maintenan.Config.{CollectionConfig}
use alteryx_server_maintenan.RunnerTypes.{RunContext, UnitResult}
use alteryx_server_maintenan.State.{Db, get_watermark, set_watermark}
use alteryx_server_maintenan.State.ReadBack.{get_watermark-set_watermark}
use alteryx_server_maintenan.World.{World, Env, Row}
use alteryx_server_maintenan.World.Rules.{Post, Post-map}
use alteryx_server_maintenan.Mongo.Watermark.{WatermarkStrategy}
use alteryx_server_maintenan.Mongo.Watermark.Strategies.{observe_each}
use alteryx_server_maintenan.Mongo.Watermark.Maximum.{values, add_value}
use alteryx_server_maintenan.Mongo.Extract.{Cursor, Mongo, Json, RowContext, extract_collection}
use alteryx_server_maintenan.Mongo.Extract.Streaming.{Reads, nothing, one}
use alteryx_server_maintenan.Mongo.Extract.Delivery.{
  Advanced, unchanged, moved, IsCommitted, IsQuery, Outcome, nothing_new, rehearsed, shipped,
  upload_failed, IsSafe, not_advanced, advanced, ns,
}
use alteryx_server_maintenan.Mongo.Extract.Safety.{extract_collection-Outcome}

-- Reading documents observes each of them.
pub observe_each-Reads :
    {Doc F St : Type 0} (env : Env) (json : Json Doc) (strategy : WatermarkStrategy Doc F St)
    (ctx : RowContext) {batch_size : _} {st st' : St} {docs : List Doc} {rows : List Row}
    → Reads env json strategy batch_size ctx st docs st' rows
    → observe_each strategy docs st ≡ ok st'
unfolding observe_each
observe_each-Reads env json strategy ctx nothing = refl
observe_each-Reads env json strategy ctx (one observed made reads) =
    rw observed (observe_each-Reads env json strategy ctx reads)

-- Each of the values stands in a document.
pub Memᴰ-values :
    {Doc A : Type 0} (at : Doc → Option A) (docs : List Doc) {a : A}
    → Memᴰ a (values at docs)
    → (doc : Doc) × (at doc ≡ some a)
Memᴰ-values at [] h = elim h [ ]
Memᴰ-values {Doc} {A} at (doc ∷ docs) h = go (at doc) refl (λ k. Memᴰ-values at docs k) h
  where
    go :
        {a : A} (o : Option A)
        → at doc ≡ o
        → (Memᴰ a (values at docs) → (d : Doc) × (at d ≡ some a))
        → Memᴰ a (add_value o (values at docs))
        → (d : Doc) × (at d ≡ some a)
    go none e rest h = rest h
    go (some b) e rest (head f) = (doc, e ∙ ap some (sym f))
    go (some b) e rest (tail h) = rest h

module _ {Doc F St : Type 0} (env : Env) (json : Json Doc) (strategy : WatermarkStrategy Doc F St)
    (prefix : String) (cfg : CollectionConfig) (run_ctx : RunContext) (db_name : String) where
  abbrev name : String
  name = ns env json strategy prefix cfg run_ctx db_name

  -- The value that is stored, if there is a new one.
  abbrev pub Stored : Option String → World → World → Type 0
  Stored none w w' = w'.db ≡ w.db
  Stored (some value) w w' = Option.map (λ w. w.value) (get_watermark name w'.db) ≡ some value

  Advanced-Stored :
      (o : Option String) (w w' : World)
      → Advanced env json strategy prefix cfg run_ctx db_name o w.db w'.db
      → Stored o w w'
  Advanced-Stored none w w' a = unmoved a
    where
      unmoved :
          {db db' : Db}
          → Advanced env json strategy prefix cfg run_ctx db_name none db db'
          → db' ≡ db
      unmoved unchanged = refl
  Advanced-Stored (some value) w w' a = go a
    where
      go :
          {db db' : Db}
          → Advanced env json strategy prefix cfg run_ctx db_name (some value) db db'
          → Option.map (λ w. w.value) (get_watermark name db') ≡ some value
      go {db} {db'} (moved fails now h) =
          let set = set_watermark fails now name strategy.kind value run_ctx.run_id db in
          let back =
            (get_watermark-set_watermark fails now name strategy.kind value run_ctx.run_id db
                (ap (λ (r : Result (Unit {0}) × Db). r.0) h)).0
              name in
          ap (λ (d : Db). Option.map (λ w. w.value) (get_watermark name d))
            (sym (ap (λ (r : Result (Unit {0}) × Db). r.1) h))
          ∙ ap (Option.map (λ w. w.value)) back
          ∙ rw (eq_refl name) refl

  module _ {cursor : Cursor Doc} {w w' : World}
      (c : IsCommitted env json strategy prefix cfg run_ctx db_name cursor w w') where
    -- A committed run has observed its documents, and stored what it then remembered.
    pub IsCommitted-observed : observe_each strategy cursor.docs strategy.initial ≡ ok c.last
    IsCommitted-observed = observe_each-Reads env json strategy _ c.reads

    pub IsCommitted-Stored : Stored (strategy.new_watermark c.last) w w'
    IsCommitted-Stored = Advanced-Stored (strategy.new_watermark c.last) w w' c.watermark

  module _ (mongo : Mongo Doc F) (Resumes : List Doc → World → Type 0) where
    -- The next run asks what this one has asked; or all that this one found is in the bucket.
    pub data Next (w w' : World) : Type 0 where
      again : get_watermark name w'.db ≡ get_watermark name w.db → Next w w'
      further :
          {cursor : Cursor Doc}
          → IsQuery env json strategy prefix cfg run_ctx db_name mongo w cursor
          → IsCommitted env json strategy prefix cfg run_ctx db_name cursor w w'
          → Resumes cursor.docs w'
          → Next w w'

    module _
        (commits : (w w' : World) (cursor : Cursor Doc)
          → IsQuery env json strategy prefix cfg run_ctx db_name mongo w cursor
          → IsCommitted env json strategy prefix cfg run_ctx db_name cursor w w'
          → Next w w') where
      outcome-Next :
          (w w' : World) {u : UnitResult}
          → Outcome env json strategy prefix cfg run_ctx db_name mongo w u w'
          → Next w w'
      outcome-Next w w' (nothing_new q d f same) = again (ap (get_watermark name) same.db)
      outcome-Next w w' (rehearsed q d same l n) = again (ap (get_watermark name) same.db)
      outcome-Next w w' (shipped {cursor} q d c l n) = commits w w' cursor q c
      outcome-Next w w' (upload_failed q d e n) = again (ap (get_watermark name) e)

      safe-Next :
          (w w' : World)
          → IsSafe env json strategy prefix cfg run_ctx db_name mongo w w'
          → Next w w'
      safe-Next w w' (not_advanced e) = again (ap (get_watermark name) e)
      safe-Next w w' (advanced {cursor} q c) = commits w w' cursor q c

      -- A run ends so if its commit does.
      pub every_end-Next :
          (w : World)
          → Post
              (λ u w'. Next w w')
              (Next w)
              (extract_collection env json strategy prefix cfg run_ctx db_name mongo w)
      every_end-Next w =
          Post-map (extract_collection-Outcome env json strategy prefix cfg run_ctx db_name mongo w)
            (λ u w' o. outcome-Next w w' o) (λ w' o. safe-Next w w' o)
