-- ===== src/Mongo/All/Settled.antt =====
-- mongo/extract.py, state.py and s3.py: the collections of a run do not disturb each other.
use text.Mathlib.TextLemmas.{append_cancel_left}
use alteryx_server_maintenan.Prelude.{◌≡◌, ◌≢◌, refl, ◌∙◌, String, Bool, List, map, Result}
use alteryx_server_maintenan.Prelude.Dict.{lookup, string_key}
use alteryx_server_maintenan.Config.{CollectionConfig}
use alteryx_server_maintenan.RunnerTypes.{RunContext, UnitResult}
use alteryx_server_maintenan.S3.Keys.{mongo_key_injective}
use alteryx_server_maintenan.State.{get_watermark}
use alteryx_server_maintenan.World.{World, Env}
use alteryx_server_maintenan.World.Rules.{Post, Post-map}
use alteryx_server_maintenan.World.Turns.{Distinct, IsApart, Settled, Chain-Settled}
use alteryx_server_maintenan.Mongo.Watermark.Strategies.{Bson, Filter, make_strategy}
use alteryx_server_maintenan.Mongo.Extract.{Mongo, Json}
use alteryx_server_maintenan.Mongo.Extract.Delivery.{key, ns}
use alteryx_server_maintenan.Mongo.All.{failed_unit, extract_all}
use alteryx_server_maintenan.Mongo.All.Turns.{
  Turn, Stops, Frames, CutOf, Extracted, connected, unconnected, extract_all-Extracted,
}

module _ {Doc Oid : Type 0} (env : Env) (json : Json Doc) (bson : Bson Doc Oid) (prefix : String)
    (run_ctx : RunContext) (db_name : String) (mongo : Mongo Doc (Filter Oid)) where
  abbrev pub key_of : CollectionConfig → String
  key_of c = key env json (make_strategy bson c) prefix c run_ctx db_name

  abbrev pub ns_of : CollectionConfig → String
  ns_of c = ns env json (make_strategy bson c) prefix c run_ctx db_name

  key_of-ne : (c d : CollectionConfig) → c.name ≢ d.name → key_of c ≢ key_of d
  key_of-ne c d ne e = ne (mongo_key_injective prefix db_name run_ctx.run_dt c.name d.name e)

  ns_of-ne : (c d : CollectionConfig) → c.name ≢ d.name → ns_of c ≢ ns_of d
  ns_of-ne c d ne e = ne (
      append_cancel_left "." c.name d.name
        (append_cancel_left db_name _ _ (append_cancel_left "mongo:" _ _ e)))

  -- The watermark and the object of a collection are the same.
  pub record Sees (c : CollectionConfig) (w w' : World) : Type 0 where
    pub watermark : get_watermark (ns_of c) w'.db ≡ get_watermark (ns_of c) w.db
    pub object : lookup (key_of c) w'.bucket ≡ lookup (key_of c) w.bucket

  collections-IsApart :
      IsApart
        (λ (c : CollectionConfig). c.name)
        (Frames env json bson prefix run_ctx db_name mongo)
        Sees
  collections-IsApart = record {
    sees_refl = λ c w. record { watermark = refl; object = refl };
    sees_trans =
        λ c a b. record { watermark = b.watermark ∙ a.watermark; object = b.object ∙ a.object };
    apart = λ c d ne f. record {
      watermark = f.watermarks (ns_of d) (ns_of-ne c d ne);
      object = f.objects (key_of d) (key_of-ne c d ne);
    };
  }

  abbrev pub SettledOf : World → World → List CollectionConfig → List UnitResult → Type 0
  SettledOf =
      Settled (Turn env json bson prefix run_ctx db_name mongo)
        (Stops env json bson prefix run_ctx db_name mongo)
        (Frames env json bson prefix run_ctx db_name mongo) Sees (λ (c : CollectionConfig). c.name)

  -- What a return of `extract_all` says.
  pub data Returned (cs : List CollectionConfig) (w : World)
      : List UnitResult → World → Type 0 where
    all_settled : {us : List UnitResult} {w' : World} → SettledOf w w' cs us → Returned cs w us w'
    no_connection : (error : String) → Returned cs w (map (failed_unit error) cs) w

  Extracted-Returned :
      {cs : List CollectionConfig} {us : List UnitResult} {w w' : World}
      → Distinct (λ (c : CollectionConfig). c.name) cs
      → Extracted env json bson prefix run_ctx db_name mongo cs w us w'
      → Returned cs w us w'
  Extracted-Returned distinct (connected chain) =
      all_settled (Chain-Settled _ _ _ _ _ collections-IsApart chain distinct)
  Extracted-Returned distinct (unconnected error) = no_connection error

  -- Where the names of the collections differ, they do not disturb each other: if `extract_all`
  -- returns, there was no connection and nothing has changed, or there is one result for each
  -- collection, in order, and each collection began its turn with the watermark and the object of the
  -- start of the run, was refused, returned in one of the ways of `extract_collection` or failed
  -- safely, and the watermark and the object that it left are those at the end of the run. If the
  -- process dies, it has cut off such turns.
  pub extract_all-Settled :
      (connect : World → Result Bool) (collections : List CollectionConfig)
      → Distinct (λ (c : CollectionConfig). c.name) collections
      → (w : World)
      → Post
          (Returned collections w)
          (CutOf env json bson prefix run_ctx db_name mongo collections w)
          (extract_all env json bson prefix run_ctx db_name mongo connect collections w)
  extract_all-Settled connect collections distinct w =
      Post-map
        (extract_all-Extracted env json bson prefix run_ctx db_name mongo connect collections w)
        (λ us w' x. Extracted-Returned distinct x) (λ w' cut. cut)
