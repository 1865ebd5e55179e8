-- ===== src/Mongo/All/Turns.antt =====
-- mongo/extract.py: the collections of a run take turns, each from where the one before it has ended.
use alteryx_server_maintenan.Prelude.{
  ◌≡◌, refl, sym, ◌∙◌, String, Bool, true, false, List, [], ◌∷◌, ◌++◌, map, append-nil,
  append_assoc, Result, ok, raised, Exn, config_error, upload_error, exception, killed,
  if◌then◌else◌,
}
use mathlib.Core.Path.{subst}
use alteryx_server_maintenan.Config.{CollectionConfig}
use alteryx_server_maintenan.RunnerTypes.{RunContext, UnitResult}
use alteryx_server_maintenan.World.{World, Env}
use alteryx_server_maintenan.World.Exec.{pure, message}
use alteryx_server_maintenan.World.Rules.{
  Post, Post-map, Post-both, returns, raises, >>=-Post, try-exception-Post,
}
use alteryx_server_maintenan.World.Turns.{Chain, stop, turn, Cut, untouched, here, later}
use alteryx_server_maintenan.Mongo.Watermark.Strategies.{Bson, Filter, make_strategy}
use alteryx_server_maintenan.Mongo.Extract.{Mongo, Json}
use alteryx_server_maintenan.Mongo.Extract.Delivery.{Outcome, IsSafe}
use alteryx_server_maintenan.Mongo.Extract.Safety.{extract_collection-Outcome}
use alteryx_server_maintenan.Mongo.Extract.Frame.{Framed, Frame-refl, extract_collection-Framed}
use alteryx_server_maintenan.Mongo.All.{
  is_refused, refusal, failed_unit, extract_one, extract_each, after_connect, extract_all,
}

module _ {Doc Oid : Type 0} (env : Env) (json : Json Doc) (bson : Bson Doc Oid) (prefix : String)
    (run_ctx : RunContext) (db_name : String) (mongo : Mongo Doc (Filter Oid)) where
  module _ (c : CollectionConfig) where
    abbrev pub Ends : World → UnitResult → World → Type 0
    Ends = Outcome env json (make_strategy bson c) prefix c run_ctx db_name mongo

    abbrev pub Stops : World → World → Type 0
    Stops = IsSafe env json (make_strategy bson c) prefix c run_ctx db_name mongo

    abbrev pub Frames : World → World → Type 0
    Frames = Framed env json (make_strategy bson c) prefix c run_ctx db_name

    -- What one turn does: the collection is refused; it returns; or it raises, and its result is the
    -- failure.
    pub data Turn (w : World) : UnitResult → World → Type 0 where
      refused : is_refused c ≡ true → Turn w (failed_unit refusal c) w
      returned : {u : UnitResult} {w' : World} → Ends w u w' → Turn w u w'
      failed : {w' : World} (e : Exn) → Stops w w' → Turn w (failed_unit (message e) c) w'

  abbrev pub ChainOf : List CollectionConfig → List UnitResult → World → World → Type 0
  ChainOf = Chain Turn Stops Frames

  abbrev pub CutOf : List CollectionConfig → World → World → Type 0
  CutOf = Cut Turn Stops Frames

  extract_one-Turn :
      (c : CollectionConfig) (w : World)
      → Post
          (λ u w'. Turn c w u w' × Frames c w w')
          (λ w'. Stops c w w' × Frames c w w')
          (extract_one env json bson prefix run_ctx db_name mongo c w)
  extract_one-Turn c w =
      try-exception-Post {S = λ w'. Stops c w w' × Frames c w w'} _ _ w
        (Post-map
          (Post-both
            (extract_collection-Outcome env json (make_strategy bson c) prefix c run_ctx db_name
              mongo w)
            (extract_collection-Framed env json (make_strategy bson c) prefix c run_ctx db_name w
              mongo w (Frame-refl _ _ w)))
          (λ u w' (o, f). (returned o, f)) (λ w' s. s))
        (λ w' s. s) (λ e w' (s, f). returns (failed e s, f))

  Turn-Post :
      (c : CollectionConfig) (w : World) (b : Bool)
      → is_refused c ≡ b
      → Post
          (λ u w'. Turn c w u w' × Frames c w w')
          (λ w'. Stops c w w' × Frames c w w')
          ((if b
              then pure (failed_unit refusal c)
              else extract_one env json bson prefix run_ctx db_name mongo c)
            w)
  Turn-Post c w true e = returns (refused e, Frame-refl _ _ w)
  Turn-Post c w false e = extract_one-Turn c w

  -- The results that were added, and the turns that gave them.
  abbrev Chained :
      List CollectionConfig → List UnitResult → World → List UnitResult → World → Type 0
  Chained cs before w results w' =
      (us : List UnitResult) × (results ≡ before ++ us) × ChainOf cs us w w'

  extract_each-Chain :
      (collections : List CollectionConfig) (results : List UnitResult) (w : World)
      → Post
          (Chained collections results w)
          (CutOf collections w)
          (extract_each env json bson prefix run_ctx db_name mongo collections results w)
  unfolding extract_each
  extract_each-Chain [] results w = returns ([], sym (append-nil results), stop)
  extract_each-Chain (c ∷ cs) results w =
      >>=-Post _ _ w
        (Post-map (Turn-Post c w (is_refused c) refl) (λ u w1 t. t) (λ w1 (s, f). here s f))
        (λ u w1 (t, f).
          Post-map (extract_each-Chain cs (results ++ u ∷ []) w1)
            (λ rs w' (us, e, chain). (u ∷ us, e ∙ append_assoc results (u ∷ []) us, turn t f chain))
            (λ w' cut. later t f cut))

  -- The collections took their turns; or there was no connection, and all have failed alike.
  pub data Extracted (cs : List CollectionConfig) (w : World)
      : List UnitResult → World → Type 0 where
    connected : {us : List UnitResult} {w' : World} → ChainOf cs us w w' → Extracted cs w us w'
    unconnected : (error : String) → Extracted cs w (map (failed_unit error) cs) w

  -- However `extract_all` ends, its collections have taken turns.
  pub extract_all-Extracted :
      (connect : World → Result Bool) (collections : List CollectionConfig) (w : World)
      → Post
          (Extracted collections w)
          (CutOf collections w)
          (extract_all env json bson prefix run_ctx db_name mongo connect collections w)
  unfolding extract_all after_connect
  extract_all-Extracted connect collections w = go (connect w)
    where
      go :
          (r : Result Bool)
          → Post
              (Extracted collections w)
              (CutOf collections w)
              (after_connect env json bson prefix run_ctx db_name mongo collections r w)
      go (ok true) =
          Post-map (extract_each-Chain collections [] w)
            (λ rs w' (us, e, chain).
              subst (λ l. Extracted collections w l w') (sym e) (connected chain))
            (λ w' cut. cut)
      go (ok false) = returns (unconnected _)
      go (raised (config_error s)) = returns (unconnected _)
      go (raised (upload_error s)) = returns (unconnected _)
      go (raised (exception s)) = returns (unconnected _)
      go (raised killed) = raises untouched
