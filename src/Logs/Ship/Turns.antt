-- ===== src/Logs/Ship/Turns.antt =====
-- ship.py: the log sources of a run take turns, each from where the one before it has ended.
use mathlib.Core.Path.{subst}
use alteryx_server_maintenan.Prelude.Int.{ℤ}
use alteryx_server_maintenan.Prelude.{
  ◌≡◌, sym, ◌∙◌, String, List, [], ◌∷◌, ◌++◌, append-nil, append_assoc, Result, Exn,
}
use alteryx_server_maintenan.Config.{LogSourceConfig}
use alteryx_server_maintenan.RunnerTypes.{RunContext, UnitResult}
use alteryx_server_maintenan.World.{World, Env}
use alteryx_server_maintenan.World.Exec.{pure, try_except, except_exception}
use alteryx_server_maintenan.World.Rules.{
  Post, Post-map, Post-both, returns, >>=-Post, try-exception-Post,
}
use alteryx_server_maintenan.World.Turns.{Chain, stop, turn, Cut, here, later}
use alteryx_server_maintenan.Logs.Tailer.{Bytes, Text}
use alteryx_server_maintenan.Logs.Sources.{Calendar}
use alteryx_server_maintenan.Logs.Ship.{Disk, failed_source, ship_source, ship_each}
use alteryx_server_maintenan.Logs.Ship.Outcomes.{Outcome, IsSafe}
use alteryx_server_maintenan.Logs.Ship.Safety.{ship_source-Outcome}
use alteryx_server_maintenan.Logs.Ship.Frame.{Framed, Frame-refl, ship_source-Framed}

module _ (env : Env) (hexdigest : Bytes → String) (decode : Text → Bytes → Result Text)
    (calendar : Calendar) (disk : Disk) (prefix : String) (run_ctx : RunContext) where
  module _ (gc_days : ℤ) where
    abbrev pub Stops : LogSourceConfig → World → World → Type 0
    Stops source_cfg = IsSafe env hexdigest decode calendar disk prefix source_cfg run_ctx gc_days

    abbrev pub Frames : LogSourceConfig → World → World → Type 0
    Frames source_cfg = Framed env hexdigest decode calendar disk prefix run_ctx source_cfg gc_days

    -- What one turn does: it returns; or it raises, and its result is the failure.
    pub data Turn (source_cfg : LogSourceConfig) (w : World) : UnitResult → World → Type 0 where
      returned :
          {u : UnitResult} {w' : World}
          → Outcome env hexdigest decode calendar disk prefix source_cfg run_ctx gc_days w u w'
          → Turn source_cfg w u w'
      failed :
          {w' : World} (e : Exn)
          → Stops source_cfg w w'
          → Turn source_cfg w (failed_source source_cfg e) w'

    abbrev pub ChainOf : List LogSourceConfig → List UnitResult → World → World → Type 0
    ChainOf = Chain Turn Stops Frames

    abbrev pub CutOf : List LogSourceConfig → World → World → Type 0
    CutOf = Cut Turn Stops Frames

    Turn-Post :
        (source_cfg : LogSourceConfig) (w : World)
        → Post
            (λ u w'. Turn source_cfg w u w' × Frames source_cfg w w')
            (λ w'. Stops source_cfg w w' × Frames source_cfg w w')
            (try_except
              (ship_source env hexdigest decode calendar disk prefix source_cfg run_ctx gc_days)
              (except_exception (λ e. pure (failed_source source_cfg e)))
              w)
    Turn-Post source_cfg w =
        try-exception-Post {S = λ w'. Stops source_cfg w w' × Frames source_cfg w w'} _ _ w
          (Post-map
            (Post-both
              (ship_source-Outcome env hexdigest decode calendar disk prefix source_cfg run_ctx
                gc_days w)
              (ship_source-Framed env hexdigest decode calendar disk prefix run_ctx source_cfg
                gc_days w w (Frame-refl _ _ w)))
            (λ u w' (o, f). (returned o, f)) (λ w' s. s))
          (λ w' s. s) (λ e w' (s, f). returns (failed e s, f))

    -- The results that were added, and the turns that gave them.
    abbrev Chained :
        List LogSourceConfig → List UnitResult → World → List UnitResult → World → Type 0
    Chained cs before w results w' =
        (us : List UnitResult) × (results ≡ before ++ us) × ChainOf cs us w w'

    pub ship_each-Chain :
        (sources : List LogSourceConfig) (results : List UnitResult) (w : World)
        → Post
            (Chained sources results w)
            (CutOf sources w)
            (ship_each env hexdigest decode calendar disk prefix run_ctx gc_days sources results w)
    unfolding ship_each
    ship_each-Chain [] results w = returns ([], sym (append-nil results), stop)
    ship_each-Chain (c ∷ cs) results w =
        >>=-Post _ _ w (Post-map (Turn-Post c w) (λ u w1 t. t) (λ w1 (s, f). here s f))
          (λ u w1 (t, f).
            Post-map (ship_each-Chain cs (results ++ u ∷ []) w1)
              (λ rs w' (us, e, chain).
                (u ∷ us, e ∙ append_assoc results (u ∷ []) us, turn t f chain))
              (λ w' cut. later t f cut))

    -- All sources take their turns.
    pub ship_each-ChainOf :
        (sources : List LogSourceConfig) (w : World)
        → Post
            (λ us w'. ChainOf sources us w w')
            (CutOf sources w)
            (ship_each env hexdigest decode calendar disk prefix run_ctx gc_days sources [] w)
    ship_each-ChainOf sources w =
        Post-map (ship_each-Chain sources [] w)
          (λ rs w' (us, e, chain). subst (λ l. ChainOf sources l w w') (sym e) chain)
          (λ w' cut. cut)
