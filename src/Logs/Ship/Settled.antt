-- ===== src/Logs/Ship/Settled.antt =====
-- ship.py, state.py and s3.py: the log sources of a run do not disturb each other.
use alteryx_server_maintenan.Prelude.Int.{ℤ}
use alteryx_server_maintenan.Prelude.{
  ◌≡◌, ◌≢◌, refl, ◌∙◌, String, Bool, true, false, List, [], Result, if◌then◌else◌,
}
use alteryx_server_maintenan.Prelude.Dict.{lookup, string_key}
use alteryx_server_maintenan.Config.{LogSourceConfig, LogsConfig}
use alteryx_server_maintenan.RunnerTypes.{RunContext, UnitResult}
use alteryx_server_maintenan.S3.Keys.{logs_key_injective}
use alteryx_server_maintenan.State.{get_offsets}
use alteryx_server_maintenan.World.{World, Env}
use alteryx_server_maintenan.World.Exec.{pure}
use alteryx_server_maintenan.World.Rules.{Post, Post-map, returns}
use alteryx_server_maintenan.World.Turns.{Distinct, IsApart, Settled, nothing_left, Chain-Settled}
use alteryx_server_maintenan.Logs.Tailer.{Bytes, Text}
use alteryx_server_maintenan.Logs.Sources.{Calendar}
use alteryx_server_maintenan.Logs.Ship.{Disk, log_object_key, ship_each, ship_all}
use alteryx_server_maintenan.Logs.Ship.Turns.{Turn, Stops, Frames, CutOf, ship_each-ChainOf}

module _ (env : Env) (hexdigest : Bytes → String) (decode : Text → Bytes → Result Text)
    (calendar : Calendar) (disk : Disk) (prefix : String) (run_ctx : RunContext) where
  abbrev pub name_of : LogSourceConfig → String
  name_of source_cfg = source_cfg.name

  module _ (gc_days : ℤ) where
    abbrev pub object_of : LogSourceConfig → String
    object_of source_cfg =
        log_object_key env hexdigest decode calendar disk prefix source_cfg run_ctx gc_days

    object_of-ne : (c d : LogSourceConfig) → c.name ≢ d.name → object_of c ≢ object_of d
    object_of-ne c d ne e = ne (logs_key_injective prefix run_ctx.run_dt c.name d.name e)

    -- The offsets and the object of a source are the same.
    pub record Sees (c : LogSourceConfig) (w w' : World) : Type 0 where
      pub offsets : get_offsets c.name w'.db ≡ get_offsets c.name w.db
      pub stored : lookup (object_of c) w'.bucket ≡ lookup (object_of c) w.bucket

    sources-IsApart :
        IsApart name_of (Frames env hexdigest decode calendar disk prefix run_ctx gc_days) Sees
    sources-IsApart = record {
      sees_refl = λ c w. record { offsets = refl; stored = refl };
      sees_trans =
          λ c a b. record { offsets = b.offsets ∙ a.offsets; stored = b.stored ∙ a.stored };
      apart = λ c d ne f. record {
        offsets = f.offsets d.name ne;
        stored = f.objects (object_of d) (object_of-ne c d ne);
      };
    }

    abbrev pub SettledOf : World → World → List LogSourceConfig → List UnitResult → Type 0
    SettledOf =
        Settled (Turn env hexdigest decode calendar disk prefix run_ctx gc_days)
          (Stops env hexdigest decode calendar disk prefix run_ctx gc_days)
          (Frames env hexdigest decode calendar disk prefix run_ctx gc_days) Sees name_of

  -- The sources that are polled.
  abbrev pub polled : LogsConfig → List LogSourceConfig
  polled logs_cfg = if logs_cfg.enabled then logs_cfg.sources else []

  -- Where the names of the log sources differ, they do not disturb each other: if `ship_all` returns,
  -- there is one result for each source that is polled, in order, and each source began its turn with
  -- the offsets and the object of the start of the run, returned in one of the ways of `ship_source`
  -- or failed safely, and the offsets and the object that it left are those at the end of the run. If
  -- the process dies, it has cut off such turns.
  pub ship_all-Settled :
      (logs_cfg : LogsConfig)
      → Distinct name_of logs_cfg.sources
      → (w : World)
      → Post
          (λ us w'. SettledOf logs_cfg.gc_days w w' (polled logs_cfg) us)
          (CutOf env hexdigest decode calendar disk prefix run_ctx logs_cfg.gc_days
            (polled logs_cfg)
            w)
          (ship_all env hexdigest decode calendar disk prefix run_ctx logs_cfg w)
  unfolding ship_all
  ship_all-Settled logs_cfg distinct w = go logs_cfg.enabled
    where
      go :
          (b : Bool)
          → let sources = if b then logs_cfg.sources else [] in
            Post
              (λ us w'. SettledOf logs_cfg.gc_days w w' sources us)
              (CutOf env hexdigest decode calendar disk prefix run_ctx logs_cfg.gc_days sources w)
              ((if b
                  then ship_each env hexdigest decode calendar disk prefix run_ctx logs_cfg.gc_days
                      logs_cfg.sources []
                  else pure [])
                w)
      go true =
          Post-map
            (ship_each-ChainOf env hexdigest decode calendar disk prefix run_ctx logs_cfg.gc_days
              logs_cfg.sources w)
            (λ us w' chain.
              Chain-Settled _ _ _ _ _ (sources-IsApart logs_cfg.gc_days) chain distinct)
            (λ w' cut. cut)
      go false = returns nothing_left
