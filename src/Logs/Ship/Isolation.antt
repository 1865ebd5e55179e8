-- ===== src/Logs/Ship/Isolation.antt =====
-- ship.py: a source that fails does not keep the others from being shipped.
use alteryx_server_maintenan.Prelude.Int.{ℤ}
use alteryx_server_maintenan.Prelude.{
  ◌≡◌, refl, sym, String, Bool-cases, inl, inr, append-nil, append_assoc, List, [], ◌∷◌, ◌++◌, map,
  Result, if◌then◌else◌,
}
use mathlib.Core.Path.{subst}
use mathlib.Core.List.{map-append}
use alteryx_server_maintenan.Config.{LogSourceConfig, LogsConfig}
use alteryx_server_maintenan.RunnerTypes.{RunContext, UnitResult}
use alteryx_server_maintenan.World.{World, Env}
use alteryx_server_maintenan.World.Exec.{pure, ◌>>=◌, try_except, except_exception}
use alteryx_server_maintenan.World.Rules.{Post-map}
use alteryx_server_maintenan.Logs.Tailer.{Bytes, Text}
use alteryx_server_maintenan.Logs.Sources.{Calendar}
use alteryx_server_maintenan.Logs.Ship.{Disk, failed_source, ship_source, ship_each, ship_all}
use alteryx_server_maintenan.World.Isolation.{
  IsIsolated, completed, handle-IsOne, continue-IsIsolated,
}
use alteryx_server_maintenan.Logs.Ship.Outcomes.{
  Outcome, no_lines, rehearsed, shipped, upload_failed,
}
use alteryx_server_maintenan.Logs.Ship.Safety.{ship_source-Outcome}

module _ (env : Env) (hexdigest : Bytes → String) (decode : Text → Bytes → Result Text)
    (calendar : Calendar) (disk : Disk) (prefix : String) (run_ctx : RunContext) where
  unit-Outcome :
      (source_cfg : LogSourceConfig) (gc_days : ℤ) (w : World) {u : UnitResult} {w' : World}
      → Outcome env hexdigest decode calendar disk prefix source_cfg run_ctx gc_days w u w'
      → u.unit ≡ source_cfg.name
  unit-Outcome source_cfg gc_days w (no_lines q e) = refl
  unit-Outcome source_cfg gc_days w (rehearsed q d s l n) = refl
  unit-Outcome source_cfg gc_days w (shipped q d s l n) = refl
  unit-Outcome source_cfg gc_days w (upload_failed q d s n) = refl

  ship_each-IsIsolated :
      (gc_days : ℤ) (sources : List LogSourceConfig) (results : List UnitResult) (w : World)
      → IsIsolated
          (map (λ (u : UnitResult). u.unit) results
            ++ map (λ (s : LogSourceConfig). s.name) sources)
          (ship_each env hexdigest decode calendar disk prefix run_ctx gc_days sources results w).0
  unfolding ship_each ◌>>=◌ try_except
  ship_each-IsIsolated gc_days [] results w = completed (sym (append-nil _))
  ship_each-IsIsolated gc_days (s ∷ sources) results w =
      continue-IsIsolated s.name (map (λ (u : UnitResult). u.unit) results)
        (map (λ (c : LogSourceConfig). c.name) sources)
        (try_except (ship_source env hexdigest decode calendar disk prefix s run_ctx gc_days)
          (except_exception (λ e. pure (failed_source s e))) w)
        (λ u.
          ship_each env hexdigest decode calendar disk prefix run_ctx gc_days sources
            (results ++ u ∷ []))
        (handle-IsOne s.name (failed_source s)
          (ship_source env hexdigest decode calendar disk prefix s run_ctx gc_days w) (λ e. refl)
          (Post-map
            (ship_source-Outcome env hexdigest decode calendar disk prefix s run_ctx gc_days w)
            (λ u w' o. unit-Outcome s gc_days w o) (λ w' h. h)))
        (λ u w' e.
          subst
            (λ names.
              IsIsolated names
                (ship_each env hexdigest decode calendar disk prefix run_ctx gc_days sources
                  (results ++ u ∷ []) w').0)
            (regroup u e) (ship_each-IsIsolated gc_days sources (results ++ u ∷ []) w'))
    where
      regroup :
          (u : UnitResult)
          → u.unit ≡ s.name
          → map (λ (u : UnitResult). u.unit) (results ++ u ∷ [])
              ++ map (λ (c : LogSourceConfig). c.name) sources
            ≡ map (λ (u : UnitResult). u.unit) results
              ++ s.name ∷ map (λ (c : LogSourceConfig). c.name) sources
      regroup u e =
          rw (map-append (λ (u : UnitResult). u.unit) results (u ∷ []), e)
            (append_assoc (map (λ (u : UnitResult). u.unit) results) (s.name ∷ [])
              (map (λ (c : LogSourceConfig). c.name) sources))

  -- Whatever raises while a source is shipped, `ship_all` raises nothing: it returns one result for
  -- each source, in the order of the configuration, or none at all where logs are disabled, unless
  -- the process dies.
  pub ship_all-IsIsolated :
      (logs_cfg : LogsConfig) (w : World)
      → IsIsolated
          (if logs_cfg.enabled then map (λ (s : LogSourceConfig). s.name) logs_cfg.sources else [])
          (ship_all env hexdigest decode calendar disk prefix run_ctx logs_cfg w).0
  unfolding ship_all
  ship_all-IsIsolated logs_cfg w = elim (Bool-cases logs_cfg.enabled) [
    | inl b ↦ rw b (ship_each-IsIsolated logs_cfg.gc_days logs_cfg.sources [] w)
    | inr b ↦ rw b (completed refl)
  ]
