-- ===== src/Runner/Units.antt =====
-- runner.py: each module gives one result for each of its units, in order.
use mathlib.Core.List.{map-append}
use alteryx_server_maintenan.Prelude.{
  ℕ, ◌≡◌, refl, sym, ap, ◌∙◌, String, Bool, true, false, ◌&&◌, Option, none, some, List, [], ◌∷◌,
  ◌++◌, map, length, append-nil, ◌⊎◌, inl, inr, if◌then◌else◌, Result, ok, raised,
}
use alteryx_server_maintenan.Config.{CollectionConfig, LogSourceConfig, MongoConfig, AgentConfig}
use alteryx_server_maintenan.RunnerTypes.{RunContext, UnitResult}
use alteryx_server_maintenan.S3.{UploadResult}
use alteryx_server_maintenan.World.{World, Env, MetricRecord}
use alteryx_server_maintenan.World.Exec.{Exec, pure}
use alteryx_server_maintenan.World.Rules.{
  Post, Post-map, returns, raises, >>=-Post, try-exception-Post, branch-Post,
}
use alteryx_server_maintenan.World.Isolation.{IsIsolated, completed, died}
use alteryx_server_maintenan.Mongo.All.Isolation.{extract_all-IsIsolated}
use alteryx_server_maintenan.Logs.Ship.Isolation.{ship_all-IsIsolated}
use alteryx_server_maintenan.HostMetrics.{collect}
use alteryx_server_maintenan.Mongo.Connect.{connect_and_ping}
use alteryx_server_maintenan.Runner.HostMetricsUnit.{
  ship_metrics, try_metrics, metrics_failed, after_metrics,
}
use alteryx_server_maintenan.Runner.{
  Surroundings, Progress, wants, selected, sampled, extract_from, mongo_with, mongo_module,
  logs_module, hostmetrics_module, modules,
}

-- What holds where a program returns.
abbrev pub Returns : {A : Type 0} → (A → World → Type 0) → Result A × World → Type 0
Returns Q x = Post Q (λ w. Unit {0}) x

abbrev pub Anything : {A : Type 0} → A → World → Type 0
Anything a w = Unit

pub any_end : {A : Type 0} (x : Result A × World) → Returns Anything x
any_end (ok a, w) = returns tt
any_end (raised e, w) = raises tt

abbrev pub units : List UnitResult → List String
units results = map (λ (u : UnitResult). u.unit) results

IsIsolated-Returns :
    {names : List String} (x : Result (List UnitResult) × World)
    → IsIsolated names x.0
    → Returns (λ results w. units results ≡ names) x
IsIsolated-Returns {names} (r, w) h = go h
  where
    go :
        {r : Result (List UnitResult)}
        → IsIsolated names r
        → Returns (λ results w. units results ≡ names) (r, w)
    go (completed e) = returns e
    go died = raises tt

-- A failure of the upload names the unit.
abbrev IsMetricsFailure : UnitResult ⊎ UploadResult → World → Type 0
IsMetricsFailure (inl u) w = u.unit ≡ "hostmetrics"
IsMetricsFailure (inr r) w = Unit

module _ (env : Env) (prefix : String) (run_ctx : RunContext) where
  try_metrics-Returns : (w : World) → Returns IsMetricsFailure (try_metrics env prefix run_ctx w)
  unfolding try_metrics
  try_metrics-Returns w =
      try-exception-Post _ (metrics_failed env prefix run_ctx) w
        (>>=-Post {P = Anything} _ _ w (any_end _) (λ r w' _. returns tt)) (λ w' _. tt)
        (λ e w' _. >>=-Post {P = Anything} _ _ w' (any_end _) (λ r w'' _. returns refl))

  after_metrics-Returns :
      (docs : ℕ) (o : UnitResult ⊎ UploadResult) (w : World)
      → IsMetricsFailure o w
      → Returns (λ u w'. u.unit ≡ "hostmetrics") (after_metrics env prefix run_ctx docs o w)
  unfolding after_metrics
  after_metrics-Returns docs (inl u) w h = returns h
  after_metrics-Returns docs (inr u) w h =
      >>=-Post {P = Anything} _ _ w (any_end _) (λ u w' _. returns refl)

  ship_metrics-Returns :
      (records : List MetricRecord) (w : World)
      → Returns (λ u w'. u.unit ≡ "hostmetrics") (ship_metrics env prefix run_ctx records w)
  unfolding ship_metrics
  ship_metrics-Returns [] w = returns refl
  ship_metrics-Returns (r ∷ records) w = >>=-Post {P = Anything} _ _ w (any_end _) λ sink w1 _.
      >>=-Post {P = Anything} _ _ w1 (any_end _) λ written w2 _.
        >>=-Post {P = Anything} _ _ w2 (any_end _) λ result w3 _.
          branch-Post run_ctx.dry_run _ _ w3
            (λ _. >>=-Post {P = Anything} _ _ w3 (any_end _) (λ u w4 _. returns refl))
            (λ _.
              >>=-Post _ _ w3 (try_metrics-Returns w3)
                (after_metrics-Returns (length (r ∷ records))))

module _ {Doc Oid Client : Type 0} (s : Surroundings Doc Oid Client) (cfg : AgentConfig)
    (only : Option (List String)) (collection : Option String) (dry_run : Bool) where
  abbrev pub names_from : Option MongoConfig → List String
  names_from none = []
  names_from (some mongo_cfg) =
      map (λ (c : CollectionConfig). c.name) (selected collection cfg.collections)

  abbrev pub mongo_units : List String
  mongo_units = if wants only "mongo" && cfg.mongo_enabled then names_from cfg.mongo else []

  abbrev pub log_units : List String
  log_units =
      if wants only "logs" && cfg.logs.enabled
      then map (λ (c : LogSourceConfig). c.name) cfg.logs.sources
      else []

  abbrev pub metrics_units : List String
  metrics_units =
      if wants only "hostmetrics" && cfg.hostmetrics.enabled then "hostmetrics" ∷ [] else []

  -- Results for these names come after those that there are.
  abbrev Adds : Progress → List String → Progress → World → Type 0
  Adds p names p' w = units p'.results ≡ units p.results ++ names

  sampled-Returns :
      (p : Progress) (m : Exec (List UnitResult)) (names : List String) (w : World)
      → ((w' : World) → Returns (λ results w''. units results ≡ names) (m w'))
      → Returns (Adds p names) (sampled s cfg only collection dry_run p m w)
  unfolding sampled
  sampled-Returns p m names w h = >>=-Post {P = Anything} _ _ w (any_end _) λ before w1 _.
      >>=-Post _ _ w1 (h w1) λ results w2 e.
        >>=-Post {P = Anything} _ _ w2 (any_end _) λ after w3 _. returns (
          map-append (λ (u : UnitResult). u.unit) p.results results
          ∙ ap (λ (l : List String). units p.results ++ l) e)

  when-Returns :
      (b : Bool) (p : Progress) (names : List String) (m : Exec Progress) (w : World)
      → (b ≡ true → Returns (Adds p names) (m w))
      → Returns (Adds p (if b then names else [])) ((if b then m else pure p) w)
  when-Returns true p names m w h = h refl
  when-Returns false p names m w h = returns (sym (append-nil (units p.results)))

  -- The names of all units that a run is to give a result for.
  abbrev pub unit_names : List String
  unit_names = mongo_units ++ log_units ++ metrics_units

  module _ (run_ctx : RunContext) where
    mongo_with-Returns :
        (p : Progress) (o : Option MongoConfig) (w : World)
        → Returns (Adds p (names_from o)) (mongo_with s cfg only collection dry_run run_ctx p o w)
    mongo_with-Returns p none w = returns (sym (append-nil (units p.results)))
    mongo_with-Returns p (some mongo_cfg) w =
        sampled-Returns p (extract_from s cfg only collection dry_run run_ctx mongo_cfg) _ w (λ w'.
          IsIsolated-Returns _ (
            extract_all-IsIsolated s.env s.json s.bson cfg.s3.prefix run_ctx mongo_cfg.database
              s.mongo (λ w''. connect_and_ping (s.mongo_client w'') (s.ping_command w'') mongo_cfg)
              (selected collection cfg.collections) w'))

    mongo_module-Returns :
        (p : Progress) (w : World)
        → Returns (Adds p mongo_units) (mongo_module s cfg only collection dry_run run_ctx p w)
    unfolding mongo_module
    mongo_module-Returns p w =
        when-Returns (wants only "mongo" && cfg.mongo_enabled) p (names_from cfg.mongo)
          (mongo_with s cfg only collection dry_run run_ctx p cfg.mongo) w
          (λ b. mongo_with-Returns p cfg.mongo w)

    logs_module-Returns :
        (p : Progress) (w : World)
        → Returns (Adds p log_units) (logs_module s cfg only collection dry_run run_ctx p w)
    unfolding logs_module
    logs_module-Returns p w = when-Returns (wants only "logs" && cfg.logs.enabled) p _ _ w (λ b.
        sampled-Returns p _ _ w (λ w'.
          Post-map
            (IsIsolated-Returns _ (
              ship_all-IsIsolated s.env s.hexdigest s.decode s.calendar s.disk cfg.s3.prefix run_ctx
                cfg.logs w'))
            (λ results w'' e. e ∙ enabled (wants only "logs") cfg.logs.enabled b) (λ w'' u. u)))
      where
        enabled :
            {names : List String} (a b : Bool) → (a && b) ≡ true → (if b then names else []) ≡ names
        enabled true true h = refl
        enabled true false h = cc
        enabled false b h = cc

    hostmetrics_module-Returns :
        (p : Progress) (w : World)
        → Returns
            (Adds p metrics_units)
            (hostmetrics_module s cfg only collection dry_run run_ctx p w)
    unfolding hostmetrics_module
    hostmetrics_module-Returns p w =
        when-Returns (wants only "hostmetrics" && cfg.hostmetrics.enabled) p _ _ w (λ b.
          sampled-Returns p _ _ w (λ w'.
            >>=-Post _ _ w'
              (ship_metrics-Returns s.env cfg.s3.prefix run_ctx
                (collect s.psutil cfg.hostmetrics.disks run_ctx.host) w')
              (λ u w'' e. returns (ap (λ (n : String). n ∷ []) e))))

    -- The modules of a run give one result for each unit, in order, whatever the units raise.
    pub modules-Returns :
        (w : World)
        → Returns
            (λ p w'. units p.results ≡ unit_names)
            (modules s cfg only collection dry_run run_ctx w)
    unfolding modules
    modules-Returns w =
        >>=-Post _ _ w (mongo_module-Returns (record { results = []; peak = 0 }) w) λ p w1 e.
          >>=-Post _ _ w1 (logs_module-Returns p w1) λ q w2 f.
            Post-map (hostmetrics_module-Returns q w2)
              (λ r w3 g.
                g
                ∙ ap (λ (l : List String). l ++ metrics_units)
                    (f ∙ ap (λ (l : List String). l ++ log_units) e))
              (λ w3 u. u)
