-- ===== src/Logs/Ship/Outcomes.antt =====
-- ship.py: what a poll of one log source may end with.
use alteryx_server_maintenan.Prelude.Int.{ℤ}
use alteryx_server_maintenan.Prelude.{
  ℕ, ◌≡◌, ◌≢◌, refl, String, Bool, true, false, ◌||◌, none, some, List, [], ◌∷◌, ◌++◌, arith,
  length, Result, ok,
}
use alteryx_server_maintenan.Prelude.Dict.{lookup, string_key, pair_key}
use alteryx_server_maintenan.Config.{LogSourceConfig}
use alteryx_server_maintenan.RunnerTypes.{
  RunContext, UnitResult, unit_result, status_ok, failed, empty,
}
use alteryx_server_maintenan.Sinks.Laws.{SameStores}
use alteryx_server_maintenan.State.{Db, get_offsets, set_offsets}
use alteryx_server_maintenan.World.{World, Env, ndjson}
use alteryx_server_maintenan.Logs.Tailer.{Bytes, Text}
use alteryx_server_maintenan.Logs.Sources.{Calendar, discover, is_current}
use alteryx_server_maintenan.Logs.Sources.Pruning.{IsPruned, stale_keys, stale_keys-current}
use alteryx_server_maintenan.Logs.Ship.{
  Disk, Gathered, nothing_gathered, gather, offsets_to_commit, log_object_key, log_spool_file,
  source_result,
}

is_current-append :
    (key : String) (xs ys : List String)
    → is_current key (xs ++ ys) ≡ is_current key xs || is_current key ys
unfolding is_current
is_current-append key [] ys = refl
is_current-append key (x ∷ xs) ys = ground (arith, is_current-append key xs ys)

module _ (env : Env) (hexdigest : Bytes → String) (decode : Text → Bytes → Result Text)
    (calendar : Calendar) (disk : Disk) (prefix : String) (source_cfg : LogSourceConfig)
    (run_ctx : RunContext) (gc_days : ℤ) where
  -- What the poll found, from the offsets in the store.
  abbrev pub IsGathered : World → Gathered → Type 0
  IsGathered w g =
      gather env hexdigest decode calendar disk prefix source_cfg run_ctx gc_days disk.shipped_at
        (discover hexdigest (get_offsets source_cfg.name w.db) (disk.glob source_cfg.path_glob))
        nothing_gathered
      ≡ ok g

  -- The offsets of the poll are in the store, but for some that `gc_offsets` may have deleted.
  pub record IsAdvanced (g : Gathered) (db db' : Db) : Type 0 where
    pub committed : Db
    pub fails : ℕ → Bool
    pub now : String
    pub cutoff : ℕ
    pub set :
        set_offsets fails now source_cfg.name
          (offsets_to_commit env hexdigest decode calendar disk prefix source_cfg run_ctx gc_days
            g.new_offsets)
          run_ctx.run_id
          db
        ≡ (ok tt, committed)
    pub deleted : List String
    pub undeleted : List String
    pub split :
        deleted ++ undeleted
        ≡ stale_keys calendar cutoff g.current_keys (get_offsets source_cfg.name committed)
    pub pruned : IsPruned source_cfg.name deleted committed db'

  -- Pruning keeps the offset of every file of the poll.
  pub IsAdvanced-kept :
      (g : Gathered) (db db' : Db) (a : IsAdvanced g db db') (key : String)
      → is_current key g.current_keys ≡ true
      → lookup (source_cfg.name, key) db'.file_offsets
        ≡ lookup (source_cfg.name, key) a.committed.file_offsets
  IsAdvanced-kept g db db' a key h =
      let none_stale : is_current key (a.deleted ++ a.undeleted) ≡ false = rw (a.split) (
        stale_keys-current calendar a.cutoff g.current_keys key
          (get_offsets source_cfg.name a.committed) h) in
      ground (
        arith,
        a.pruned.file_offsets source_cfg.name key,
        is_current-append key a.deleted a.undeleted,
      )

  -- The lines are in the bucket under the key of this run, no other object has changed, and the
  -- offsets have advanced.
  pub record IsShipped (g : Gathered) (w w' : World) : Type 0 where
    pub in_bucket :
        lookup
          (log_object_key env hexdigest decode calendar disk prefix source_cfg run_ctx gc_days)
          w'.bucket
        ≡ some (ndjson g.records)
    pub others :
        (k : String)
        → log_object_key env hexdigest decode calendar disk prefix source_cfg run_ctx gc_days ≢ k
        → lookup k w'.bucket ≡ lookup k w.bucket
    pub offsets : IsAdvanced g w.db w'.db

  abbrev Docs : Gathered → ℕ → Type 0
  Docs g n = n ≡ length g.records

  -- The four ways in which `ship_source` returns.
  pub data Outcome (w : World) : UnitResult → World → Type 0 where
    no_lines :
        {g : Gathered}
        → IsGathered w g
        → g.records ≡ []
        → Outcome w (unit_result source_cfg.name empty) w
    rehearsed :
        {g : Gathered} {w' : World} {n : ℕ}
        → IsGathered w g
        → run_ctx.dry_run ≡ true
        → SameStores w w'
        → lookup
            (log_spool_file env hexdigest decode calendar disk prefix source_cfg run_ctx gc_days)
            w'.spool
          ≡ none
        → Docs g n
        → Outcome w
            (source_result env hexdigest decode calendar disk prefix source_cfg run_ctx gc_days
              status_ok n 0 none)
            w'
    shipped :
        {g : Gathered} {w' : World} {n bytes_uploaded : ℕ}
        → IsGathered w g
        → run_ctx.dry_run ≡ false
        → IsShipped g w w'
        → lookup
            (log_spool_file env hexdigest decode calendar disk prefix source_cfg run_ctx gc_days)
            w'.spool
          ≡ none
        → Docs g n
        → Outcome w
            (source_result env hexdigest decode calendar disk prefix source_cfg run_ctx gc_days
              status_ok n bytes_uploaded none)
            w'
    upload_failed :
        {g : Gathered} {w' : World} {n : ℕ} {e : String}
        → IsGathered w g
        → run_ctx.dry_run ≡ false
        → w'.db ≡ w.db
        → Docs g n
        → Outcome w
            (source_result env hexdigest decode calendar disk prefix source_cfg run_ctx gc_days
              failed n 0
              (some e))
            w'

  -- What holds wherever the poll ends by an exception or a crash.
  pub data IsSafe (w w' : World) : Type 0 where
    not_advanced : w'.db ≡ w.db → IsSafe w w'
    advanced : {g : Gathered} → IsGathered w g → IsShipped g w w' → IsSafe w w'
