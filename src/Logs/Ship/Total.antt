-- ===== src/Logs/Ship/Total.antt =====
-- logs/ship.py: the poll reads all of its files where the codec raises nothing and no file grows
-- beyond the bound, and the sizes of what it gathers.
use alteryx_server_maintenan.Prelude.{
  true, ℕ, ◌+◌, ◌≤◌, ◌≡◌, refl, ap, String, Bool, str_eq, Bool-cases, inl, inr, List, [], ◌∷◌, map,
  arith, length, Result, ok,
}
use alteryx_server_maintenan.Prelude.Int.{ℤ}
use alteryx_server_maintenan.Prelude.Dict.{Dict, Eq, upsert, string_key, pair_key}
use alteryx_server_maintenan.Config.{LogSourceConfig}
use alteryx_server_maintenan.RunnerTypes.{RunContext}
use alteryx_server_maintenan.State.{
  FileOffset, Db, OffsetRow, offsets_of, get_offsets, upsert_offset,
}
use alteryx_server_maintenan.World.{World, Env}
use alteryx_server_maintenan.World.Rules.{returns, >>=-Post, branch-Post}
use alteryx_server_maintenan.World.Total.{
  select->>=-Returns, IsQuiet, Returns, Lives, commit-Returns, asks->>=-Returns,
}
use alteryx_server_maintenan.State.Atomic.{apply_all, operations_total}
use alteryx_server_maintenan.Logs.Sources.{
  TailPlan, Calendar, is_stale, gc_loop, gc_offsets, cutoff_of,
}
use alteryx_server_maintenan.Logs.Tailer.{Bytes, Text, TailChunk, contents}
use alteryx_server_maintenan.Logs.Tailer.Read.{is_read_size}
use alteryx_server_maintenan.Logs.Tailer.Ending.{drain_file_total}
use alteryx_server_maintenan.Logs.Ship.{
  Disk, Gathered, drain, gather, gather_file, plan_key, offsets_to_commit,
}

length-upsert :
    {K V : Type 0} ⦃e : Eq K⦄ (k : K) (v : V) (d : Dict K V) → length (upsert k v d) ≤ length d + 1
unfolding upsert
length-upsert k v [] = omega arith
length-upsert ⦃e⦄ k v ((j, w) ∷ d) = ground (arith, length-upsert k v d)

length-offsets_of :
    (source : String) (rows : Dict (String × String) OffsetRow)
    → length (offsets_of source rows) ≤ length rows
unfolding offsets_of
length-offsets_of source [] = omega arith
length-offsets_of source (((s, fp), row) ∷ rows) = elim (Bool-cases (str_eq s source)) [
  | inl e ↦
      rw e
        (omega (arith, length-upsert fp _ (offsets_of source rows), length-offsets_of source rows))
  | inr e ↦ rw e (omega (arith, length-offsets_of source rows))
]

pub length-get_offsets :
    (source : String) (db : Db) → length (get_offsets source db) ≤ length db.file_offsets
unfolding get_offsets
length-get_offsets source db = length-offsets_of source db.file_offsets

pub length-upsert_offset :
    (raises : ℕ → Bool) (now source run_id : String) (os : List FileOffset) (db : Db)
    → length (apply_all (map (upsert_offset raises now source run_id) os) db).file_offsets
      ≤ length os + length db.file_offsets
length-upsert_offset raises now source run_id [] db = omega arith
length-upsert_offset raises now source run_id (o ∷ os) db = omega (
  arith,
  length-upsert_offset raises now source run_id os (upsert_offset raises now source run_id o db),
  length-upsert (source, o.fingerprint) _ db.file_offsets,
)

-- The pruning takes an effect for each offset at most.
module _ (env : Env) (quiet : IsQuiet env) (calendar : Calendar) (source : String)
    (current : List String) (n : ℕ) where
  gc_loop-Returns :
      (cutoff : ℕ) (offsets : Dict String FileOffset) (deleted : ℕ) (w : World)
      → Lives (length offsets + n) w
      → Returns (λ _ w'. Lives n w') (gc_loop env calendar source current cutoff offsets deleted w)
  unfolding gc_loop
  gc_loop-Returns cutoff [] deleted w l = returns (omega arith)
  gc_loop-Returns cutoff ((key, fo) ∷ offsets) deleted w l =
      branch-Post (is_stale calendar cutoff current key fo) _ _ w
        (λ e.
          >>=-Post {P = λ _ w'. Lives (length offsets + n) w'} _ _ w
            (commit-Returns (length offsets + n) _ w
              (ap (λ r. r.0)
                ((operations_total (env.sql_raises w) (env.now w) (quiet.sql w) w.db).2 source key))
              (omega arith) (λ c m. m))
            (λ _ w' m. gc_loop-Returns cutoff offsets (deleted + 1) w' m))
        (λ e. gc_loop-Returns cutoff offsets deleted w (omega arith))

  pub gc_offsets-Returns :
      (gc_days : ℤ) (w : World) {cutoff : ℕ}
      → cutoff_of (calendar.clock w) gc_days ≡ ok cutoff
      → Lives (length w.db.file_offsets + n) w
      → Returns (λ _ w'. Lives n w') (gc_offsets env calendar source current gc_days w)
  unfolding gc_offsets
  gc_offsets-Returns gc_days w {cutoff} e l = asks->>=-Returns _ _ w e (
      select->>=-Returns _ _ _ w (quiet.selects w) (
        gc_loop-Returns cutoff (get_offsets source w.db) 0 w
          (omega (arith, length-get_offsets source w.db))))

module _ (env : Env) (hexdigest : Bytes → String) (decode : Text → Bytes → Result Text)
    (calendar : Calendar) (disk : Disk) (prefix : String) (source_cfg : LogSourceConfig)
    (run_ctx : RunContext) (gc_days : ℤ) where
  -- `max_bytes_per_poll` is a count that `read` takes, the codec of the source raises nothing, and no
  -- file is longer than the bound, however it changes.
  pub record IsReadable : Type 0 where
    pub counts : is_read_size source_cfg.max_bytes_per_poll ≡ true
    pub decodes : (raw : Bytes) → (t : Text) × (decode source_cfg.encoding raw ≡ ok t)
    pub small :
        (path : String) (k : ℕ) (file_bytes : Bytes)
        → disk.reads path k ≡ contents file_bytes
        → length file_bytes ≤ disk.bound

  pub length-offsets_to_commit :
      (d : Dict String (TailPlan × ℤ))
      → length
          (offsets_to_commit env hexdigest decode calendar disk prefix source_cfg run_ctx gc_days d)
        ≡ length d
  length-offsets_to_commit [] = refl
  length-offsets_to_commit ((key, (plan, offset)) ∷ d) = omega (arith, length-offsets_to_commit d)

  module _ (readable : IsReadable) where
    drain_total :
        (plan : TailPlan)
        → (cs : List TailChunk) × (drain env hexdigest decode calendar disk prefix source_cfg
              run_ctx gc_days plan
            ≡ ok cs)
    unfolding drain
    drain_total plan =
        let (cs, e) =
          drain_file_total decode source_cfg.encoding readable.decodes (disk.reads plan.path)
            source_cfg.max_bytes_per_poll readable.counts disk.bound (readable.small plan.path)
            plan.start_offset in
        (cs, rw e)

    -- The fuel of the loops over the files is enough: gathering gives a result.
    pub gather_total :
        (shipped_at : String → ℕ → String) (plans : List TailPlan) (g : Gathered)
        → (g' : Gathered) × (gather env hexdigest decode calendar disk prefix source_cfg run_ctx
              gc_days shipped_at plans g
            ≡ ok g')
          × (length g'.new_offsets ≤ length plans + length g.new_offsets)
    unfolding gather
    gather_total shipped_at [] g = (g, refl, omega arith)
    gather_total shipped_at (plan ∷ plans) g =
        let (cs, e) = drain_total plan in
        let next : Gathered =
          gather_file env hexdigest decode calendar disk prefix source_cfg run_ctx gc_days
            shipped_at plan g cs in
        let (g', made, few) = gather_total shipped_at plans next in
        (
          g',
          rw (gather, e) made,
          omega (arith, length-upsert (plan_key plan) (plan, _) g.new_offsets),
        )
