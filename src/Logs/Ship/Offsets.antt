-- ===== src/Logs/Ship/Offsets.antt =====
-- ship.py: the offsets that a poll gathers are those that the next poll finds.
use mathlib.Core.Option
use mathlib.Core.Path.{subst}
use alteryx_server_maintenan.Prelude.{
  ℕ, ◌++◌, ◌≡◌, refl, sym, ap, ◌∙◌, String, true, none, some, List, [], ◌∷◌, arith, str_eq, eq_iff,
  eq_refl, Result, ok, raised, ok_injective, Exn, Result-cases, Bool-cases, some_injective, inl,
  inr,
}
use alteryx_server_maintenan.Prelude.Dict.{
  Dict, lookup, upsert, lookup-upsert, string_key, pair_key, NodupKeys, upsert-NodupKeys,
}
use alteryx_server_maintenan.Prelude.Int.{ℤ, pos}
use alteryx_server_maintenan.Config.{LogSourceConfig}
use alteryx_server_maintenan.RunnerTypes.{RunContext}
use alteryx_server_maintenan.State.{
  Db, offsets_of, FileOffset, get_offsets, file_offset, offset_row,
}
use alteryx_server_maintenan.State.ReadBack.{newest, get_offsets-set_offsets, lookup-offsets_of}
use alteryx_server_maintenan.World.{World, Env}
use alteryx_server_maintenan.Logs.Tailer.{Bytes, Text, TailChunk}
use alteryx_server_maintenan.Logs.Sources.{TailPlan, Calendar, is_current}
use alteryx_server_maintenan.Logs.Ship.{
  Disk, Gathered, nothing_gathered, gather, gather_file, drain, offsets_to_commit, size_or,
  plan_key, end_offset,
}
use alteryx_server_maintenan.Logs.Ship.Outcomes.{IsGathered, IsAdvanced, IsAdvanced-kept}

-- Where the reading of a file has ended: behind the last chunk, or at the start if there is none.
pub data IsEnd (start : ℤ) : List TailChunk → ℤ → Type 0 where
  unread : IsEnd start [] start
  behind :
      (before : List TailChunk) (last : TailChunk)
      → IsEnd start (before ++ last ∷ []) (pos last.new_offset)

end_offset-IsEnd :
    (start : ℤ) (chunks : List TailChunk) → IsEnd start chunks (end_offset start chunks)
end_offset-IsEnd start [] = unread
end_offset-IsEnd start (c ∷ chunks) = after (end_offset-IsEnd (pos c.new_offset) chunks)
  where
    after :
        {cs : List TailChunk} {offset : ℤ}
        → IsEnd (pos c.new_offset) cs offset
        → IsEnd start (c ∷ cs) offset
    after unread = behind [] c
    after (behind before last) = behind (c ∷ before) last

module _ (env : Env) (hexdigest : Bytes → String) (decode : Text → Bytes → Result Text)
    (calendar : Calendar) (disk : Disk) (prefix : String) (source_cfg : LogSourceConfig)
    (run_ctx : RunContext) (gc_days : ℤ) where
  -- A file was drained, and its reading has ended at this offset.
  pub record IsDrainedTo (plan : TailPlan) (offset : ℤ) : Type 0 where
    pub chunks : List TailChunk
    pub drained :
        drain env hexdigest decode calendar disk prefix source_cfg run_ctx gc_days plan ≡ ok chunks
    pub ends : IsEnd plan.start_offset chunks offset

  -- Each file has one offset, where its reading has ended, and its key counts as current.
  record IsTracked (g : Gathered) : Type 0 where
    keyed : NodupKeys g.new_offsets
    current :
        (key : String) {v : TailPlan × ℤ}
        → lookup key g.new_offsets ≡ some v
        → is_current key g.current_keys ≡ true
    measured :
        (key : String) {v : TailPlan × ℤ} → lookup key g.new_offsets ≡ some v → IsDrainedTo v.0 v.1

  gather_file-IsTracked :
      (shipped_at : String → ℕ → String) (plan : TailPlan) (g : Gathered) (chunks : List TailChunk)
      → drain env hexdigest decode calendar disk prefix source_cfg run_ctx gc_days plan ≡ ok chunks
      → IsTracked g
      → IsTracked (
          gather_file env hexdigest decode calendar disk prefix source_cfg run_ctx gc_days
            shipped_at plan g chunks)
  unfolding is_current
  gather_file-IsTracked shipped_at plan g chunks c h = record {
    keyed = upsert-NodupKeys (plan_key plan) _ g.new_offsets h.keyed;
    current = λ key {v} e.
        let f : lookup key
              (upsert (plan_key plan) (plan, end_offset plan.start_offset chunks) g.new_offsets)
            ≡ some v =
          e in
        elim (Bool-cases (str_eq (plan_key plan) key)) [
          | inl b ↦ ground arith
          | inr b ↦
              let old : lookup key g.new_offsets ≡ some v = ground (
                arith,
                lookup-upsert key (plan_key plan) (plan, end_offset plan.start_offset chunks)
                    g.new_offsets,
              ) in
              ground (arith, h.current key old)
        ];
    measured = λ key {v} e.
        let f : lookup key
              (upsert (plan_key plan) (plan, end_offset plan.start_offset chunks) g.new_offsets)
            ≡ some v =
          e in
        let l =
          lookup-upsert key (plan_key plan) (plan, end_offset plan.start_offset chunks)
            g.new_offsets in
        elim (Bool-cases (str_eq (plan_key plan) key)) [
          | inl b ↦
              let same : (plan, end_offset plan.start_offset chunks) ≡ v =
                some_injective (sym (rw b at l) ∙ f) in
              subst (λ (x : TailPlan × ℤ). IsDrainedTo x.0 x.1) same
                (record {
                  chunks = chunks;
                  drained = c;
                  ends = end_offset-IsEnd plan.start_offset chunks;
                })
          | inr b ↦ h.measured key (sym (rw b at l) ∙ f)
        ];
  }

  ok-raised : {A : Type 0} {a : A} {x : Exn} → ok a ≡ raised x → ⊥
  ok-raised h = ground arith

  nothing-IsTracked : IsTracked nothing_gathered
  unfolding lookup
  nothing-IsTracked = record {
    keyed = tt;
    current = λ key e. ground arith;
    measured = λ key e. absurd (ground arith);
  }

  raised-ok : {x : Exn} {g : Gathered} → raised x ≡ ok g → ⊥
  raised-ok h = ground arith

  gather-IsTracked :
      (shipped_at : String → ℕ → String) (plans : List TailPlan) (g : Gathered) {g' : Gathered}
      → IsTracked g
      → gather env hexdigest decode calendar disk prefix source_cfg run_ctx gc_days shipped_at plans
          g
        ≡ ok g'
      → IsTracked g'
  unfolding gather
  gather-IsTracked shipped_at [] g h e = subst IsTracked (ok_injective e) h
  gather-IsTracked shipped_at (plan ∷ plans) g h e =
      elim (Result-cases
        (drain env hexdigest decode calendar disk prefix source_cfg run_ctx gc_days plan)) [
          | inl (chunks, c) ↦
              gather-IsTracked shipped_at plans _
                (gather_file-IsTracked shipped_at plan g chunks c h) (rw (gather, c) at e)
          | inr (x, c) ↦ absurd (raised-ok (rw (gather, c) at e))
        ]

  -- What is committed for a file.
  abbrev commit_of : String → TailPlan × ℤ → FileOffset
  commit_of key (plan, offset) = record {
    fingerprint = key;
    last_path = plan.path;
    offset = offset;
    file_size_at_read =
        size_or env hexdigest decode calendar disk prefix source_cfg run_ctx gc_days offset
          (disk.size_at plan.path);
    updated_at = "";
  }

  newest-nothing :
      (key : String) (d : Dict String (TailPlan × ℤ))
      → lookup key d ≡ none
      → newest key
          (offsets_to_commit env hexdigest decode calendar disk prefix source_cfg run_ctx gc_days d)
        ≡ none
  unfolding newest lookup
  newest-nothing key [] e = refl
  newest-nothing key ((k, (p, o)) ∷ d) e = ground (arith, newest-nothing key d)

  newest-offsets_to_commit :
      (key : String) (d : Dict String (TailPlan × ℤ)) (v : TailPlan × ℤ)
      → NodupKeys d
      → lookup key d ≡ some v
      → newest key
          (offsets_to_commit env hexdigest decode calendar disk prefix source_cfg run_ctx gc_days d)
        ≡ some (commit_of key v)
  unfolding newest lookup
  newest-offsets_to_commit key [] v u e = ground arith
  newest-offsets_to_commit key ((k, (p, o)) ∷ d) v (fresh, u) e = elim (Bool-cases (str_eq k key)) [
    | inl b ↦
        let same : k ≡ key = ground (arith, eq_iff k key) in
        let value : (p, o) ≡ v = some_injective (rw b at e) in
        rw (newest-nothing key d (subst (λ j. lookup j d ≡ none) same fresh), b)
          (ap (λ j. some (commit_of j (p, o))) same
            ∙ ap (λ (x : TailPlan × ℤ). some (commit_of key x)) value)
    | inr b ↦ rw (newest-offsets_to_commit key d v u (rw b at e)) refl
  ]

  -- The offsets that a poll ended with are what the next one finds, and pruning keeps them: after
  -- the offsets of the poll have advanced, `get_offsets` gives for each key of the poll the offset
  -- and the path of its file, and this offset is where the reading of that file has ended: behind the
  -- last chunk that `drain_file` gave, or at its start offset if it gave none.
  pub IsAdvanced-get_offsets :
      (w : World) (g : Gathered)
      → IsGathered env hexdigest decode calendar disk prefix source_cfg run_ctx gc_days w g
      → (db db' : Db)
      → IsAdvanced env hexdigest decode calendar disk prefix source_cfg run_ctx gc_days g db db'
      → (key : String) (plan : TailPlan) (offset : ℤ)
      → lookup key g.new_offsets ≡ some (plan, offset)
      → (fo : FileOffset) × (lookup key (get_offsets source_cfg.name db') ≡ some fo)
        × (fo.offset ≡ offset)
        × (fo.last_path ≡ plan.path)
        × IsDrainedTo plan offset
  unfolding get_offsets
  IsAdvanced-get_offsets w g q db db' a key plan offset e =
      let t = gather-IsTracked disk.shipped_at _ nothing_gathered nothing-IsTracked q in
      let kept =
        IsAdvanced-kept env hexdigest decode calendar disk prefix source_cfg run_ctx gc_days g db
          db' a key (t.current key e) in
      let new = newest-offsets_to_commit key g.new_offsets (plan, offset) t.keyed e in
      elim (get_offsets-set_offsets a.fails a.now source_cfg.name run_ctx.run_id
        (offsets_to_commit env hexdigest decode calendar disk prefix source_cfg run_ctx gc_days
          g.new_offsets)
        db) [
          | inl (r, same) ↦
              absurd (ok-raised (sym (ap (λ (x : Result (Unit {0}) × Db). x.0) a.set) ∙ r))
          | inr (r, read, watermarks, runs) ↦ (
            file_offset key
                (offset_row a.fails a.now (commit_of key (plan, offset)) run_ctx.run_id),
            lookup-offsets_of source_cfg.name key db'.file_offsets
                ∙ ap (Option.map (file_offset key)) kept
                ∙ sym (lookup-offsets_of source_cfg.name key a.committed.file_offsets)
                ∙ sym (
                    ap
                      (λ (x : Result (Unit {0}) × Db).
                        lookup key (offsets_of source_cfg.name x.1.file_offsets))
                      a.set)
                ∙ read source_cfg.name key
                ∙ rw (eq_refl source_cfg.name, new) refl,
            refl,
            refl,
            t.measured key e,
          )
        ]
