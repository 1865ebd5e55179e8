-- ===== src/Logs/Sources/Pruning.antt =====
-- sources.py: which offsets `gc_offsets` deletes.
use mathlib.Core.Path.{subst}
use mathlib.Core.Logic.{◌↔◌}
use mathlib.Core.List.{Memᴰ}
use mathlib.Core.List.Memᴰ.{head, tail}
use alteryx_server_maintenan.Prelude.Int.{ℤ, pos, negsuc}
use alteryx_server_maintenan.Prelude.{
  ℕ, suc, ◌+◌, ◌*◌, ◌<◌, Option, some, true, String, ◌≡◌, refl, ◌∙◌, sym, ap, ◌&&◌, Bool, false,
  Bool-cases, inl, inr, ◌⊎◌, none, List, [], ◌∷◌, ◌++◌, arith, length, str_eq, eq_iff,
  if◌then◌else◌, Result, ok, raised, Exn,
}
use alteryx_server_maintenan.Prelude.Dict.{Dict, lookup, lookup-remove, string_key, pair_key}
use alteryx_server_maintenan.State.{Db, FileOffset, delete_offset, remove_offset, get_offsets}
use alteryx_server_maintenan.State.Atomic.{transaction-ok, transaction-raised}
use alteryx_server_maintenan.World.{World, Env}
use alteryx_server_maintenan.World.Rules.{
  Post, returns, >>=-Post, commit-Post, Post-map, asks->>=-Post, select->>=-Post,
}
use alteryx_server_maintenan.Logs.Sources.{
  is_current, is_stale, Calendar, gc_loop, gc_offsets, cutoff_of, day,
}

module _ (calendar : Calendar) (cutoff : ℕ) (current : List String) where
  -- The keys that are on no file of this run and whose offset is older than the grace period.
  abbrev pub stale_keys : Dict String FileOffset → List String
  stale_keys [] = []
  stale_keys ((key, fo) ∷ offsets) =
      let rest = stale_keys offsets in
      if is_stale calendar cutoff current key fo then key ∷ rest else rest

  -- No key of this run is among them.
  pub stale_keys-current :
      (key : String) (offsets : Dict String FileOffset)
      → is_current key current ≡ true
      → is_current key (stale_keys offsets) ≡ false
  unfolding is_stale is_current
  stale_keys-current key [] h = refl
  stale_keys-current key ((k, fo) ∷ offsets) h =
      ground (arith, eq_iff k key, stale_keys-current key offsets h)

-- An offset that was updated more than `gc_days` days before the clock, the key of which no file of the
-- run has.
abbrev pub IsOlder : ℕ → ℤ → ℕ → Type 0
IsOlder now (pos days) updated = updated + days * day < now
IsOlder now (negsuc days) updated = updated < now + (days + 1) * day

pub record IsStale (calendar : Calendar) (current : List String) (now : ℕ) (gc_days : ℤ)
    (fo : FileOffset) (key : String) : Type 0 where
  pub on_no_file : ¬ Memᴰ key current
  pub updated : ℕ
  pub parsed : calendar.fromisoformat fo.updated_at ≡ some updated
  pub older : IsOlder now gc_days updated

cutoff_of-IsOlder :
    (now : ℕ) (gc_days : ℤ) (cutoff updated : ℕ)
    → cutoff_of now gc_days ≡ ok cutoff
    → (updated < cutoff) ↔ IsOlder now gc_days updated
unfolding cutoff_of
cutoff_of-IsOlder now (pos days) cutoff updated e = ground arith
cutoff_of-IsOlder now (negsuc days) cutoff updated e = ground arith

is_current-Memᴰ : (key : String) (keys : List String) → (is_current key keys ≡ true) ↔ Memᴰ key keys
unfolding is_current
is_current-Memᴰ key [] = (λ h. cc, λ m. elim m [ ])
is_current-Memᴰ key (k ∷ keys) = at (is_current-Memᴰ key keys)
  where
    at :
        (is_current key keys ≡ true) ↔ Memᴰ key keys
        → (is_current key (k ∷ keys) ≡ true) ↔ Memᴰ key (k ∷ keys)
    at (to, from) = (there, back from)
      where
        there : is_current key (k ∷ keys) ≡ true → Memᴰ key (k ∷ keys)
        there h = elim (Bool-cases (str_eq k key)) [
          | inl e ↦ head (sym ((eq_iff k key).0 e))
          | inr e ↦ tail (to (ground arith))
        ]

        back :
            (Memᴰ key keys → is_current key keys ≡ true)
            → Memᴰ key (k ∷ keys)
            → is_current key (k ∷ keys) ≡ true
        back from (head e) = ground (arith, eq_iff k key)
        back from (tail m) = let h = from m in ground arith

Memᴰ-left : {A : Type 0} {a : A} (xs ys : List A) → Memᴰ a xs → Memᴰ a (xs ++ ys)
Memᴰ-left [] ys m = elim m [ ]
Memᴰ-left (x ∷ xs) ys (head e) = head e
Memᴰ-left (x ∷ xs) ys (tail m) = tail (Memᴰ-left xs ys m)

module _ (calendar : Calendar) (current : List String) (now : ℕ) (gc_days : ℤ) (cutoff : ℕ)
    (e : cutoff_of now gc_days ≡ ok cutoff) where
  is_stale-IsStale :
      (key : String) (fo : FileOffset)
      → (is_stale calendar cutoff current key fo ≡ true)
        ↔ IsStale calendar current now gc_days fo key
  unfolding is_stale
  is_stale-IsStale key fo = (to (calendar.fromisoformat fo.updated_at) refl, from)
    where
      to :
          (o : Option ℕ)
          → calendar.fromisoformat fo.updated_at ≡ o
          → is_stale calendar cutoff current key fo ≡ true
          → IsStale calendar current now gc_days fo key
      to none p h = absurd (ground arith)
      to (some updated) p h =
          let fresh : is_current key current ≡ false = ground arith in
          record {
            on_no_file = λ m. let f = (is_current-Memᴰ key current).1 m in cc;
            updated = updated;
            parsed = p;
            older = (cutoff_of-IsOlder now gc_days cutoff updated e).0 (ground arith);
          }

      from :
          IsStale calendar current now gc_days fo key
          → is_stale calendar cutoff current key fo ≡ true
      from s =
          let old : s.updated < cutoff =
            (cutoff_of-IsOlder now gc_days cutoff s.updated e).1 s.older in
          let parsed = s.parsed in
          elim (Bool-cases (is_current key current)) [
            | inl c ↦ absurd (s.on_no_file ((is_current-Memᴰ key current).0 c))
            | inr c ↦ ground arith
          ]

  -- A stale offset of the list has this key.
  abbrev pub HasStale : String → Dict String FileOffset → Type 0
  HasStale key offsets =
      (fo : FileOffset) × Memᴰ (key, fo) offsets × IsStale calendar current now gc_days fo key

  pub Memᴰ-stale_keys :
      (key : String) (offsets : Dict String FileOffset)
      → Memᴰ key (stale_keys calendar cutoff current offsets) ↔ HasStale key offsets
  Memᴰ-stale_keys key [] = (λ m. elim m [ ], λ (fo, m, s). elim m [ ])
  Memᴰ-stale_keys key ((k, fo) ∷ offsets) =
      go (is_stale calendar cutoff current k fo) refl (Memᴰ-stale_keys key offsets)
    where
      go :
          {keys : List String} (b : Bool)
          → is_stale calendar cutoff current k fo ≡ b
          → Memᴰ key keys ↔ HasStale key offsets
          → Memᴰ key (if b then k ∷ keys else keys) ↔ HasStale key ((k, fo) ∷ offsets)
      go {keys} true b (to, from) = (there, back)
        where
          there : Memᴰ key (k ∷ keys) → HasStale key ((k, fo) ∷ offsets)
          there (head e) = (
            fo,
            head (ap (λ (j : String). (j, fo)) e),
            subst (λ j. IsStale calendar current now gc_days fo j) (sym e)
                ((is_stale-IsStale k fo).0 b),
          )
          there (tail m) = let (f, at, s) = to m in (f, tail at, s)

          back : HasStale key ((k, fo) ∷ offsets) → Memᴰ key (k ∷ keys)
          back (f, head e, s) = head (ap (λ (x : String × FileOffset). x.0) e)
          back (f, tail at, s) = tail (from (f, at, s))
      go {keys} false b (to, from) = (there, back)
        where
          there : Memᴰ key keys → HasStale key ((k, fo) ∷ offsets)
          there m = let (f, at, s) = to m in (f, tail at, s)

          back : HasStale key ((k, fo) ∷ offsets) → Memᴰ key keys
          back (f, tail at, s) = from (f, at, s)
          back (f, head e, s) =
              let same : is_stale calendar cutoff current key f
                  ≡ is_stale calendar cutoff current k fo =
                ap (λ (x : String × FileOffset). is_stale calendar cutoff current x.0 x.1) e in
              let stale = (is_stale-IsStale key f).1 s in cc

module _ (source : String) where
  -- The offsets of some keys of the source are gone, and nothing else of the database has changed.
  pub record IsPruned (keys : List String) (db db' : Db) : Type 0 where
    pub file_offsets :
        (s f : String)
        → lookup (s, f) db'.file_offsets
          ≡ (if str_eq source s && is_current f keys then none else lookup (s, f) db.file_offsets)
    pub watermarks : db'.watermarks ≡ db.watermarks
    pub runs : db'.runs ≡ db.runs

  pub IsPruned-nothing : (db : Db) → IsPruned [] db db
  unfolding is_current
  IsPruned-nothing db = record {
    file_offsets = λ s f. ground arith;
    watermarks = refl;
    runs = refl;
  }

  IsPruned-cons :
      (fails : ℕ → Bool) (now key : String) (keys : List String) (db db1 db' : Db)
      → db1 ≡ remove_offset fails now source key db
      → IsPruned keys db1 db'
      → IsPruned (key ∷ keys) db db'
  unfolding is_current
  IsPruned-cons fails now key keys db db1 db' e h = record {
    file_offsets = λ s f. ground (
      arith,
      k.file_offsets s f,
      lookup-remove (s, f) (source, key) db.file_offsets,
      eq_iff source s,
      eq_iff key f,
    );
    watermarks = k.watermarks;
    runs = k.runs;
  }
    where
      k : IsPruned keys (remove_offset fails now source key db) db'
      k = subst (λ d. IsPruned keys d db') e h

module _ (raises : ℕ → Bool) (now source key : String) (db : Db) where
  delete_offset-ok :
      {db' : Db}
      → delete_offset raises now source key db ≡ (ok tt, db')
      → db' ≡ remove_offset raises now source key db
  unfolding delete_offset
  delete_offset-ok {db'} h =
      sym (ap (λ (r : Result (Unit {0}) × Db). r.1) h)
      ∙ transaction-ok raises (remove_offset raises now source key ∷ []) db
          (ap (λ (r : Result (Unit {0}) × Db). r.0) h)

  delete_offset-raised :
      {e : Exn} {db' : Db} → delete_offset raises now source key db ≡ (raised e, db') → db' ≡ db
  unfolding delete_offset
  delete_offset-raised h = transaction-raised raises (remove_offset raises now source key ∷ []) db h

module _ (env : Env) (calendar : Calendar) (source : String) (current : List String) where
  -- Some of these keys, from the first on, are pruned; objects in the bucket stay.
  pub record IsPrunedSome (keys : List String) (w w' : World) : Type 0 where
    pub done : List String
    pub rest : List String
    pub split : done ++ rest ≡ keys
    pub pruned : IsPruned source done w.db w'.db
    pub bucket : w'.bucket ≡ w.bucket

  -- All of them are, and counted.
  pub record IsPrunedAll (keys : List String) (n : ℕ) (w w' : World) : Type 0 where
    pub pruned : IsPruned source keys w.db w'.db
    pub counted : n ≡ length keys
    pub bucket : w'.bucket ≡ w.bucket

  pub gc_loop-Post :
      (cutoff : ℕ) (offsets : Dict String FileOffset) (deleted : ℕ) (w : World)
      → Post
          (λ n w'.
            (m : ℕ) × (n ≡ deleted + m)
            × IsPrunedAll (stale_keys calendar cutoff current offsets) m w w')
          (λ w'. IsPrunedSome (stale_keys calendar cutoff current offsets) w w')
          (gc_loop env calendar source current cutoff offsets deleted w)
  unfolding gc_loop
  gc_loop-Post cutoff [] deleted w = returns (
    0,
    omega arith,
    record { pruned = IsPruned-nothing source w.db; counted = refl; bucket = refl },
  )
  gc_loop-Post cutoff ((key, fo) ∷ offsets) deleted w =
      elim (Bool-cases (is_stale calendar cutoff current key fo)) [
        | inr b ↦ rw b (gc_loop-Post cutoff offsets deleted w)
        | inl b ↦ rw b (
            >>=-Post
              {P = λ _ w'.
                (w'.db ≡ remove_offset (env.sql_raises w) (env.now w) source key w.db)
                × (w'.bucket ≡ w.bucket)}
              _ _ w
              (commit-Post _ w
                (record {
                  done = [];
                  rest = _;
                  split = refl;
                  pruned = IsPruned-nothing source w.db;
                  bucket = refl;
                })
                (λ n db e.
                  (delete_offset-ok (env.sql_raises w) (env.now w) source key w.db e, refl))
                (λ n x db e. record {
                  done = [];
                  rest = _;
                  split = refl;
                  pruned =
                      rw (delete_offset-raised (env.sql_raises w) (env.now w) source key w.db e)
                        (IsPruned-nothing source w.db);
                  bucket = refl;
                }))
              (λ _ w1 (same, bucket).
                Post-map (gc_loop-Post cutoff offsets (deleted + 1) w1)
                  (λ n w2 (m, e, all). (
                    suc m,
                    omega (arith, e),
                    record {
                      pruned =
                          IsPruned-cons source (env.sql_raises w) (env.now w) key _ w.db w1.db w2.db
                            same all.pruned;
                      counted = ap suc all.counted;
                      bucket = all.bucket ∙ bucket;
                    },
                  ))
                  (λ w2 some_done. record {
                    done = key ∷ some_done.done;
                    rest = some_done.rest;
                    split = ap (λ (l : List String). key ∷ l) some_done.split;
                    pruned =
                        IsPruned-cons source (env.sql_raises w) (env.now w) key _ w.db w1.db w2.db
                          same some_done.pruned;
                    bucket = some_done.bucket ∙ bucket;
                  })))
      ]

  -- What `gc_offsets` has done where it returned: it has deleted and counted the offsets of some keys,
  -- which are exactly the keys of stale offsets.
  pub record Prunes (gc_days : ℤ) (n : ℕ) (w w' : World) : Type 0 where
    pub keys : List String
    pub stale :
        (key : String)
        → Memᴰ key keys ↔ (
            (fo : FileOffset) × Memᴰ (key, fo) (get_offsets source w.db)
            × IsStale calendar current (calendar.clock w) gc_days fo key)
    pub all : IsPrunedAll keys n w w'

  -- And where it raised or the process died: every key whose offset is gone was stale.
  pub record PrunesSome (gc_days : ℤ) (w w' : World) : Type 0 where
    pub keys : List String
    pub stale :
        (key : String)
        → Memᴰ key keys
        → (fo : FileOffset) × Memᴰ (key, fo) (get_offsets source w.db)
          × IsStale calendar current (calendar.clock w) gc_days fo key
    pub pruned : IsPruned source keys w.db w'.db
    pub bucket : w'.bucket ≡ w.bucket

  nothing_done : (keys : List String) (w : World) → IsPrunedSome keys w w
  nothing_done keys w = record {
    done = [];
    rest = keys;
    split = refl;
    pruned = IsPruned-nothing source w.db;
    bucket = refl;
  }

  pub gc_offsets-stale_keys :
      (gc_days : ℤ) (w : World)
      → Post
          (λ n w'.
            (cutoff : ℕ) × (cutoff_of (calendar.clock w) gc_days ≡ ok cutoff)
            × IsPrunedAll (stale_keys calendar cutoff current (get_offsets source w.db)) n w w')
          (λ w'.
            (cutoff : ℕ) × ((w' ≡ w) ⊎ (cutoff_of (calendar.clock w) gc_days ≡ ok cutoff))
            × IsPrunedSome (stale_keys calendar cutoff current (get_offsets source w.db)) w w')
          (gc_offsets env calendar source current gc_days w)
  unfolding gc_offsets
  gc_offsets-stale_keys gc_days w =
      asks->>=-Post _ _ w (0, inl refl, nothing_done _ w)
        λ cutoff e.
          select->>=-Post _ _ _ w (0, inl refl, nothing_done _ w)
            (Post-map (gc_loop-Post cutoff (get_offsets source w.db) 0 w)
              (λ n w' (m, f, all). (
                cutoff,
                e,
                record {
                  pruned = all.pruned;
                  counted = omega (arith, f, all.counted);
                  bucket = all.bucket;
                },
              ))
              (λ w' h. (cutoff, inr e, h)))

  nothing_pruned : (gc_days : ℤ) (w : World) → PrunesSome gc_days w w
  nothing_pruned gc_days w = record {
    keys = [];
    stale = λ key m. elim m [ ];
    pruned = IsPruned-nothing source w.db;
    bucket = refl;
  }

  some_pruned :
      (gc_days : ℤ) (cutoff : ℕ) (w w' : World)
      → cutoff_of (calendar.clock w) gc_days ≡ ok cutoff
      → IsPrunedSome (stale_keys calendar cutoff current (get_offsets source w.db)) w w'
      → PrunesSome gc_days w w'
  some_pruned gc_days cutoff w w' e p = record {
    keys = p.done;
    stale = λ key m.
        (Memᴰ-stale_keys calendar current (calendar.clock w) gc_days cutoff e key _).0
          (subst (λ l. Memᴰ key l) p.split (Memᴰ-left p.done p.rest m));
    pruned = p.pruned;
    bucket = p.bucket;
  }

  -- Where `gc_offsets` returns, it has deleted and counted exactly the offsets of the source whose key
  -- no file of this run has and which were updated more than `gc_days` days before the clock of the
  -- run; an unreadable time counts as no older. Where it raises (an `OverflowError` of the cutoff
  -- included) or the process dies, all that it has deleted are such offsets. In each case the other
  -- tables, the offsets of other keys and sources and the bucket are as they were.
  pub gc_offsets-Post :
      (gc_days : ℤ) (w : World)
      → Post
          (λ n w'. Prunes gc_days n w w')
          (λ w'. PrunesSome gc_days w w')
          (gc_offsets env calendar source current gc_days w)
  gc_offsets-Post gc_days w =
      Post-map (gc_offsets-stale_keys gc_days w)
        (λ n w' (cutoff, e, all). record {
          keys = _;
          stale = λ key. Memᴰ-stale_keys calendar current (calendar.clock w) gc_days cutoff e key _;
          all = all;
        })
        (λ w' (cutoff, o, h). elim o [
          | inl same ↦ rw same (nothing_pruned gc_days w)
          | inr e ↦ some_pruned gc_days cutoff w w' e h
        ])
