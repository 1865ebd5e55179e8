-- ===== src/Spool/Sweep/Orphans.antt =====
-- spool.py: what the sweep leaves.
use mathlib.Core.List.{Memᴰ}
use mathlib.Core.List.Memᴰ.{head, tail}
use alteryx_server_maintenan.Prelude.{
  ℕ, ◌+◌, ◌≡◌, refl, sym, ap, some, ◌∙◌, String, true, false, Bool-cases, List, [], ◌∷◌, inl, inr,
  ◌⊎◌, All, str_eq, eq_iff, if◌then◌else◌, arith,
}
use Prim.Native.String.{◌++◌ as ◌<>◌}
use alteryx_server_maintenan.Prelude.Texts.{starts_with}
use alteryx_server_maintenan.Prelude.Dict.{Dict, lookup, string_key}
use alteryx_server_maintenan.World.{World, Content}
use alteryx_server_maintenan.World.Rules.{Post, Post-map, returns, raises, >>=-Post, effect-Post}
use alteryx_server_maintenan.Sinks.Laws.{SameStores, SameStores-refl, SameStores-trans}
use alteryx_server_maintenan.Spool.Sweep.{
  Directories, without, outside, run_dir, remove_dir, remove_tree, sweep_each, sweep_orphans,
}

All-map :
    {P Q : String → Type 0} (dirs : List String)
    → All P dirs
    → ((d : String) → P d → Q d)
    → All Q dirs
All-map [] h k = tt
All-map (d ∷ dirs) h k = (k d h.0, All-map dirs h.1 k)

All-without :
    {P Q : String → Type 0} (name : String) (dirs : List String)
    → All P dirs
    → ((d : String) → P d → str_eq d name ≡ false → Q d)
    → All Q (without name dirs)
All-without name [] h k = tt
All-without name (d ∷ dirs) h k = elim (Bool-cases (str_eq d name)) [
  | inl b ↦ rw b (All-without name dirs h.1 k)
  | inr b ↦ rw b (k d h.0 b, All-without name dirs h.1 k)
]

-- The directories of a list that are not the current one.
abbrev pub orphans : String → List String → ℕ
orphans current [] = 0
orphans current (d ∷ dirs) =
    if str_eq d current then orphans current dirs else 1 + orphans current dirs

-- What is not under the removed directory stays.
lookup-outside :
    (dir path : String) (files : Dict String Content)
    → starts_with dir path ≡ false
    → lookup path (outside dir files) ≡ lookup path files
unfolding lookup
lookup-outside dir path [] h = refl
lookup-outside dir path ((p, c) ∷ files) h = elim (Bool-cases (starts_with dir p)) [
  | inr b ↦ rw b (ap (λ o. if str_eq p path then some c else o) (lookup-outside dir path files h))
  | inl b ↦
      let other : str_eq p path ≡ false = elim (Bool-cases (str_eq p path)) [
        | inr n ↦ n
        | inl e ↦ let same = ap (starts_with dir) ((eq_iff p path).0 e) in cc
      ] in
      rw (b, other) (lookup-outside dir path files h)
]

Memᴰ-without :
    (name d : String) (ds : List String)
    → str_eq d name ≡ false
    → Memᴰ d ds
    → Memᴰ d (without name ds)
Memᴰ-without name d [] n m = elim m [ ]
Memᴰ-without name d (x ∷ ds) n (head e) = elim (Bool-cases (str_eq x name)) [
  | inl b ↦ let same = ap (λ y. str_eq y name) e in absurd (ground arith)
  | inr b ↦ rw b (head e)
]
Memᴰ-without name d (x ∷ ds) n (tail m) = elim (Bool-cases (str_eq x name)) [
  | inl b ↦ rw b (Memᴰ-without name d ds n m)
  | inr b ↦ rw b (tail (Memᴰ-without name d ds n m))
]

module _ (dirs : Directories) (spool_base current : String) where
  -- The path is under none of these directories but the current one.
  abbrev pub Spares : List String → String → Type 0
  Spares items path =
      All (λ d. (d ≡ current) ⊎ (starts_with (run_dir dirs spool_base d <> "/") path ≡ false)) items

  -- The directory of the current run and all files but those under the others stay, and the database
  -- and the bucket are as they were.
  pub record Survives (items : List String) (w w' : World) : Type 0 where
    pub directory : Memᴰ current w.run_dirs → Memᴰ current w'.run_dirs
    pub files : (path : String) → Spares items path → lookup path w'.spool ≡ lookup path w.spool
    pub stores : SameStores w w'

  Survives-refl : (items : List String) (w : World) → Survives items w w
  Survives-refl items w = record {
    directory = λ m. m;
    files = λ path s. refl;
    stores = SameStores-refl w;
  }

  Survives-then :
      {name : String} {items : List String} {w w' w'' : World}
      → Survives (name ∷ items) w w'
      → Survives items w' w''
      → Survives (name ∷ items) w w''
  Survives-then r q = record {
    directory = λ m. q.directory (r.directory m);
    files = λ path s. q.files path s.1 ∙ r.files path s;
    stores = SameStores-trans r.stores q.stores;
  }

  Survives-cons :
      {name : String} {items : List String} {w w' : World}
      → Survives items w w'
      → Survives (name ∷ items) w w'
  Survives-cons q = record {
    directory = q.directory;
    files = λ path s. q.files path s.1;
    stores = q.stores;
  }

module _ (dirs : Directories) (spool_base current : String)
    (removes : (w : World) (name : String) → dirs.rmtree_fails w name ≡ false) where
  -- A directory is the current one or still to be swept.
  abbrev IsLeft : List String → String → Type 0
  IsLeft items d = (d ≡ current) ⊎ Memᴰ d items

  -- All that is left is current, so many were removed, and what is not swept survives.
  abbrev IsSwept : List String → World → ℕ → ℕ → World → Type 0
  IsSwept items w expected count w' =
      (count ≡ expected)
      × All (λ d. d ≡ current) w'.run_dirs
      × Survives dirs spool_base current items w w'

  remove_tree-Post :
      (name : String) (items : List String) (w : World)
      → str_eq name current ≡ false
      → All (IsLeft (name ∷ items)) w.run_dirs
      → Post
          (λ _ w'.
            All (IsLeft items) w'.run_dirs × Survives dirs spool_base current (name ∷ items) w w')
          (Survives dirs spool_base current (name ∷ items) w)
          (remove_tree dirs spool_base name w)
  unfolding remove_tree
  remove_tree-Post name items w n h =
      effect-Post _ w (Survives-refl dirs spool_base current _ w)
        (λ k. rw (removes w name) (All-without name w.run_dirs h still, removed k))
    where
      apart : str_eq current name ≡ false
      apart = elim (Bool-cases (str_eq current name)) [
        | inr b ↦ b
        | inl b ↦ let e = (eq_iff name current).1 (sym ((eq_iff current name).0 b)) in cc
      ]

      spared :
          (path : String)
          → Spares dirs spool_base current (name ∷ items) path
          → starts_with (run_dir dirs spool_base name <> "/") path ≡ false
      spared path (inl e, rest) = let f = (eq_iff name current).1 e in cc
      spared path (inr b, rest) = b

      removed :
          (k : ℕ)
          → Survives dirs spool_base current
              (name ∷ items)
              w
              (record (remove_dir dirs spool_base name w) { budget = k })
      removed k = record {
        directory = λ m. Memᴰ-without name current w.run_dirs apart m;
        files = λ path s. lookup-outside _ path w.spool (spared path s);
        stores = record { db = refl; bucket = refl };
      }

      still : (d : String) → IsLeft (name ∷ items) d → str_eq d name ≡ false → IsLeft items d
      still d (inl e) b = inl e
      still d (inr (head e)) b = absurd (ground (arith, eq_iff d name))
      still d (inr (tail m)) b = inr m

  sweep_each-Post :
      (items : List String) (count : ℕ) (w : World)
      → All (IsLeft items) w.run_dirs
      → Post
          (IsSwept items w (count + orphans current items))
          (Survives dirs spool_base current items w)
          (sweep_each dirs spool_base current items count w)
  unfolding sweep_each
  sweep_each-Post [] count w h =
      returns (omega arith, all_current w.run_dirs h, Survives-refl dirs spool_base current [] w)
    where
      all_current : (ds : List String) → All (IsLeft []) ds → All (λ d. d ≡ current) ds
      all_current [] h = tt
      all_current (d ∷ ds) (inl e, h) = (e, all_current ds h)
      all_current (d ∷ ds) (inr m, h) = elim m [ ]
  sweep_each-Post (name ∷ items) count w h = elim (Bool-cases (str_eq name current)) [
    | inl b ↦ rw b (
        Post-map (sweep_each-Post items count w (All-map w.run_dirs h (skipped b)))
          (λ n w' q. (q.0, q.1, Survives-cons dirs spool_base current q.2))
          (λ w' q. Survives-cons dirs spool_base current q))
    | inr b ↦ rw b (
        >>=-Post _ _ w (remove_tree-Post name items w b h) λ u w' r.
          Post-map (sweep_each-Post items (count + 1) w' r.0)
            (λ n w'' q. (q.0 ∙ omega arith, q.1, Survives-then dirs spool_base current r.1 q.2))
            (λ w'' q. Survives-then dirs spool_base current r.1 q))
  ]
    where
      skipped : str_eq name current ≡ true → (d : String) → IsLeft (name ∷ items) d → IsLeft items d
      skipped b d (inl e) = inl e
      skipped b d (inr (head e)) = inl (e ∙ (eq_iff name current).0 b)
      skipped b d (inr (tail m)) = inr m

  items-IsLeft : (ds : List String) → All (IsLeft ds) ds
  items-IsLeft [] = tt
  items-IsLeft (d ∷ ds) = (inr (head refl), All-map ds (items-IsLeft ds) later)
    where
      later : (e : String) → IsLeft ds e → IsLeft (d ∷ ds) e
      later e (inl x) = inl x
      later e (inr m) = inr (tail m)

  -- Where every removal succeeds, a sweep that returns has removed all directories of the spool base
  -- but that of the current run, and counted them. Also where it raises or is cut off, the directory of
  -- the current run is there if it was, every file that is under no other directory is as it was, and
  -- so are the database and the bucket.
  pub sweep_orphans-Post :
      (w : World)
      → dirs.base_exists w ≡ true
      → Post
          (λ count w'.
            (count ≡ orphans current w.run_dirs)
            × All (λ d. d ≡ current) w'.run_dirs
            × Survives dirs spool_base current w.run_dirs w w')
          (Survives dirs spool_base current w.run_dirs w)
          (sweep_orphans dirs spool_base current w)
  unfolding sweep_orphans
  sweep_orphans-Post w exists = elim (Bool-cases (dirs.iterdir_raises w)) [
    | inl b ↦ rw (exists, b) (raises (Survives-refl dirs spool_base current _ w))
    | inr b ↦
        rw (exists, b)
          (Post-map (sweep_each-Post w.run_dirs 0 w (items-IsLeft w.run_dirs))
            (λ n w' q. (q.0 ∙ omega arith, q.1, q.2)) (λ w' q. q))
  ]
