-- ===== src/Logs/Sources/Resume.antt =====
-- sources.py: where the reading of a file begins.
use mathlib.Core.Option
use mathlib.Core.Path.{subst}
use alteryx_server_maintenan.Prelude.{
  ℕ, String, ◌≡◌, refl, ◌∙◌, ap, ◌⊎◌, inl, inr, Bool, false, Bool-cases, Option, none, some,
  some_injective, List, arith, ltb, eq_refl, ok,
}
use alteryx_server_maintenan.Prelude.Dict.{Dict, lookup, string_key}
use alteryx_server_maintenan.Prelude.Int.{ℤ, pos}
use alteryx_server_maintenan.State.{
  Db, FileOffset, get_offsets, set_offsets, file_offset, offset_row,
}
use alteryx_server_maintenan.State.ReadBack.{newest, get_offsets-set_offsets}
use alteryx_server_maintenan.Logs.Tailer.{Bytes}
use alteryx_server_maintenan.Logs.Sources.{
  Match, TailPlan, fp_prefix, fingerprint, key_of, is_below, plan_of, start_of, plan_for,
  with_start, digest,
}

module _ (hexdigest : Bytes → String) (state_offsets : Dict String FileOffset) where
  -- A start offset lies within the file, and is 0 or the stored offset of the file's key.
  pub record IsResumable (m : Match) (n : ℕ) (plan : TailPlan) : Type 0 where
    pub same_path : plan.path ≡ m.path
    pub fingerprinted : fingerprint hexdigest m ≡ some plan.fingerprint
    pub within : is_below n plan.start_offset ≡ false
    pub stored :
        (plan.start_offset ≡ pos 0)
        ⊎ ((fo : FileOffset) × (lookup (key_of hexdigest m.path plan.fingerprint) state_offsets
              ≡ some fo)
            × (plan.start_offset ≡ fo.offset))

  -- From what is stored under the key on.
  with_start-IsResumable :
      (m : Match) (n : ℕ) (fp : Option String) (o : Option FileOffset) {plan : TailPlan}
      → fingerprint hexdigest m ≡ some fp
      → lookup (key_of hexdigest m.path fp) state_offsets ≡ o
      → with_start hexdigest m.path fp (start_of hexdigest o (some n)) ≡ some plan
      → IsResumable m n plan
  with_start-IsResumable m n fp none e l h =
      subst (IsResumable m n) (some_injective h)
        (record { same_path = refl; fingerprinted = e; within = ground arith; stored = inl refl })
  with_start-IsResumable m n fp (some fo) {plan} e l h = elim (Bool-cases (is_below n fo.offset)) [
    | inl b ↦
        let k : some (record { path = m.path; fingerprint = fp; start_offset = pos 0 })
            ≡ some plan =
          rw b at h in
        subst (IsResumable m n) (some_injective k)
          (record { same_path = refl; fingerprinted = e; within = ground arith; stored = inl refl })
    | inr b ↦
        let k : some (record { path = m.path; fingerprint = fp; start_offset = fo.offset })
            ≡ some plan =
          rw b at h in
        subst (IsResumable m n) (some_injective k)
          (record { same_path = refl; fingerprinted = e; within = b; stored = inr (fo, l, refl) })
  ]

  plan_for-IsResumable :
      (m : Match) (n : ℕ) (f : Option (Option String)) {plan : TailPlan}
      → m.size_now ≡ some n
      → fingerprint hexdigest m ≡ f
      → plan_for hexdigest state_offsets m f ≡ some plan
      → IsResumable m n plan
  plan_for-IsResumable m n none s e h = ground arith
  plan_for-IsResumable m n (some fp) s e h = with_start-IsResumable m n fp _ e refl (rw s at h)

  -- A file whose size the last `stat` gives is never read from behind its end: the plan starts at 0
  -- or at the offset stored under the file's fingerprint (or its path, while it is too small for
  -- one), and a stored offset past the end is not used.
  pub plan_of-IsResumable :
      (m : Match) (n : ℕ) {plan : TailPlan}
      → m.size_now ≡ some n
      → plan_of hexdigest state_offsets m ≡ some plan
      → IsResumable m n plan
  unfolding plan_of
  plan_of-IsResumable m n s h = plan_for-IsResumable m n _ s refl h

  renamed_start :
      (p q fp : String) (o : Option ℤ)
      → with_start hexdigest q (some fp) o
        ≡ Option.map
            (λ (plan : TailPlan). record plan { path = q })
            (with_start hexdigest p (some fp) o)
  renamed_start p q fp none = refl
  renamed_start p q fp (some start) = refl

  renamed_digest :
      (m : Match) (path : String) (file_bytes : Option Bytes)
      → plan_for hexdigest state_offsets (record m { path = path }) (digest hexdigest file_bytes)
        ≡ Option.map
            (λ (plan : TailPlan). record plan { path = path })
            (plan_for hexdigest state_offsets m (digest hexdigest file_bytes))
  renamed_digest m path none = refl
  renamed_digest m path (some file_bytes) = renamed_start m.path path _ _

  -- A rotation that renames a file of at least `FP_PREFIX` bytes does not change from where it is
  -- read, nor its fingerprint.
  pub plan_of-renamed :
      (m : Match) (n : ℕ) (path : String)
      → m.size ≡ some n
      → ltb n fp_prefix ≡ false
      → plan_of hexdigest state_offsets (record m { path = path })
        ≡ Option.map
            (λ (plan : TailPlan). record plan { path = path })
            (plan_of hexdigest state_offsets m)
  unfolding plan_of fingerprint
  plan_of-renamed m n path s l = rw (s, l) (renamed_digest m path m.file_bytes)

-- What a run committed is where the next poll resumes: after `set_offsets` returned, a file that
-- has the key of an entry of the batch and is at least as long as its offset is read from the
-- offset of the last such entry, whatever its path is now.
pub plan_of-set_offsets :
    (hexdigest : Bytes → String) (raises : ℕ → Bool) (now source run_id : String)
    (os : List FileOffset) (db : Db) (m : Match) (fp : Option String) (n : ℕ) (fo : FileOffset)
    → (set_offsets raises now source os run_id db).0 ≡ ok tt
    → fingerprint hexdigest m ≡ some fp
    → newest (key_of hexdigest m.path fp) os ≡ some fo
    → m.size_now ≡ some n
    → is_below n fo.offset ≡ false
    → plan_of hexdigest (get_offsets source (set_offsets raises now source os run_id db).1) m
      ≡ some (record { path = m.path; fingerprint = fp; start_offset = fo.offset })
unfolding plan_of fingerprint
plan_of-set_offsets hexdigest raises now source run_id os db m fp n fo h e f s b =
    elim (get_offsets-set_offsets raises now source run_id os db) [
      | inl (r, same) ↦ cc
      | inr (r, read, w, runs) ↦
          let stored : lookup (key_of hexdigest m.path fp)
                (get_offsets source (set_offsets raises now source os run_id db).1)
              ≡ some (file_offset (key_of hexdigest m.path fp) (offset_row raises now fo run_id)) =
            read source (key_of hexdigest m.path fp) ∙ rw (eq_refl source, f) refl in
          ap
            (plan_for hexdigest (get_offsets source (set_offsets raises now source os run_id db).1)
              m)
            e
          ∙ rw (stored, s, b) refl
    ]
