-- ===== src/Locking/Laws.antt =====
-- locking.py: what `acquire` and `release` change.
use alteryx_server_maintenan.Prelude.{
  String, ◌≡◌, refl, Bool, Option, none, some, Option-cases, inl, inr,
}
use alteryx_server_maintenan.Prelude.Int.{ℤ}
use alteryx_server_maintenan.World.{World, Env, LockFile, no_lock, unreadable, holds}
use alteryx_server_maintenan.World.Rules.{Post, returns, >>=-Post, os_effect-Post}
use alteryx_server_maintenan.Locking.{owner, acquire, acquire_from, release, remove_lock}

-- All but the lock and the budget is as it was.
pub record SameButLock (w w' : World) : Type 0 where
  pub db : w'.db ≡ w.db
  pub spool : w'.spool ≡ w.spool
  pub bucket : w'.bucket ≡ w.bucket
  pub run_dirs : w'.run_dirs ≡ w.run_dirs

same : (w : World) → SameButLock w w
same w = record { db = refl; spool = refl; bucket = refl; run_dirs = refl }

module _ (env : Env) (lock_path : String) (pid_exists : World → ℤ → Bool) (pid : ℤ) where
  -- The lock was free and names the process now, or another process has it and nothing changed.
  pub data Acquires (w : World) : Option ℤ → World → Type 0 where
    granted :
        {w' : World}
        → owner (pid_exists w) w.lock ≡ none
        → w'.lock ≡ holds pid
        → SameButLock w w'
        → Acquires w none w'
    already_running :
        {other : ℤ} → owner (pid_exists w) w.lock ≡ some other → Acquires w (some other) w

  pub acquire-Post :
      (w : World) → Post (Acquires w) (SameButLock w) (acquire env lock_path pid_exists pid w)
  unfolding acquire
  acquire-Post w = elim (Option-cases (owner (pid_exists w) w.lock)) [
    | inl e ↦ rw e (writes e)
    | inr (other, e) ↦ rw e (returns (already_running e))
  ]
    where
      writes :
          owner (pid_exists w) w.lock ≡ none
          → Post (Acquires w) (SameButLock w) (acquire_from env lock_path pid none w)
      writes e =
          >>=-Post {P = λ _ w'. (w'.lock ≡ holds pid) × SameButLock w w'} _ _ w
            (os_effect-Post _ _ w (same w)
              (λ n. (refl, record { db = refl; spool = refl; bucket = refl; run_dirs = refl })))
            (λ _ w' a. returns (granted e a.0 a.1))

module _ (env : Env) (lock_path : String) where
  pub release-Post :
      (w : World)
      → Post
          (λ _ w'. (w'.lock ≡ no_lock) × SameButLock w w')
          (SameButLock w)
          (release env lock_path w)
  unfolding release
  release-Post w = go w.lock refl
    where
      go :
          (l : LockFile)
          → w.lock ≡ l
          → Post
              (λ _ w'. (w'.lock ≡ no_lock) × SameButLock w w')
              (SameButLock w)
              (remove_lock env lock_path l w)
      go no_lock e = returns (e, same w)
      go unreadable e =
          os_effect-Post _ _ w (same w)
            (λ n. (refl, record { db = refl; spool = refl; bucket = refl; run_dirs = refl }))
      go (holds p) e =
          os_effect-Post _ _ w (same w)
            (λ n. (refl, record { db = refl; spool = refl; bucket = refl; run_dirs = refl }))
