-- ===== src/Locking.antt =====
-- mongo-sync-agent/src/mongo_sync_agent/locking.py: the single-instance lock.
pub mod Exclusion
pub mod Race
pub mod Laws
use alteryx_server_maintenan.Prelude.{String, Bool, true, false, Option, none, some, if◌then◌else◌}
use alteryx_server_maintenan.Prelude.Int.{ℤ}
use alteryx_server_maintenan.World.{World, Env, LockFile, no_lock, unreadable, holds}
use alteryx_server_maintenan.World.Exec.{Exec, pure, ◌>>=◌, ◌>>◌, os_effect}

-- The process that keeps the lock from being taken: the one that the file names, if it exists.
unfoldable pub owner : (ℤ → Bool) → LockFile → Option ℤ
owner pid_exists no_lock = none
owner pid_exists unreadable = none
owner pid_exists (holds pid) = if pid_exists pid then some pid else none

module _ (env : Env) (lock_path : String) where
  unfoldable pub write_lock : ℤ → Exec (Unit {0})
  write_lock pid =
      os_effect (λ w. env.write_raises w lock_path) (λ w. record w { lock = holds pid })

  abbrev pub acquire_from : ℤ → Option ℤ → Exec (Option ℤ)
  acquire_from pid (some other) = pure (some other)
  acquire_from pid none = do write_lock pid; pure none

  -- `SingleInstanceLock.acquire` in the process `pid`: `some` is an `AlreadyRunningError`, with the
  -- process that it names.
  unfoldable pub acquire : (World → ℤ → Bool) → ℤ → Exec (Option ℤ)
  unfolding owner write_lock
  acquire pid_exists pid w = acquire_from pid (owner (pid_exists w) w.lock) w

  abbrev pub remove_lock : LockFile → Exec (Unit {0})
  remove_lock no_lock = pure tt
  remove_lock unreadable =
      os_effect (λ w. env.unlink_raises w lock_path) (λ w. record w { lock = no_lock })
  remove_lock (holds pid) =
      os_effect (λ w. env.unlink_raises w lock_path) (λ w. record w { lock = no_lock })

  -- `SingleInstanceLock.release`: a file that is gone already is no error.
  unfoldable pub release : Exec (Unit {0})
  release w = remove_lock w.lock w
