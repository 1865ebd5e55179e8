-- ===== src/Logs/Sources.antt =====
-- mongo-sync-agent/src/mongo_sync_agent/logs/sources.py: which files a poll reads, from where, and
-- which stored offsets are forgotten. Each call of `stat` and `open` may meet another state of the
-- disk; `hexdigest` is SHA-256.

pub mod Order
pub mod Resume
pub mod Pruning
use Prim.Native.Char.{code}
use Prim.Native.String.{◌++◌ as ◌<>◌}
use Prim.Native.String
use alteryx_server_maintenan.Prelude.{
  ℕ, ◌+◌, ◌*◌, String, Bool, true, false, not, ◌&&◌, ◌||◌, Option, none, some, List, [], ◌∷◌, ltb,
  leb, ◌-◌, exception, ◌==◌, str_eq, if◌then◌else◌, take, Result, ok, raised,
}
use alteryx_server_maintenan.Prelude.Dict.{Dict, lookup, string_key}
use alteryx_server_maintenan.Prelude.Int.{ℤ, pos, negsuc}
use alteryx_server_maintenan.State.{FileOffset, get_offsets, delete_offset}
use alteryx_server_maintenan.World.{World, Env}
use alteryx_server_maintenan.World.Exec.{select, Exec, pure, ◌>>=◌, ◌>>◌, commit, os_error}
use alteryx_server_maintenan.Logs.Tailer.{Bytes}

abbrev pub fp_prefix : ℕ
fp_prefix = 4096

pub record TailPlan : Type 0 where
  pub path : String
  pub fingerprint : Option String
  pub start_offset : ℤ

-- What `stat` says of a path; `mtime` counts ticks from a fixed time on.
pub record Stat : Type 0 where
  pub mtime : ℕ
  pub is_regular : Bool

-- A path that the glob matched, with what the calls on it meet, in the order of the calls: `stat`
-- of `discover`; `stat` and `open` of `fingerprint`; `stat` of `discover` again. `none` is an
-- `OSError`.
pub record Match : Type 0 where
  pub path : String
  pub stat : Option Stat
  pub size : Option ℕ
  pub file_bytes : Option Bytes
  pub size_now : Option ℕ

abbrev pub provisional_key : String → String
provisional_key path = "path:" <> path

-- An entry of the list that is sorted.
pub record Entry : Type 0 where
  pub mtime : ℕ
  pub file : Match

-- The loop over the glob's matches.
abbrev pub add_entry : Match → Option Stat → List Entry → List Entry
add_entry m none rest = rest
add_entry m (some st) rest =
    if st.is_regular then record { mtime = st.mtime; file = m } ∷ rest else rest

unfoldable pub list_entries : List Match → List Entry
list_entries [] = []
list_entries (m ∷ matches) = add_entry m m.stat (list_entries matches)

-- `a <= b` of Python's `str`.
unfoldable pub str_leb : String → String → Bool
str_leb String.[] b = true
str_leb (String.◌∷◌ c a) String.[] = false
str_leb (String.◌∷◌ c a) (String.◌∷◌ d b) =
    let rest = str_leb a b in ltb (code c) (code d) || (code c == code d && rest)

-- The order of the sort key `(mtime, name)`.
unfoldable pub entry_leb : Entry → Entry → Bool
unfolding str_leb
entry_leb a b = ltb a.mtime b.mtime || (a.mtime == b.mtime && str_leb a.file.path b.file.path)

-- `list.sort` of Python, as a stable sort by insertion.
unfoldable pub insert : Entry → List Entry → List Entry
unfolding entry_leb
insert e [] = e ∷ []
insert e (f ∷ es) = let rest = insert e es in if entry_leb e f then e ∷ f ∷ es else f ∷ rest

unfoldable pub sort : List Entry → List Entry
unfolding insert
sort [] = []
sort (e ∷ es) = insert e (sort es)

-- `size < offset`.
abbrev pub is_below : ℕ → ℤ → Bool
is_below size (pos n) = ltb size n
is_below size (negsuc n) = false

module _ (hexdigest : Bytes → String) where
  -- The outer `none` is an `OSError`; the inner one says that the file is too small.
  abbrev digest : Option Bytes → Option (Option String)
  digest none = none
  digest (some file_bytes) = some (some (hexdigest (take fp_prefix file_bytes)))

  abbrev of_size : Option ℕ → Option Bytes → Option (Option String)
  of_size none file_bytes = none
  of_size (some n) file_bytes = if ltb n fp_prefix then some none else digest file_bytes

  unfoldable pub fingerprint : Match → Option (Option String)
  fingerprint m = of_size m.size m.file_bytes

  -- From the stored offset on; an `OSError` of the last `stat` skips the file.
  abbrev pub checked_start : ℤ → Option ℕ → Option ℤ
  checked_start offset none = none
  checked_start offset (some n) = some (if is_below n offset then pos 0 else offset)

  abbrev pub start_of : Option FileOffset → Option ℕ → Option ℤ
  start_of none size_now = some (pos 0)
  start_of (some existing) size_now = checked_start existing.offset size_now

  abbrev pub key_of : String → Option String → String
  key_of path none = provisional_key path
  key_of path (some fp) = fp

  abbrev with_start : String → Option String → Option ℤ → Option TailPlan
  with_start path fp none = none
  with_start path fp (some start) =
      some (record { path = path; fingerprint = fp; start_offset = start })

  module _ (state_offsets : Dict String FileOffset) where
    abbrev plan_for : Match → Option (Option String) → Option TailPlan
    plan_for m none = none
    plan_for m (some fp) =
        with_start m.path fp (start_of (lookup (key_of m.path fp) state_offsets) m.size_now)

    -- The body of the loop over the sorted entries; `none` is a `continue`.
    unfoldable pub plan_of : Match → Option TailPlan
    unfolding fingerprint
    plan_of m = plan_for m (fingerprint m)

    abbrev pub add_plan : Option TailPlan → List TailPlan → List TailPlan
    add_plan none plans = plans
    add_plan (some plan) plans = plan ∷ plans

    unfoldable pub plans_of : List Entry → List TailPlan
    unfolding plan_of
    plans_of [] = []
    plans_of (e ∷ es) = add_plan (plan_of e.file) (plans_of es)

    unfoldable pub discover : List Match → List TailPlan
    unfolding sort list_entries plans_of
    discover matches = plans_of (sort (list_entries matches))

-- `key in current_fingerprints`.
unfoldable pub is_current : String → List String → Bool
is_current key [] = false
is_current key (k ∷ keys) = str_eq k key || is_current key keys

-- `datetime.fromisoformat`, as microseconds in UTC since the first instant of the year 1 (a naive time
-- is taken for UTC); `none` is a `ValueError`. `clock` is the current time.
pub record Calendar : Type 0 where
  pub fromisoformat : String → Option ℕ
  pub clock : World → ℕ

-- The microseconds of a day, and from the first instant to the end of the year 9999.
abbrev pub day : ℕ
day = 86400000000

abbrev pub last_instant : ℕ
last_instant = 315537897600000000

-- `now - timedelta(days=gc_days)`: an instant that Python has, or an `OverflowError`.
unfoldable pub cutoff_of : ℕ → ℤ → Result ℕ
cutoff_of now (pos days) =
    if leb (days * day) now then ok (now - days * day) else raised (exception "OverflowError")
cutoff_of now (negsuc days) =
    if ltb (now + (days + 1) * day) last_instant
    then ok (now + (days + 1) * day)
    else raised (exception "OverflowError")

module _ (calendar : Calendar) (cutoff : ℕ) where
  -- `updated < cutoff`.
  abbrev is_old : Option ℕ → Bool
  is_old none = false
  is_old (some updated) = ltb updated cutoff

  unfoldable pub is_stale : List String → String → FileOffset → Bool
  unfolding is_current
  is_stale current key fo =
      not (is_current key current) && is_old (calendar.fromisoformat fo.updated_at)

module _ (env : Env) (calendar : Calendar) (source : String) (current : List String) where
  -- The loop of `gc_offsets`; each deletion is a transaction of its own.
  unfoldable pub gc_loop : ℕ → Dict String FileOffset → ℕ → Exec ℕ
  gc_loop cutoff [] deleted = pure deleted
  gc_loop cutoff ((key, fo) ∷ offsets) deleted =
      if is_stale calendar cutoff current key fo
      then (do
        commit (λ w db. delete_offset (env.sql_raises w) (env.now w) source key db)
        gc_loop cutoff offsets (deleted + 1))
      else gc_loop cutoff offsets deleted

  unfoldable pub gc_offsets : ℤ → Exec ℕ
  unfolding gc_loop cutoff_of
  gc_offsets gc_days = do
    cutoff ← (λ w. (cutoff_of (calendar.clock w) gc_days, w))
    offsets ← select env.select_raises (get_offsets source)
    gc_loop cutoff offsets 0
