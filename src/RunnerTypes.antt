-- ===== src/RunnerTypes.antt =====
-- mongo-sync-agent/src/mongo_sync_agent/runner_types.py: the data that the units of a run share.
use alteryx_server_maintenan.Prelude.{
  ℕ, String, Bool, true, false, Option, none, List, [], ◌∷◌, ◌||◌, if◌then◌else◌,
}
use alteryx_server_maintenan.DateTime.{DateTime}

pub data Status : Type 0 where
  status_ok skipped failed empty : Status

pub record UnitResult : Type 0 where
  pub unit : String
  pub status : Status
  pub docs : ℕ
  pub bytes_uploaded : ℕ
  pub error : Option String

-- A result with the defaults of the dataclass.
abbrev pub unit_result : String → Status → UnitResult
unit_result unit status = record {
  unit = unit;
  status = status;
  docs = 0;
  bytes_uploaded = 0;
  error = none;
}

pub record RunContext : Type 0 where
  pub run_id : String
  pub run_dt : DateTime
  pub spool_dir : String
  pub dry_run : Bool
  pub host : String

-- The duration is in hundredths of a second, as it is rounded.
pub record RunSummary : Type 0 where
  pub run_id : String
  pub run_dt : String
  pub duration_s : ℕ
  pub peak_rss_bytes : ℕ
  pub units : List UnitResult

abbrev pub is_failed : UnitResult → Bool
is_failed u = elim u.status [ failed ↦ true | _ ↦ false ]

unfoldable pub any_failed : List UnitResult → Bool
any_failed [] = false
any_failed (u ∷ units) = is_failed u || any_failed units

-- The process exit code of a run that completed.
unfoldable pub exit_code : RunSummary → ℕ
unfolding any_failed
exit_code summary = if any_failed summary.units then 1 else 0
