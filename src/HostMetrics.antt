-- ===== src/HostMetrics.antt =====
-- mongo-sync-agent/src/mongo_sync_agent/hostmetrics/collect.py: the measurements of a run. What is
-- measured is `Psutil`; an `Exception` of it is `none`.
pub mod Volumes
pub mod Totals
pub mod Records
use Prim.Native.String.{◌++◌ as ◌<>◌}
use alteryx_server_maintenan.Prelude.{
  ℕ, ◌+◌, String, Bool, true, false, Option, none, some, List, [], ◌∷◌, ◌++◌, map, length, str_eq,
  if◌then◌else◌,
}
use alteryx_server_maintenan.Prelude.Dict.{Dict, lookup, string_key}
use alteryx_server_maintenan.World.{
  Memory, Usage, Counters, Metric, cpu_percent_1s, memory, disk_usage, disk_io, MetricRecord,
}
use alteryx_server_maintenan.DateTime.{decimal}
use alteryx_server_maintenan.HostMetrics.Volumes.{Kernel, volume_disk_numbers}

-- `now` is the text of the n-th reading of the clock; `kernel` is there on Windows.
pub record Psutil : Type 0 where
  pub cpu_percent : Option ℕ
  pub virtual_memory : Option Memory
  pub disk_io_counters : Option (Option (Dict String Counters))
  pub usage_of : String → Option Usage
  pub kernel : Option Kernel
  pub now : ℕ → String

-- `f"PhysicalDrive{n}"`.
abbrev pub physical_drive : ℕ → String
physical_drive n = "PhysicalDrive" <> decimal n

-- An empty list of numbers is none.
abbrev drives : Option (List ℕ) → Option (List String)
drives none = none
drives (some []) = none
drives (some (n ∷ numbers)) = some (map physical_drive (n ∷ numbers))

unfoldable pub resolve_perdisk_keys : Option Kernel → String → Option (List String)
resolve_perdisk_keys none disk = none
resolve_perdisk_keys (some kernel) disk = drives ((volume_disk_numbers kernel disk).0)

-- The keys that are there.
abbrev pub add_counters : Counters → Option Counters → Counters
add_counters sum none = sum
add_counters sum (some c) = record {
  read_bytes = sum.read_bytes + c.read_bytes;
  write_bytes = sum.write_bytes + c.write_bytes;
  read_count = sum.read_count + c.read_count;
  write_count = sum.write_count + c.write_count;
}

abbrev pub no_counters : Counters
no_counters = record { read_bytes = 0; write_bytes = 0; read_count = 0; write_count = 0 }

abbrev keep_key : String → Option Counters → List String → List String
keep_key key none keys = keys
keep_key key (some c) keys = key ∷ keys

unfoldable pub present_keys : List String → Dict String Counters → List String
present_keys [] counters = []
present_keys (key ∷ keys) counters = keep_key key (lookup key counters) (present_keys keys counters)

unfoldable pub sum_present : Counters → List String → Dict String Counters → Counters
sum_present sum [] counters = sum
sum_present sum (key ∷ keys) counters =
    sum_present (add_counters sum (lookup key counters)) keys counters

abbrev sum_of : List String → Dict String Counters → Option Counters
sum_of [] counters = none
sum_of (key ∷ keys) counters = some (sum_present no_counters (key ∷ keys) counters)

unfoldable pub sum_disk_io : List String → Dict String Counters → Option Counters
unfolding present_keys sum_present
sum_disk_io keys counters = sum_of (present_keys keys counters) counters

-- `psutil.disk_io_counters(perdisk=True) or {}`, `{}` where it raises.
abbrev pub counters_of : Option (Option (Dict String Counters)) → Dict String Counters
counters_of none = []
counters_of (some none) = []
counters_of (some (some counters)) = counters

-- A record as it is before the host is stamped on it.
pub record Unstamped : Type 0 where
  pub metric : Metric
  pub ts : String

module _ (psutil : Psutil) where
  -- `records.append(...)`, at the time of the append.
  abbrev pub append_metric : Metric → List Unstamped → List Unstamped
  append_metric metric records =
      records ++ record { metric = metric; ts = psutil.now (length records) } ∷ []

  abbrev pub collect_cpu : Option ℕ → List Unstamped → List Unstamped
  collect_cpu none records = records
  collect_cpu (some percent) records = append_metric (cpu_percent_1s percent) records

  abbrev pub collect_memory : Option Memory → List Unstamped → List Unstamped
  collect_memory none records = records
  collect_memory (some mem) records = append_metric (memory mem) records

  abbrev io_keys_of : String → Option Counters → Option (List String)
  io_keys_of disk none = resolve_perdisk_keys psutil.kernel disk
  io_keys_of disk (some c) = some (disk ∷ [])

  -- A direct match first, then the drives behind the volume.
  abbrev pub io_keys : String → Dict String Counters → Option (List String)
  io_keys disk counters = io_keys_of disk (lookup disk counters)

  abbrev sum_keys : Option (List String) → Dict String Counters → Option Counters
  sum_keys none counters = none
  sum_keys (some keys) counters = sum_disk_io keys counters

  abbrev io_metric : String → Option Counters → Metric
  io_metric disk none = disk_io disk no_counters (some ("Disk IO data not found for " <> disk))
  io_metric disk (some io_data) = disk_io disk io_data none

  unfoldable pub disk_io_of : String → Dict String Counters → Metric
  unfolding resolve_perdisk_keys sum_disk_io
  disk_io_of disk counters = io_metric disk (sum_keys (io_keys disk counters) counters)

  abbrev pub collect_disk :
      Dict String Counters → String → Option Usage → List Unstamped → List Unstamped
  collect_disk counters disk none records = records
  collect_disk counters disk (some usage) records =
      append_metric (disk_io_of disk counters) (append_metric (disk_usage disk usage) records)

  -- The loop over the disks.
  unfoldable pub collect_disks :
      Dict String Counters → List String → List Unstamped → List Unstamped
  collect_disks counters [] records = records
  collect_disks counters (disk ∷ disks) records =
      collect_disks counters disks (collect_disk counters disk (psutil.usage_of disk) records)

  abbrev pub stamp : String → Unstamped → MetricRecord
  stamp host r = record { metric = r.metric; ts = r.ts; host = host }

  unfoldable pub collect : List String → String → List MetricRecord
  unfolding collect_disks
  collect disks host = map (stamp host) (
      collect_disks (counters_of psutil.disk_io_counters) disks
        (collect_memory psutil.virtual_memory (collect_cpu psutil.cpu_percent [])))
