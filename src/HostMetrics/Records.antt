-- ===== src/HostMetrics/Records.antt =====
-- hostmetrics/collect.py: the records of a run, and the volume queries behind them.
use alteryx_server_maintenan.Prelude.{
  ℕ, zero, suc, ◌+◌, ◌≤◌, ◌≡◌, refl, sym, ap, ◌∙◌, String, Option, none, some, List, [], ◌∷◌, ◌++◌,
  length, length-append, map, append-nil, append_assoc, arith,
}
use alteryx_server_maintenan.World.{
  Memory, Usage, Metric, cpu_percent_1s, memory, disk_usage, MetricRecord,
}
use alteryx_server_maintenan.HostMetrics.{
  Psutil, Unstamped, append_metric, collect_cpu, collect_memory, collect_disk, collect_disks,
  disk_io_of, counters_of, stamp, collect,
}
use alteryx_server_maintenan.HostMetrics.Volumes.{
  Kernel, KernelCall, opened, closed, Extents, disk_numbers, extent_count, volume_path, query,
  read_extents, volume_disk_numbers,
}

module _ (psutil : Psutil) where
  abbrev pub cpu_metrics : Option ℕ → List Metric
  cpu_metrics none = []
  cpu_metrics (some percent) = cpu_percent_1s percent ∷ []

  abbrev pub memory_metrics : Option Memory → List Metric
  memory_metrics none = []
  memory_metrics (some mem) = memory mem ∷ []

  -- A disk whose usage can be read has two records, another none.
  abbrev pub disk_metrics : String → Option Usage → List Metric
  disk_metrics disk none = []
  disk_metrics disk (some usage) =
      disk_usage disk usage ∷ disk_io_of psutil disk (counters_of psutil.disk_io_counters) ∷ []

  abbrev pub all_disk_metrics : List String → List Metric
  all_disk_metrics [] = []
  all_disk_metrics (disk ∷ disks) =
      disk_metrics disk (psutil.usage_of disk) ++ all_disk_metrics disks

  abbrev pub run_metrics : List String → List Metric
  run_metrics disks =
      cpu_metrics psutil.cpu_percent
      ++ (memory_metrics psutil.virtual_memory ++ all_disk_metrics disks)

  -- The n-th record has the n-th reading of the clock, and all have the host.
  abbrev pub stamped : String → ℕ → List Metric → List MetricRecord
  stamped host n [] = []
  stamped host n (metric ∷ metrics) =
      record { metric = metric; ts = psutil.now n; host = host } ∷ stamped host (suc n) metrics

  abbrev timed : ℕ → List Metric → List Unstamped
  timed n [] = []
  timed n (metric ∷ metrics) = record { metric = metric; ts = psutil.now n } ∷ timed (suc n) metrics

  -- Records that are appended to others.
  abbrev extended : List Unstamped → List Metric → List Unstamped
  extended records metrics = records ++ timed (length records) metrics

  extended-nil : (records : List Unstamped) → extended records [] ≡ records
  extended-nil records = append-nil records

  extended-cons :
      (records : List Unstamped) (x : Metric) (xs : List Metric)
      → extended records (x ∷ xs) ≡ extended (append_metric psutil x records) xs
  extended-cons records x xs =
      let e : length (append_metric psutil x records) ≡ suc (length records) = omega (
        arith,
        length-append records (record { metric = x; ts = psutil.now (length records) } ∷ []),
      ) in
      rw e (
        sym (append_assoc records (record { metric = x; ts = psutil.now (length records) } ∷ []) _))

  extended-append :
      (records : List Unstamped) (xs ys : List Metric)
      → extended (extended records xs) ys ≡ extended records (xs ++ ys)
  extended-append records [] ys = ap (λ r. extended r ys) (extended-nil records)
  extended-append records (x ∷ xs) ys =
      ap (λ r. extended r ys) (extended-cons records x xs)
      ∙ extended-append (append_metric psutil x records) xs ys
      ∙ sym (extended-cons records x (xs ++ ys))

  collect_cpu-extended :
      (o : Option ℕ) (records : List Unstamped)
      → collect_cpu psutil o records ≡ extended records (cpu_metrics o)
  collect_cpu-extended none records = sym (extended-nil records)
  collect_cpu-extended (some percent) records = refl

  collect_memory-extended :
      (o : Option Memory) (records : List Unstamped)
      → collect_memory psutil o records ≡ extended records (memory_metrics o)
  collect_memory-extended none records = sym (extended-nil records)
  collect_memory-extended (some mem) records = refl

  collect_disk-extended :
      (disk : String) (o : Option Usage) (records : List Unstamped)
      → collect_disk psutil (counters_of psutil.disk_io_counters) disk o records
        ≡ extended records (disk_metrics disk o)
  collect_disk-extended disk none records = sym (extended-nil records)
  collect_disk-extended disk (some usage) records = sym (
      extended-cons records (disk_usage disk usage)
        (disk_io_of psutil disk (counters_of psutil.disk_io_counters) ∷ []))

  collect_disks-extended :
      (disks : List String) (records : List Unstamped)
      → collect_disks psutil (counters_of psutil.disk_io_counters) disks records
        ≡ extended records (all_disk_metrics disks)
  unfolding collect_disks
  collect_disks-extended [] records = sym (extended-nil records)
  collect_disks-extended (disk ∷ disks) records =
      collect_disks-extended disks _
      ∙ ap (λ r. extended r (all_disk_metrics disks))
          (collect_disk-extended disk (psutil.usage_of disk) records)
      ∙ extended-append records (disk_metrics disk (psutil.usage_of disk)) (all_disk_metrics disks)

  map-timed :
      (host : String) (n : ℕ) (metrics : List Metric)
      → map (stamp psutil host) (timed n metrics) ≡ stamped host n metrics
  map-timed host n [] = refl
  map-timed host n (metric ∷ metrics) =
      ap (λ (l : List MetricRecord). record { metric = metric; ts = psutil.now n; host = host } ∷ l)
        (map-timed host (suc n) metrics)

  -- `collect` gives the processor load and the memory, if they can be read, then for each disk whose
  -- usage can be read its usage and its counters, in the order of the configuration; the n-th record
  -- has the n-th reading of the clock, and all have the host.
  pub collect-stamped :
      (disks : List String) (host : String)
      → collect psutil disks host ≡ stamped host 0 (run_metrics disks)
  unfolding collect
  collect-stamped disks host =
      ap (map (stamp psutil host)) in_order ∙ map-timed host 0 (run_metrics disks)
    where
      cpu : List Metric
      cpu = cpu_metrics psutil.cpu_percent

      mem : List Metric
      mem = memory_metrics psutil.virtual_memory

      before_disks :
          collect_memory psutil psutil.virtual_memory (collect_cpu psutil psutil.cpu_percent [])
          ≡ extended (extended [] cpu) mem
      before_disks =
          collect_memory-extended psutil.virtual_memory _
          ∙ ap (λ r. extended r mem) (collect_cpu-extended psutil.cpu_percent [])

      in_order :
          collect_disks psutil
            (counters_of psutil.disk_io_counters)
            disks
            (collect_memory psutil psutil.virtual_memory (collect_cpu psutil psutil.cpu_percent []))
          ≡ timed 0 (run_metrics disks)
      in_order =
          collect_disks-extended disks _
          ∙ ap (λ r. extended r (all_disk_metrics disks)) before_disks
          ∙ extended-append (extended [] cpu) mem (all_disk_metrics disks)
          ∙ extended-append [] cpu (mem ++ all_disk_metrics disks)

-- The handles of a query: none, or one that is closed again.
pub data IsClosed : List KernelCall → Type 0 where
  not_opened : IsClosed []
  closed_again : {handle : ℕ} → IsClosed (opened handle ∷ closed handle ∷ [])

-- At most as many numbers as the buffer has room for, if there are any.
abbrev pub IsBounded : Option (List ℕ) → Type 0
IsBounded none = Unit
IsBounded (some numbers) = length numbers ≤ 32

length-disk_numbers :
    (numbers : ℕ → ℕ) (i count : ℕ) → length (disk_numbers numbers i count) ≡ count
unfolding disk_numbers
length-disk_numbers numbers i zero = refl
length-disk_numbers numbers i (suc count) = omega (arith, length-disk_numbers numbers (i + 1) count)

-- A query of a volume closes what it opens, whether it succeeds or not, and reads no entry behind
-- the buffer, whatever the count says.
pub volume_disk_numbers-IsClosed :
    (kernel : Kernel) (disk : String)
    → IsBounded (volume_disk_numbers kernel disk).0 × IsClosed (volume_disk_numbers kernel disk).1
unfolding volume_disk_numbers
volume_disk_numbers-IsClosed kernel disk = go (kernel.create_file (volume_path disk))
  where
    go : (o : Option ℕ) → IsBounded (query kernel o).0 × IsClosed (query kernel o).1
    go none = (tt, not_opened)
    go (some handle) = (bounded (kernel.device_io_control handle), closed_again)
      where
        bounded : (o : Option Extents) → IsBounded (read_extents o)
        bounded none = tt
        bounded (some e) = rw (length-disk_numbers e.disk_number 0 (extent_count e)) (ground arith)
