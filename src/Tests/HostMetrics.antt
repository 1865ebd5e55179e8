-- ===== src/Tests/HostMetrics.antt =====
-- The theorems on hostmetrics/collect.py at concrete readings.
use alteryx_server_maintenan.Prelude.{
  ℕ, String, ◌≡◌, refl, none, some, [], ◌∷◌, str_eq, if◌then◌else◌,
}
use alteryx_server_maintenan.Prelude.Dict.{Dict, lookup}
use alteryx_server_maintenan.DateTime.{decimal}
use alteryx_server_maintenan.World.{Counters, disk_io}
use alteryx_server_maintenan.HostMetrics.{Psutil, sum_disk_io, disk_io_of, collect}
use alteryx_server_maintenan.HostMetrics.Volumes.{Kernel, volume_path, volume_disk_numbers}
use alteryx_server_maintenan.HostMetrics.Totals.{IsTotal, sum_disk_io-IsTotal}
use alteryx_server_maintenan.HostMetrics.Records.{run_metrics, stamped, collect-stamped}

abbrev counters : ℕ → Counters
counters n = record { read_bytes = n; write_bytes = 2; read_count = 3; write_count = 4 }

abbrev two_drives : Dict String Counters
two_drives = ("PhysicalDrive0", counters 10) ∷ ("PhysicalDrive1", counters 20) ∷ []

-- The volume of any disk spans the drives 0 and 1.
abbrev kernel : Kernel
kernel = record {
  create_file = λ path. some 7;
  device_io_control = λ handle. some (record { number_of_disk_extents = 2; disk_number = λ i. i });
}

abbrev pub psutil : Psutil
psutil = record {
  cpu_percent = some 125;
  virtual_memory = none;
  disk_io_counters = some (some two_drives);
  usage_of = λ disk.
      if str_eq disk "C:"
      then some (record { total = 100; used = 40; free = 60; percent = 400 })
      else none;
  kernel = some kernel;
  now = λ n. decimal n;
}

volume_of_root : volume_path "C:\\" ≡ "\\\\.\\C:"
unfolding volume_path
volume_of_root = refl

drives_are_summed :
    disk_io_of psutil "C:" two_drives
    ≡ disk_io "C:"
        (record { read_bytes = 30; write_bytes = 4; read_count = 6; write_count = 8 })
        none
unfolding disk_io_of volume_disk_numbers lookup decimal
drives_are_summed = refl

sum_disk_io-IsTotal_example :
    IsTotal
      ("PhysicalDrive0" ∷ "D:" ∷ [])
      two_drives
      (sum_disk_io ("PhysicalDrive0" ∷ "D:" ∷ []) two_drives)
sum_disk_io-IsTotal_example = sum_disk_io-IsTotal ("PhysicalDrive0" ∷ "D:" ∷ []) two_drives

collect-stamped_example :
    collect psutil ("C:" ∷ "E:" ∷ []) "h"
    ≡ stamped psutil "h" 0 (run_metrics psutil ("C:" ∷ "E:" ∷ []))
collect-stamped_example = collect-stamped psutil ("C:" ∷ "E:" ∷ []) "h"
