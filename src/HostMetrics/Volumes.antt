-- ===== src/HostMetrics/Volumes.antt =====
-- hostmetrics/collect.py: the physical disks behind a Windows volume. The calls of kernel32 are
-- `Kernel`.
use Prim.Native.Char.{code}
use Prim.Native.String.{◌++◌ as ◌<>◌}
use alteryx_server_maintenan.Prelude.{
  ℕ, zero, suc, ◌+◌, String, Bool, ◌&&◌, ◌||◌, ◌==◌, leb, Option, none, some, List, [], ◌∷◌, str_eq,
  if◌then◌else◌,
}

-- `VOLUME_DISK_EXTENTS`, by its count and the disk numbers.
pub record Extents : Type 0 where
  pub number_of_disk_extents : ℕ
  pub disk_number : ℕ → ℕ

-- `CreateFileW` gives a handle, or none; `DeviceIoControl` fills the extents, or fails.
pub record Kernel : Type 0 where
  pub create_file : String → Option ℕ
  pub device_io_control : ℕ → Option Extents

pub data KernelCall : Type 0 where
  opened closed : ℕ → KernelCall

-- `s.rstrip(chars)`.
unfoldable pub rstrip : (ℕ → Bool) → String → String
rstrip is String.[] = String.[]
rstrip is (String.◌∷◌ c s) =
    let rest = rstrip is s in
    if str_eq rest String.[] && is (code c) then String.[] else String.◌∷◌ c rest

abbrev pub is_slash : ℕ → Bool
is_slash c = c == 0x5c || c == b'/'

unfoldable pub volume_path : String → String
unfolding rstrip
volume_path disk = "\\\\.\\" <> rstrip (λ c. c == b':') (rstrip is_slash disk) <> ":"

abbrev pub max_extents : ℕ
max_extents = 32

-- The first entries of `Extents`.
unfoldable pub disk_numbers : (ℕ → ℕ) → ℕ → ℕ → List ℕ
disk_numbers numbers i zero = []
disk_numbers numbers i (suc count) = numbers i ∷ disk_numbers numbers (i + 1) count

-- `min(extents.NumberOfDiskExtents, _MAX_EXTENTS)`.
abbrev pub extent_count : Extents → ℕ
extent_count extents =
    if leb extents.number_of_disk_extents max_extents
    then extents.number_of_disk_extents
    else max_extents

abbrev pub read_extents : Option Extents → Option (List ℕ)
read_extents none = none
read_extents (some extents) = some (disk_numbers extents.disk_number 0 (extent_count extents))

-- The volume is closed in a `finally`. With the calls that were made.
abbrev pub query : Kernel → Option ℕ → Option (List ℕ) × List KernelCall
query kernel none = (none, [])
query kernel (some handle) =
    (read_extents (kernel.device_io_control handle), opened handle ∷ closed handle ∷ [])

unfoldable pub volume_disk_numbers : Kernel → String → Option (List ℕ) × List KernelCall
unfolding volume_path disk_numbers
volume_disk_numbers kernel disk = query kernel (kernel.create_file (volume_path disk))
