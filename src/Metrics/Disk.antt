-- ===== src/Metrics/Disk.antt =====
-- `DiskStats` of include/metrics.h and `get_disk_stats` of src/metrics.c.
pub mod Line
pub mod Reading
pub mod Traced
pub mod Complaints
use monitor_program.Base.{
  ℕ, ◌≤◌, Bool, true, false, ◌&&◌, Option, none, some, List, [], ◌∷◌, ◌++◌, Bytes, codes, length,
  ltb, leb, ◌==◌, if◌then◌else◌,
}
use monitor_program.Libc.Stream.{read_lines}
use monitor_program.Libc.Text.{strcmp_eq}
use monitor_program.Libc.Scan.{Directive, space, unsigned, word, Value, number, text, sscanf}

abbrev pub diskstats_buffer_size : ℕ
diskstats_buffer_size = 512

abbrev pub interface_name_size : ℕ
interface_name_size = 32

pub record DiskStats : Type 0 where
  pub reads : ℕ
  pub writes : ℕ
  pub read_time : ℕ
  pub write_time : ℕ

abbrev pub no_disk_stats : DiskStats
no_disk_stats = record { reads = 0; writes = 0; read_time = 0; write_time = 0 }

-- "%u %u %s %llu %llu %llu %llu %llu %llu %llu %llu"
abbrev pub disk_format : List Directive
disk_format =
    unsigned 32
    ∷ space
    ∷ unsigned 32
    ∷ space
    ∷ word
    ∷ space
    ∷ unsigned 64
    ∷ space
    ∷ unsigned 64
    ∷ space
    ∷ unsigned 64
    ∷ space
    ∷ unsigned 64
    ∷ space
    ∷ unsigned 64
    ∷ space
    ∷ unsigned 64
    ∷ space
    ∷ unsigned 64
    ∷ space
    ∷ unsigned 64
    ∷ []

-- Whether "%s" writes past `device_name`, which holds 32 bytes with the terminator.
unfoldable pub overflows : List Value → Bool
overflows (major ∷ minor ∷ text name ∷ vs) = leb interface_name_size (length name)
overflows vs = false

-- The device name and the four columns used: `none` where `sscanf` returns less than 11.
unfoldable pub disk_row : List Value → Option (Bytes × DiskStats)
disk_row
      (major
        ∷ minor
        ∷ text name
        ∷ number rd_ios
        ∷ rd_merges
        ∷ rd_sectors
        ∷ number rd_ticks
        ∷ number wr_ios
        ∷ wr_merges
        ∷ wr_sectors
        ∷ number wr_ticks
        ∷ vs) =
    some (
      name,
      record { reads = rd_ios; writes = wr_ios; read_time = rd_ticks; write_time = wr_ticks },
    )
disk_row vs = none

-- The loop over the lines; `none` where a name is written past its buffer.
unfoldable pub scan_diskstats : List Bytes → Option DiskStats
unfolding overflows disk_row
scan_diskstats [] = some no_disk_stats
scan_diskstats (line ∷ lines) =
    let rest = scan_diskstats lines in
    let columns = sscanf disk_format line in
    if overflows columns then none else (elim (disk_row columns) [
      | none ↦ rest
      | some row ↦ if strcmp_eq row.0 (codes "sda") then some row.1 else rest
    ])

unfoldable pub get_disk_stats : Option Bytes → Option DiskStats
unfolding scan_diskstats
get_disk_stats none = some no_disk_stats
get_disk_stats (some content) = scan_diskstats (read_lines diskstats_buffer_size content)
