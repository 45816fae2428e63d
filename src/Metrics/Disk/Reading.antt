-- ===== src/Metrics/Disk/Reading.antt =====
-- `get_disk_stats` on a file in the kernel's layout.
use monitor_program.Base.{
  ℕ, ◌<◌, ◌≡◌, refl, arith, true, false, Option, Bool-cases, none, some, inl, inr, List, [], ◌∷◌,
  Bytes, codes, All, length, leb, if◌then◌else◌,
}
use monitor_program.Libc.Text.{strcmp_eq}
use monitor_program.Libc.Stream.{flatten, IsLine}
use monitor_program.Libc.Stream.Rounds.{read_lines-flatten}
use monitor_program.Libc.Scan.Decimal.{stops}
use monitor_program.Metrics.Disk.{
  diskstats_buffer_size, interface_name_size, DiskStats, no_disk_stats, scan_diskstats,
  get_disk_stats,
}
use monitor_program.Metrics.Disk.Line.{DiskRow, disk_line, Fits, sscanf-disk_line}

-- A line of the file: its columns, its layout, and what follows the columns.
pub record Entry : Type 0 where
  pub row : DiskRow
  pub blanks : ℕ
  pub blanks' : ℕ
  pub tail : Bytes

abbrev pub device : Entry → Bytes
device e = e.row.initial ∷ e.row.name

abbrev pub line_of : Entry → Bytes
line_of e = disk_line e.blanks e.blanks' e.row e.tail

pub record IsEntry (e : Entry) : Type 0 where
  pub fits : Fits e.row
  pub ends : stops e.tail ≡ true
  pub line : IsLine diskstats_buffer_size (line_of e)

abbrev pub diskstats_file : List Entry → List Bytes
diskstats_file [] = []
diskstats_file (e ∷ es) = line_of e ∷ diskstats_file es

-- The counters of a row that the program keeps.
abbrev pub stats_of : DiskRow → DiskStats
stats_of r = record {
  reads = r.rd_ios;
  writes = r.wr_ios;
  read_time = r.rd_ticks;
  write_time = r.wr_ticks;
}

-- The counters of the first entry for "sda", zeros if there is none, and `none` if a name that the
-- buffer cannot hold comes first.
unfoldable pub find_disk : List Entry → Option DiskStats
find_disk [] = some no_disk_stats
find_disk (e ∷ es) =
    let rest = find_disk es in
    if leb interface_name_size (length (device e))
    then none
    else if strcmp_eq (device e) (codes "sda")
    then some (stats_of e.row)
    else rest

pub scan_diskstats-line :
    (e : Entry) (lines : List Bytes)
    → IsEntry e
    → scan_diskstats (line_of e ∷ lines) ≡ (
        let rest = scan_diskstats lines in
        if leb interface_name_size (length (device e))
        then none
        else if strcmp_eq (device e) (codes "sda")
        then some (stats_of e.row)
        else rest)
unfolding scan_diskstats
scan_diskstats-line e lines h =
    rw (sscanf-disk_line e.blanks e.blanks' e.row e.tail h.fits h.ends, scan_diskstats) refl

scan_diskstats-find_disk :
    (es : List Entry) → All IsEntry es → scan_diskstats (diskstats_file es) ≡ find_disk es
unfolding find_disk
scan_diskstats-find_disk [] h = unfold scan_diskstats in refl
scan_diskstats-find_disk (e ∷ es) (h, hs) =
    rw (scan_diskstats-line e (diskstats_file es) h, scan_diskstats-find_disk es hs) refl

lines_of_entries :
    (es : List Entry) → All IsEntry es → All (IsLine diskstats_buffer_size) (diskstats_file es)
lines_of_entries [] h = tt
lines_of_entries (e ∷ es) (h, hs) = (h.line, lines_of_entries es hs)

-- On a file of entries in the kernel's layout that fit their variables and the line buffer, the
-- program finds the counters of the first entry named "sda", zeros if there is none; it writes past
-- `device_name` exactly if a name of 32 bytes or more comes before.
pub get_disk_stats-find_disk :
    (es : List Entry)
    → All IsEntry es
    → get_disk_stats (some (flatten (diskstats_file es))) ≡ find_disk es
unfolding get_disk_stats
get_disk_stats-find_disk es h =
    rw (read_lines-flatten diskstats_buffer_size (diskstats_file es) (lines_of_entries es h))
      (scan_diskstats-find_disk es h)

fits_buffer : (n : ℕ) → n < interface_name_size → leb interface_name_size n ≡ false
fits_buffer n h = ground arith

pub find_disk_safe :
    (es : List Entry)
    → All (λ e. length (device e) < interface_name_size) es
    → (stats : DiskStats) × (find_disk es ≡ some stats)
unfolding find_disk
find_disk_safe [] h = (no_disk_stats, refl)
find_disk_safe (e ∷ es) (h, hs) =
    let rest = find_disk_safe es hs in
    let short = fits_buffer (length (device e)) h in
    elim (Bool-cases (strcmp_eq (device e) (codes "sda"))) [
      | inl found ↦ (stats_of e.row, rw (short, found))
      | inr other ↦ (rest.0, rw (short, other) rest.1)
    ]

-- With names of at most 31 bytes, as the kernel's are, the program returns a result.
pub get_disk_stats_safe :
    (es : List Entry)
    → All IsEntry es
    → All (λ e. length (device e) < interface_name_size) es
    → (stats : DiskStats) × (get_disk_stats (some (flatten (diskstats_file es))) ≡ some stats)
get_disk_stats_safe es h short = rw (get_disk_stats-find_disk es h) (find_disk_safe es short)
