-- ===== src/Metrics/Disk/Line.antt =====
-- A line of /proc/diskstats, and what the format of `get_disk_stats` makes of it.
use monitor_program.Base.{ℕ, suc, ◌<◌, ◌^◌, ◌≡◌, refl, true, List, [], ◌∷◌, ◌++◌, Bytes}
use monitor_program.Libc.Word.{modulus}
use monitor_program.Libc.Scan.{Value, number, text, sscanf}
use monitor_program.Libc.Scan.Decimal.{decimal, stops, padded}
use monitor_program.Libc.Scan.Runs.{
  sscanf-unsigned_32, sscanf-space_unsigned, sscanf-space, sscanf-nil, skip_space-blanks_decimal,
}
use monitor_program.Libc.Scan.Fields.{NoSpace, sscanf-space_word}
use monitor_program.Metrics.Disk.{disk_format}

-- The columns of a line of /proc/diskstats that the program reads.
pub record DiskRow : Type 0 where
  pub major : ℕ
  pub minor : ℕ
  pub initial : ℕ
  pub name : Bytes  -- behind its first byte, `initial`
  pub rd_ios : ℕ
  pub rd_merges : ℕ
  pub rd_sectors : ℕ
  pub rd_ticks : ℕ
  pub wr_ios : ℕ
  pub wr_merges : ℕ
  pub wr_sectors : ℕ
  pub wr_ticks : ℕ

-- "%4d %7d %s %lu %lu %lu %u %lu %lu %lu %u ..." of the kernel, with any blanks in front of the two
-- numbers of the device.
abbrev pub disk_line : ℕ → ℕ → DiskRow → Bytes → Bytes
disk_line blanks blanks' r rest = padded blanks (
    decimal r.major (
      padded (suc blanks') (
        decimal r.minor (
          padded 1 (
            (r.initial ∷ r.name)
            ++ padded 1 (
                decimal r.rd_ios (
                  padded 1 (
                    decimal r.rd_merges (
                      padded 1 (
                        decimal r.rd_sectors (
                          padded 1 (
                            decimal r.rd_ticks (
                              padded 1 (
                                decimal r.wr_ios (
                                  padded 1 (
                                    decimal r.wr_merges (
                                      padded 1 (
                                        decimal r.wr_sectors
                                          (padded 1 (decimal r.wr_ticks rest))))))))))))))))))))

-- The device numbers fit an `unsigned int`, the counters an `unsigned long long`, and the name has
-- no white space.
pub record Fits (r : DiskRow) : Type 0 where
  pub major : r.major < 2 ^ 32
  pub minor : r.minor < 2 ^ 32
  pub name : NoSpace (r.initial ∷ r.name)
  pub rd_ios : r.rd_ios < modulus
  pub rd_merges : r.rd_merges < modulus
  pub rd_sectors : r.rd_sectors < modulus
  pub rd_ticks : r.rd_ticks < modulus
  pub wr_ios : r.wr_ios < modulus
  pub wr_merges : r.wr_merges < modulus
  pub wr_sectors : r.wr_sectors < modulus
  pub wr_ticks : r.wr_ticks < modulus

abbrev pub columns : DiskRow → List Value
columns r =
    number r.major
    ∷ number r.minor
    ∷ text (r.initial ∷ r.name)
    ∷ number r.rd_ios
    ∷ number r.rd_merges
    ∷ number r.rd_sectors
    ∷ number r.rd_ticks
    ∷ number r.wr_ios
    ∷ number r.wr_merges
    ∷ number r.wr_sectors
    ∷ number r.wr_ticks
    ∷ []

pub sscanf-disk_line :
    (blanks blanks' : ℕ) (r : DiskRow) (rest : Bytes)
    → Fits r
    → stops rest ≡ true
    → sscanf disk_format (disk_line blanks blanks' r rest) ≡ columns r
sscanf-disk_line blanks blanks' r rest h e = rw (
  sscanf-unsigned_32 _ blanks r.major _ refl h.major,
  sscanf-space,
  skip_space-blanks_decimal (suc blanks') r.minor,
  sscanf-unsigned_32 _ 0 r.minor _ refl h.minor,
  sscanf-space_word _ 1 r.initial r.name _ 32 h.name refl,
  sscanf-space_unsigned _ 1 r.rd_ios _ refl h.rd_ios,
  sscanf-space_unsigned _ 1 r.rd_merges _ refl h.rd_merges,
  sscanf-space_unsigned _ 1 r.rd_sectors _ refl h.rd_sectors,
  sscanf-space_unsigned _ 1 r.rd_ticks _ refl h.rd_ticks,
  sscanf-space_unsigned _ 1 r.wr_ios _ refl h.wr_ios,
  sscanf-space_unsigned _ 1 r.wr_merges _ refl h.wr_merges,
  sscanf-space_unsigned _ 1 r.wr_sectors _ refl h.wr_sectors,
  sscanf-space_unsigned [] 1 r.wr_ticks rest e h.wr_ticks,
  sscanf-nil rest,
)
