-- ===== src/Metrics/Memory/Reading.antt =====
-- `get_memory_usage` on a file in the kernel's layout, and on any file.
use monitor_program.Base.{
  ℕ, ◌-◌, ◌≤◌, ◌<◌, ◌≡◌, refl, ap, arith, true, false, none, some, List, [], ◌∷◌, ◌++◌, Bytes,
  codes, All,
}
use monitor_program.Libc.Word.{modulus, sub64_exact}
use monitor_program.Libc.Stream.{read_lines, IsLine}
use monitor_program.Libc.Stream.Append.{ends_line, read_lines-append, read_lines-line}
use monitor_program.Libc.Scan.{space, unsigned, sscanf, literal}
use monitor_program.Libc.Scan.Decimal.{decimal, padded}
use monitor_program.Libc.Scan.Runs.{starts_with, sscanf-bytes_ne, sscanf-labelled}
use monitor_program.Double.{Double, percentage}
use monitor_program.Metrics.Memory.{
  meminfo_buffer_size, total_format, available_format, first_number, scan_meminfo, memory_percent,
  get_memory_usage,
}

-- A line of /proc/meminfo: a name with its colon, blanks, a number, and the unit.
abbrev pub entry : Bytes → ℕ → ℕ → Bytes
entry name blanks n = name ++ padded blanks (decimal n (codes " kB\n"))

abbrev pub total_name : Bytes
total_name = codes "MemTotal:"

abbrev pub available_name : Bytes
available_name = codes "MemAvailable:"

-- A line that carries neither of the two entries.
pub record IsOther (line : Bytes) : Type 0 where
  pub no_total : starts_with line total_name ≡ false
  pub no_available : starts_with line available_name ≡ false

-- The formats read the entries that they name.
total_of_entry :
    (blanks n : ℕ)
    → n < modulus
    → first_number (sscanf total_format (entry total_name blanks n)) ≡ some n
total_of_entry blanks n h =
    ap first_number
      (sscanf-labelled (space ∷ literal "kB") blanks n (codes " kB\n") refl total_name h)

available_of_entry :
    (blanks n : ℕ)
    → n < modulus
    → first_number (sscanf available_format (entry available_name blanks n)) ≡ some n
available_of_entry blanks n h =
    ap first_number
      (sscanf-labelled (space ∷ literal "kB") blanks n (codes " kB\n") refl available_name h)

-- An entry of available memory is no entry of total memory.
no_total_of_available :
    (blanks n : ℕ) → first_number (sscanf total_format (entry available_name blanks n)) ≡ none
no_total_of_available blanks n =
    ap first_number (sscanf-bytes_ne total_name (space ∷ unsigned 64 ∷ space ∷ literal "kB") _ refl)

module _ (line : Bytes) (h : IsOther line) where
  no_total_of_other : first_number (sscanf total_format line) ≡ none
  no_total_of_other =
      ap first_number
        (sscanf-bytes_ne total_name (space ∷ unsigned 64 ∷ space ∷ literal "kB") line h.no_total)

  no_available_of_other : first_number (sscanf available_format line) ≡ none
  no_available_of_other = ap first_number (
      sscanf-bytes_ne available_name (space ∷ unsigned 64 ∷ space ∷ literal "kB") line
        h.no_available)

-- Lines with neither entry leave both variables alone.
pub scan_meminfo-other :
    (others lines : List Bytes) (total free : ℕ)
    → All IsOther others
    → scan_meminfo (others ++ lines) total free ≡ scan_meminfo lines total free
unfolding scan_meminfo
scan_meminfo-other [] lines total free h = refl
scan_meminfo-other (line ∷ others) lines total free (h, hs) =
    rw (no_total_of_other line h, no_available_of_other line h, scan_meminfo)
      (scan_meminfo-other others lines total free hs)

module _ (blanks n : ℕ) (fits : n < modulus) (lines : List Bytes) (total free : ℕ) where
  pub scan_meminfo-total :
      scan_meminfo (entry total_name blanks n ∷ lines) total free ≡ scan_meminfo lines n free
  unfolding scan_meminfo
  scan_meminfo-total = rw (total_of_entry blanks n fits, scan_meminfo)

  pub scan_meminfo-available :
      scan_meminfo (entry available_name blanks n ∷ lines) total free ≡ (total, n)
  unfolding scan_meminfo
  scan_meminfo-available =
      rw (no_total_of_available blanks n, available_of_entry blanks n fits, scan_meminfo)

-- A file in the kernel's layout: other lines, the total, other lines, the available memory, and
-- anything else. Lines longer than the buffer may stand in `before` and `between`.
abbrev pub meminfo_file : Bytes → ℕ → ℕ → Bytes → ℕ → ℕ → Bytes → Bytes
meminfo_file before blanks total between blanks' available after =
    before
    ++ (entry total_name blanks total
        ++ (between ++ (entry available_name blanks' available ++ after)))

abbrev pub OtherLines : Bytes → Type 0
OtherLines s = (ends_line s ≡ true) × All IsOther (read_lines meminfo_buffer_size s)

abbrev pub EntryLine : Bytes → ℕ → ℕ → Type 0
EntryLine name blanks n = (n < modulus) × IsLine meminfo_buffer_size (entry name blanks n)

pub scan_meminfo-file :
    (before : Bytes) (blanks total : ℕ) (between : Bytes) (blanks' available : ℕ) (after : Bytes)
    → OtherLines before
    → EntryLine total_name blanks total
    → OtherLines between
    → EntryLine available_name blanks' available
    → scan_meminfo
        (read_lines meminfo_buffer_size
          (meminfo_file before blanks total between blanks' available after))
        0
        0
      ≡ (total, available)
scan_meminfo-file before blanks total between blanks' available after hb ht hc ha = rw (
  read_lines-append meminfo_buffer_size before _ (omega arith) hb.0,
  scan_meminfo-other _ _ 0 0 hb.1,
  read_lines-line meminfo_buffer_size _ _ (omega arith) ht.1,
  scan_meminfo-total blanks total ht.0,
  read_lines-append meminfo_buffer_size between _ (omega arith) hc.0,
  scan_meminfo-other _ _ total 0 hc.1,
  read_lines-line meminfo_buffer_size _ _ (omega arith) ha.1,
  scan_meminfo-available blanks' available ha.0,
)

module _ (F : Double) where
  memory_percent_exact :
      (total available : ℕ)
      → 0 < available
      → available ≤ total
      → total < modulus
      → memory_percent F total available ≡ percentage F (total - available) total
  unfolding memory_percent
  memory_percent_exact total available present le lt =
      rw (← sub64_exact total available le lt) (ground arith)

  -- From a file in the kernel's layout, whose two entries fit the buffer and 64 bits and have
  -- 0 < available ≤ total, the usage is (total - available) / total * 100, with no wrap-around.
  pub get_memory_usage_exact :
      (before : Bytes) (blanks total : ℕ) (between : Bytes) (blanks' available : ℕ) (after : Bytes)
      → OtherLines before
      → EntryLine total_name blanks total
      → OtherLines between
      → EntryLine available_name blanks' available
      → 0 < available
      → available ≤ total
      → get_memory_usage F (some (meminfo_file before blanks total between blanks' available after))
        ≡ percentage F (total - available) total
  unfolding get_memory_usage
  get_memory_usage_exact before blanks total between blanks' available after hb ht hc ha present
        le =
      rw (scan_meminfo-file before blanks total between blanks' available after hb ht hc ha)
        (memory_percent_exact total available present le ht.0)
