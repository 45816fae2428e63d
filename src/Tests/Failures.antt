-- ===== src/Tests/Failures.antt =====
-- Files with entries missing or out of range, and other readings that fail.
use monitor_program.Base.{◌-◌, ◌≡◌, refl, arith, true, some, [], ◌∷◌, ◌++◌, Bytes, codes}
use monitor_program.Base.Int.{negsuc}
use monitor_program.Libc.Word.{modulus}
use monitor_program.Libc.Stream.{fgets, read_lines, is_line}
use monitor_program.Libc.Scan.Decimal.{decimal}
use monitor_program.Double.{of_ull, percentage}
use monitor_program.Double.Rational.{rational, rational-IsLawful}
use monitor_program.Metrics.Memory.{get_memory_usage}
use monitor_program.Metrics.Memory.Reading.{
  entry, total_name, available_name, meminfo_file, OtherLines,
}
use monitor_program.Metrics.Memory.Errors.{get_memory_usage_wraps, get_memory_usage_missing}
use monitor_program.Metrics.Network.{get_network_stats}
use monitor_program.Metrics.Network.Garbage.{get_network_stats_garbage}

abbrev other_line : Bytes
other_line = codes "MemFree:  8000 kB\n"

other_line-OtherLines : OtherLines other_line
unfolding read_lines fgets
other_line-OtherLines = (refl, (record { no_total = refl; no_available = refl }, tt))

get_memory_usage_wraps_example :
    let value = percentage rational (modulus - (4096 - 4000)) 4000 in
    (get_memory_usage rational (some (meminfo_file [] 7 4000 other_line 3 4096 other_line)) ≡ value)
    × (rational.le (of_ull rational 100) value ≡ true)
unfolding decimal is_line read_lines
get_memory_usage_wraps_example =
    get_memory_usage_wraps rational rational-IsLawful [] 7 4000 other_line 3 4096 other_line
      (refl, tt) (omega arith, refl) other_line-OtherLines (omega arith, refl) (omega arith)
      (omega arith)

get_memory_usage_missing_example :
    (get_memory_usage rational (some ([] ++ (entry total_name 7 4000 ++ other_line)))
      ≡ rational.of_int (negsuc 0))
    × (get_memory_usage rational (some ([] ++ (entry available_name 3 2000 ++ other_line)))
        ≡ rational.of_int (negsuc 0))
unfolding decimal is_line read_lines
get_memory_usage_missing_example =
    get_memory_usage_missing rational [] 7 4000 3 2000 other_line (refl, tt) (omega arith, refl)
      (omega arith, refl) other_line-OtherLines

get_network_stats_garbage_example :
    get_network_stats (codes "eth0") (codes "eth0") (some (b'I' ∷ codes "nter-|\neth0: 1 2\n"))
    ≡ get_network_stats [] (codes "eth0") (some (b'I' ∷ codes "nter-|\neth0: 1 2\n"))
get_network_stats_garbage_example =
    get_network_stats_garbage (codes "eth0") b'I' (codes "nter-|\neth0: 1 2\n") (codes "eth0") []
      refl
