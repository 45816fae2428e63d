-- ===== src/Tests/Readings.antt =====
-- The readings of /proc on short files.
use monitor_program.Base.{◌-◌, ◌≡◌, refl, arith, none, some, [], ◌∷◌, ◌++◌, Bytes, codes, ◌⊎◌}
use monitor_program.Base.Int.{pos, negsuc}
use monitor_program.Libc.Stream.{fgets, read_lines, is_line}
use monitor_program.Libc.Scan.{sscanf, convert, run}
use monitor_program.Libc.Scan.Decimal.{decimal}
use monitor_program.Double.{Within, percentage}
use monitor_program.Double.Rational.{rational, rational-IsLawful}
use monitor_program.Metrics.Memory.{scan_meminfo, get_memory_usage}
use monitor_program.Metrics.Memory.Reading.{meminfo_file, get_memory_usage_exact}
use monitor_program.Metrics.Memory.Bounds.{get_memory_usage_bounds}
use monitor_program.Metrics.Cpu.{CpuTimes, CpuState, cpu_times, cpu_step, initial_cpu_state}
use monitor_program.Metrics.Cpu.Step.{cpu_step_exact}
use monitor_program.Metrics.Cpu.Reading.{
  cpu_line, sample, cpu_after, cpu_after_range, sample-cpu_line,
}
use monitor_program.Metrics.Disk.Line.{DiskRow}
use monitor_program.Metrics.Disk.Reading
use monitor_program.Metrics.Processes.{get_running_processes}
use monitor_program.Metrics.Processes.Reading.{
  Average, loadavg_line, IsLoadavg, get_running_processes_exact,
}
use monitor_program.Metrics.ContextSwitches.{get_context_switches}
use monitor_program.Metrics.ContextSwitches.Reading.{ctxt_line, get_context_switches_exact}

abbrev pub other_line : Bytes
other_line = codes "MemFree:  8000 kB\n"

get_memory_usage_exact_example :
    get_memory_usage rational (some (meminfo_file [] 7 16000 other_line 3 4000 other_line))
    ≡ percentage rational (16000 - 4000) 16000
unfolding read_lines decimal is_line fgets
get_memory_usage_exact_example =
    get_memory_usage_exact rational [] 7 16000 other_line 3 4000 other_line (refl, tt)
      (omega arith, refl) (refl, (record { no_total = refl; no_available = refl }, tt))
      (omega arith, refl) (omega arith) (omega arith)

abbrev meminfo : Bytes
meminfo = codes "MemTotal: 100 kB\nMemAvailable: 25 kB\n"

get_memory_usage_bounds_example :
    (get_memory_usage rational (some meminfo) ≡ rational.of_int (negsuc 0))
    ⊎ Within rational 0 100 (get_memory_usage rational (some meminfo))
unfolding scan_meminfo read_lines fgets sscanf convert run
get_memory_usage_bounds_example =
    get_memory_usage_bounds rational rational-IsLawful (some meminfo) (omega arith)

abbrev pub times : CpuTimes
times = record {
  user = 10;
  nice = 0;
  system = 5;
  idle = 80;
  iowait = 1;
  irq = 2;
  softirq = 1;
  steal = 1;
}

abbrev pub stat : Bytes
stat = cpu_line times (codes " 0 0\n")

abbrev pub later_times : CpuTimes
later_times = record {
  user = 20;
  nice = 0;
  system = 5;
  idle = 110;
  iowait = 1;
  irq = 2;
  softirq = 1;
  steal = 1;
}

abbrev pub cpu_state : CpuState rational
cpu_state = record { prev = times; percent = rational.of_int (pos 20) }

-- 10 of 40 ticks were not idle.
cpu_step_exact_example : cpu_step rational later_times cpu_state ≡ (
  percentage rational 10 40,
  record { prev = later_times; percent = percentage rational 10 40 },
)
cpu_step_exact_example = cpu_step_exact rational later_times cpu_state (omega arith) (omega arith)

sample-cpu_line_example : sample (some (stat ++ codes "intr 5\n")) ≡ some times
unfolding decimal is_line
sample-cpu_line_example =
    sample-cpu_line times (codes " 0 0\n") (codes "intr 5\n") (omega arith) refl refl

cpu_after_range_example :
    Within rational 0 100
      (cpu_after rational (some stat ∷ none ∷ some stat ∷ []) (initial_cpu_state rational)).percent
unfolding sample fgets sscanf convert run cpu_times initial_cpu_state decimal
cpu_after_range_example =
    cpu_after_range rational rational-IsLawful (some stat ∷ none ∷ some stat ∷ []) (omega arith)

abbrev pub sda_row : DiskRow
sda_row = record {
  major = 8;
  minor = 0;
  initial = b's';
  name = codes "da";
  rd_ios = 5000;
  rd_merges = 1;
  rd_sectors = 2;
  rd_ticks = 300;
  wr_ios = 7000;
  wr_merges = 3;
  wr_sectors = 4;
  wr_ticks = 900;
}

abbrev pub disk_entry : Reading.Entry
disk_entry = record { row = sda_row; blanks = 3; blanks' = 6; tail = codes " 0 0\n" }

abbrev pub loop_entry : Reading.Entry
loop_entry = record {
  row = record sda_row { initial = b'l'; name = codes "oop0" };
  blanks = 3;
  blanks' = 6;
  tail = codes " 0 0\n";
}

pub disk_entry-IsEntry : Reading.IsEntry disk_entry
unfolding decimal is_line
disk_entry-IsEntry = record { fits = ground arith; ends = refl; line = refl }

pub loop_entry-IsEntry : Reading.IsEntry loop_entry
unfolding decimal is_line
loop_entry-IsEntry = record { fits = ground arith; ends = refl; line = refl }

abbrev pub load : Average
load = record { whole = 0; hundredths = 52 }

pub loadavg-IsLoadavg : IsLoadavg load load load 3 417 (codes " 9021\n")
unfolding decimal is_line
loadavg-IsLoadavg = record {
  first = omega arith;
  second = omega arith;
  third = omega arith;
  running_fits = omega arith;
  total_fits = omega arith;
  ends = refl;
  line = refl;
}

get_running_processes_exact_example :
    get_running_processes (some (loadavg_line load load load 3 417 (codes " 9021\n") ++ [])) ≡ pos 3
get_running_processes_exact_example =
    get_running_processes_exact load load load 3 417 (codes " 9021\n") [] loadavg-IsLoadavg

get_context_switches_exact_example :
    get_context_switches
      (some (codes "cpu 1 2\nintr 9 9\n" ++ (ctxt_line 4321 ++ codes "btime 1\n")))
    ≡ 4321
unfolding read_lines fgets decimal is_line
get_context_switches_exact_example =
    get_context_switches_exact (codes "cpu 1 2\nintr 9 9\n") 4321 (codes "btime 1\n")
      (refl, (refl, (refl, tt))) (omega arith) refl
