-- ===== src/Tests/Kernel.antt =====
-- Files that the kernel prints, all read at once, and counters that it takes back.
use monitor_program.Base.{◌<◌, ◌≡◌, refl, arith, false, true, some, List, [], ◌∷◌, codes}
use monitor_program.Base.Int.{pos}
use monitor_program.Libc.Stream.{fgets, read_lines, is_line}
use monitor_program.Libc.Text.{strcmp_eq}
use monitor_program.Libc.Scan.{sscanf, convert, run}
use monitor_program.Libc.Scan.Decimal.{decimal}
use monitor_program.Double.{of_ull, percentage}
use monitor_program.Double.Rational.{rational, rational-IsLawful}
use monitor_program.Metrics.Cpu.{CpuTimes, CpuState, cpu_step}
use monitor_program.Metrics.Cpu.Backwards.{cpu_step_backwards}
use monitor_program.Metrics.Disk.{DiskStats}
use monitor_program.Metrics.Disk.Reading.{find_disk}
use monitor_program.Json.{JsonCall, pipe_error, send_metrics_as_json}
use monitor_program.Json.Effects.{written, shown}
use monitor_program.Json.Kernel.{Snapshot, files, IsKernel, send_metrics_as_json-files}
use monitor_program.Main.{ProgramState, Run, main}
use monitor_program.Expose.Init.{goes_on, init_metrics}
use monitor_program.Main.Sent.{sent_of}
use monitor_program.Main.Kernel.{rounds_of, main_kernel}
use monitor_program.Tests.Small.{print, bump, start, start-AllValid, monitor, faults}
use monitor_program.Tests.Readings.{
  other_line, later_times, cpu_state, disk_entry, disk_entry-IsEntry, loop_entry,
  loop_entry-IsEntry, load, loadavg-IsLoadavg,
}
use monitor_program.Tests.Network.{titles, wifi, wifi-IsEntry, loopback, loopback-IsEntry}

-- 5 ticks more of iowait than in `later_times`, and 20 less of user time.
abbrev more_iowait : CpuTimes
more_iowait = record later_times { user = 0; iowait = 6 }

abbrev after_iowait : CpuState rational
after_iowait = record { prev = more_iowait; percent = rational.of_int (pos 20) }

-- 20 ticks were busy, of 15 that passed.
cpu_step_backwards_example :
    (cpu_step rational later_times after_iowait ≡ (
      percentage rational 20 15,
      record { prev = later_times; percent = percentage rational 20 15 },
    ))
    × (15 < 20)
    × (rational.le (of_ull rational 100) (percentage rational 20 15) ≡ true)
cpu_step_backwards_example =
    cpu_step_backwards rational rational-IsLawful later_times after_iowait (omega arith)
      (omega arith) (omega arith) (omega arith)

abbrev pub snapshot : Snapshot
snapshot = record {
  times = later_times;
  stat_rest = codes " 0 0\n";
  stat_more = codes "intr 5\n";
  memory_before = [];
  total_blanks = 7;
  total = 16000;
  memory_between = other_line;
  available_blanks = 3;
  available = 4000;
  memory_after = other_line;
  disks = loop_entry ∷ disk_entry ∷ [];
  titles = titles;
  interfaces = loopback ∷ wifi ∷ [];
  load_1 = load;
  load_5 = load;
  load_15 = load;
  running = 3;
  processes = 417;
  load_rest = codes " 9021\n";
  load_more = [];
  switches_before = codes "cpu 1 2\nintr 9 9\n";
  switches = 4321;
  switches_after = codes "btime 1\n";
  garbage = [];
}

pub snapshot-IsKernel : IsKernel snapshot
unfolding decimal is_line read_lines fgets sscanf convert run strcmp_eq
snapshot-IsKernel = record {
  times = omega arith;
  stat_ends = refl;
  stat_line = refl;
  memory_before = (refl, tt);
  total = (omega arith, refl);
  memory_between = (refl, (record { no_total = refl; no_available = refl }, tt));
  available = (omega arith, refl);
  some_memory = omega arith;
  less_memory = omega arith;
  disks = (loop_entry-IsEntry, (disk_entry-IsEntry, tt));
  short = omega arith;
  titles_end = refl;
  titles = (record { at = refl {a = false} }, (record { at = refl {a = false} }, tt));
  interfaces = (loopback-IsEntry, (wifi-IsEntry, tt));
  loadavg = loadavg-IsLoadavg;
  switches_before = (refl, (refl, (refl, tt)));
  switches = omega arith;
  switches_line = refl;
}

-- The disk's entry is the second one, and the interface's too.
send_metrics_as_json-files_example :
    (disk : DiskStats) × (cs : List JsonCall) × (find_disk (loop_entry ∷ disk_entry ∷ [])
      ≡ some disk)
    × (send_metrics_as_json rational print true (files snapshot) cpu_state
        ≡ some (cs, record { prev = later_times; percent = percentage rational 10 40 }))
    × (written cs ≡ codes "{}" ∷ [])
send_metrics_as_json-files_example =
    send_metrics_as_json-files rational snapshot snapshot-IsKernel cpu_state print true
      (omega arith) (omega arith)

-- A second later: five ticks more, two of them busy.
abbrev second : Snapshot
second = record snapshot { times = record later_times { user = 22; idle = 113 } }

second-IsKernel : IsKernel second
unfolding decimal is_line
second-IsKernel =
    let h = snapshot-IsKernel in
    record {
      times = omega arith;
      stat_ends = refl;
      stat_line = refl;
      memory_before = h.memory_before;
      total = h.total;
      memory_between = h.memory_between;
      available = h.available;
      some_memory = h.some_memory;
      less_memory = h.less_memory;
      disks = h.disks;
      short = h.short;
      titles_end = h.titles_end;
      titles = h.titles;
      interfaces = h.interfaces;
      loadavg = h.loadavg;
      switches_before = h.switches_before;
      switches = h.switches;
      switches_line = h.switches_line;
    }

-- And another one: ten ticks more, none of them busy.
abbrev third : Snapshot
third = record snapshot { times = record later_times { user = 22; idle = 123 } }

third-IsKernel : IsKernel third
unfolding decimal is_line
third-IsKernel =
    let h = snapshot-IsKernel in
    record {
      times = omega arith;
      stat_ends = refl;
      stat_line = refl;
      memory_before = h.memory_before;
      total = h.total;
      memory_between = h.memory_between;
      available = h.available;
      some_memory = h.some_memory;
      less_memory = h.less_memory;
      disks = h.disks;
      short = h.short;
      titles_end = h.titles_end;
      titles = h.titles;
      interfaces = h.interfaces;
      loadavg = h.loadavg;
      switches_before = h.switches_before;
      switches = h.switches;
      switches_line = h.switches_line;
    }

abbrev program : ProgramState rational bump monitor
program = record { simulation = start; cpu = cpu_state }

-- Three rounds; in the second the pipe does not open.
main_kernel_example :
    (r : Run rational bump monitor) × (main rational bump monitor faults true
        (rounds_of ((true, snapshot) ∷ (false, second) ∷ (true, third) ∷ []))
        program
      ≡ some (0, r))
    × (written (sent_of rational r.calls) ≡ codes "{}" ∷ codes "{}" ∷ [])
    × (shown (sent_of rational r.calls) ≡ pipe_error ∷ [])
main_kernel_example =
    main_kernel rational bump monitor faults
      ((true, snapshot) ∷ (false, second) ∷ (true, third) ∷ []) program
      (unfold goes_on init_metrics in refl) start-AllValid
      (
        snapshot-IsKernel,
        omega arith,
        omega arith,
        (second-IsKernel, omega arith, omega arith, (third-IsKernel, omega arith, omega arith, tt)),
      )
