-- ===== src/Tests/Small.antt =====
-- A small memory library, files and a monitor, for the runs of the program.
use monitor_program.Base.{
  ℕ, ◌+◌, ◌*◌, ◌%◌, refl, arith, true, false, Option, none, some, List, [], Bytes, codes, replicate,
}
use monitor_program.Base.Int.{pos}
use monitor_program.Double.Rational.{rational}
use monitor_program.Metrics.Cpu.{CpuState, initial_cpu_state}
use monitor_program.Expose.Update.{zero_value}
use monitor_program.Expose.Init.{Faults}
use monitor_program.Json.{Proc, Field}
use monitor_program.Simulation.{Library, Row, SimulationState}
use monitor_program.Simulation.Bounds.{AllValid}
use monitor_program.Main.{Monitor}

-- A heap that gives out addresses in turn, and a linear congruence for the random numbers.
abbrev pub bump : Library
bump = record {
  Heap = ℕ;
  Ptr = ℕ;
  malloc_control = λ p h. h;
  my_malloc = λ n h. (some h, h + n);
  my_free = λ p h. h;
  Seed = ℕ;
  rand = λ s. (s, (s * 5 + 3) % 64);
}

abbrev pub empty_row : Row bump
empty_row = record { blocks = replicate 100 none; num_allocated = 0 }

abbrev pub start : SimulationState bump
start = record { heap = 4096; seed = 2; rows = λ p. empty_row }

pub start-AllValid : AllValid bump start
start-AllValid p = record { room = refl; within = omega arith; filled = tt }

abbrev pub nothing : Proc
nothing = record {
  stat = none;
  meminfo = none;
  diskstats = none;
  net_dev = none;
  loadavg = none;
  stat_later = none;
  garbage = [];
}

abbrev pub print : List (Field rational) → Option Bytes
print fs = some (codes "{}")

abbrev pub cpu_start : CpuState rational
cpu_start = initial_cpu_state rational

abbrev pub monitor : Monitor rational bump
monitor = record {
  disable_unmapping = λ h. h;
  fragmentation = λ h rates. rates;
  stats = λ h. record {
    count = λ p. pos 1;
    allocation_count = λ p. pos 1;
    allocation_time = λ p. zero_value rational;
  };
  print = print;
}

abbrev pub faults : Faults
faults = record {
  mutex = true;
  registry = false;
  null = λ g. false;
  returned = λ g. true;
  halts = λ g. false;
  exit_status = 1;
}
