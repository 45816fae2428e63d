-- ===== src/Metrics/Cpu/Reading.antt =====
-- `get_cpu_usage` on a file: its errors, the kernel's first line, and any sequence of calls.
use monitor_program.Base.{
  ◌≡◌, refl, arith, true, Option, none, some, List, [], ◌∷◌, ◌++◌, Bytes, codes,
}
use monitor_program.Libc.Stream.{fgets, IsLine}
use monitor_program.Libc.Stream.Rounds.{fgets-append}
use monitor_program.Libc.Scan.{Value, number, sscanf}
use monitor_program.Libc.Scan.Decimal.{decimal, stops, padded}
use monitor_program.Libc.Scan.Runs.{sscanf-labelled, sscanf-space_unsigned, sscanf-nil}
use monitor_program.Double.{Double, IsLawful, Within}
use monitor_program.Metrics.Cpu.{
  stat_buffer_size, cpu_format, CpuTimes, CpuState, cpu_times, cpu_step, get_cpu_usage,
  initial_cpu_state,
}
use monitor_program.Double.Range.{of_ull-Within}
use monitor_program.Metrics.Cpu.Step.{Later, Later-refl, Fits, IsValid, cpu_step-IsValid}

-- The counters that a call finds in the file, if it finds them.
unfoldable pub sample : Option Bytes → Option CpuTimes
sample none = none
sample (some content) = elim (fgets stat_buffer_size content) [
  | none ↦ none
  | some r ↦ cpu_times (sscanf cpu_format r.0)
]

-- A call with counters is a step; a call without returns the percentage kept.
abbrev pub step_or_hold : (F : Double) → Option CpuTimes → CpuState F → F.Carrier × CpuState F
step_or_hold F none s = (s.percent, s)
step_or_hold F (some now) s = cpu_step F now s

-- A call is a step if it finds the counters. If the file does not open, is empty or does not
-- parse, it returns the percentage of the call before and changes nothing.
pub get_cpu_usage-sample :
    (F : Double) (file : Option Bytes) (s : CpuState F)
    → get_cpu_usage F file s ≡ step_or_hold F (sample file) s
unfolding get_cpu_usage sample
get_cpu_usage-sample F none s = refl
get_cpu_usage-sample F (some content) s = ground arith

-- The first line of /proc/stat, up to the counter `steal`.
abbrev pub cpu_line : CpuTimes → Bytes → Bytes
cpu_line t rest =
    codes "cpu"
    ++ padded 2 (
        decimal t.user (
          padded 1 (
            decimal t.nice (
              padded 1 (
                decimal t.system (
                  padded 1 (
                    decimal t.idle (
                      padded 1 (
                        decimal t.iowait (
                          padded 1 (
                            decimal t.irq (
                              padded 1
                                (decimal t.softirq (padded 1 (decimal t.steal rest)))))))))))))))

abbrev values : CpuTimes → List Value
values t =
    number t.user
    ∷ number t.nice
    ∷ number t.system
    ∷ number t.idle
    ∷ number t.iowait
    ∷ number t.irq
    ∷ number t.softirq
    ∷ number t.steal
    ∷ []

sscanf-cpu_line :
    (t : CpuTimes) (rest : Bytes)
    → Fits t
    → stops rest ≡ true
    → sscanf cpu_format (cpu_line t rest) ≡ values t
sscanf-cpu_line t rest fits h = rw (
  sscanf-labelled _ 2 t.user _ refl (codes "cpu") (omega arith),
  sscanf-space_unsigned _ 1 t.nice _ refl (omega arith),
  sscanf-space_unsigned _ 1 t.system _ refl (omega arith),
  sscanf-space_unsigned _ 1 t.idle _ refl (omega arith),
  sscanf-space_unsigned _ 1 t.iowait _ refl (omega arith),
  sscanf-space_unsigned _ 1 t.irq _ refl (omega arith),
  sscanf-space_unsigned _ 1 t.softirq _ refl (omega arith),
  sscanf-space_unsigned [] 1 t.steal rest h (omega arith),
  sscanf-nil rest,
)

-- A file that begins with the kernel's line for `t` gives the counters of `t`.
pub sample-cpu_line :
    (t : CpuTimes) (rest more : Bytes)
    → Fits t
    → stops rest ≡ true
    → IsLine stat_buffer_size (cpu_line t rest)
    → sample (some (cpu_line t rest ++ more)) ≡ some t
unfolding sample cpu_times
sample-cpu_line t rest more fits h line =
    rw (fgets-append stat_buffer_size (cpu_line t rest) more line, sample)
      (rw (sscanf-cpu_line t rest fits h, cpu_times) refl)

-- The state after a sequence of calls, each with the file as it then is.
abbrev pub cpu_after : (F : Double) → List (Option Bytes) → CpuState F → CpuState F
cpu_after F [] s = s
cpu_after F (file ∷ files) s = cpu_after F files (get_cpu_usage F file s).1

-- Of the counters found in a sequence of files, none goes back behind those before, and each set
-- fits 64 bits. Files without counters may stand between.
abbrev pub Advances : CpuTimes → Option CpuTimes → (CpuTimes → Type 0) → Type 0
Advances last none rest = rest last
Advances last (some now) rest = Later last now × Fits now × rest now

abbrev pub Growing : List (Option Bytes) → CpuTimes → Type 0
Growing [] last = Unit {0}
Growing (file ∷ files) last = Advances last (sample file) (Growing files)

module _ (F : Double) (laws : IsLawful F) where
  -- One call, then the others; the call returns the percentage that it keeps.
  pub get_cpu_usage_then :
      (o : Option CpuTimes) (last : CpuTimes) (s : CpuState F) (rest : CpuTimes → Type 0)
      → IsValid F last s
      → Advances last o rest
      → (next : CpuTimes) × IsValid F next (step_or_hold F o s).1
        × rest next
        × ((step_or_hold F o s).0 ≡ (step_or_hold F o s).1.percent)
  get_cpu_usage_then none last s rest v h = (last, v, h, refl)
  get_cpu_usage_then (some now) last s rest v (later, fits, h) =
      let step = cpu_step-IsValid F laws last now s v later fits in (now, step.0, h, step.1)

  cpu_after-IsValid :
      (files : List (Option Bytes)) (last : CpuTimes) (s : CpuState F)
      → IsValid F last s
      → Growing files last
      → Within F 0 100 (cpu_after F files s).percent
  cpu_after-IsValid [] last s v h = v.in_range
  cpu_after-IsValid (file ∷ files) last s v h =
      let step = get_cpu_usage_then (sample file) last s (Growing files) v h in
      rw (get_cpu_usage-sample F file s, cpu_after) (cpu_after-IsValid files step.0 _ step.1 step.2)

  -- From the program's start, over any sequence of calls, failing ones among them, the percentage
  -- lies between 0 and 100, if no counter goes back and their sums fit 64 bits.
  pub cpu_after_range :
      (files : List (Option Bytes))
      → Growing files (initial_cpu_state F).prev
      → Within F 0 100 (cpu_after F files (initial_cpu_state F)).percent
  cpu_after_range files h =
      cpu_after-IsValid files (initial_cpu_state F).prev (initial_cpu_state F)
        (record {
          in_range = unfold initial_cpu_state in of_ull-Within F laws 0 100 (omega arith);
          behind = Later-refl _;
        })
        h
