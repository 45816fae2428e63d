-- ===== src/Metrics/Cpu.antt =====
-- `get_cpu_usage` of src/metrics.c. Its `static` variables are a state that is passed on.
pub mod Step
pub mod Reading
pub mod Traced
pub mod Backwards
use monitor_program.Base.{
  ℕ, Bool, Option, none, some, List, [], ◌∷◌, ◌++◌, Bytes, replicate, ◌==◌, if◌then◌else◌,
}
use monitor_program.Base.Int.{pos}
use monitor_program.Libc.Word.{add64, sub64}
use monitor_program.Libc.Stream.{fgets}
use monitor_program.Libc.Scan.{Directive, space, unsigned, Value, number, sscanf, literal}
use monitor_program.Double.{Double, of_ull, percentage}

abbrev pub stat_buffer_size : ℕ
stat_buffer_size = 1024

-- "cpu  %llu %llu %llu %llu %llu %llu %llu %llu"
abbrev pub cpu_format : List Directive
cpu_format =
    literal "cpu"
    ++ (space
        ∷ unsigned 64
        ∷ space
        ∷ unsigned 64
        ∷ space
        ∷ unsigned 64
        ∷ space
        ∷ unsigned 64
        ∷ space
        ∷ unsigned 64
        ∷ space
        ∷ unsigned 64
        ∷ space
        ∷ unsigned 64
        ∷ space
        ∷ unsigned 64
        ∷ [])

pub record CpuTimes : Type 0 where
  pub user : ℕ
  pub nice : ℕ
  pub system : ℕ
  pub idle : ℕ
  pub iowait : ℕ
  pub irq : ℕ
  pub softirq : ℕ
  pub steal : ℕ

-- `none` where `sscanf` returns less than 8.
unfoldable pub cpu_times : List Value → Option CpuTimes
cpu_times
      (number user
        ∷ number nice
        ∷ number system
        ∷ number idle
        ∷ number iowait
        ∷ number irq
        ∷ number softirq
        ∷ number steal
        ∷ vs) =
    some (record {
      user = user;
      nice = nice;
      system = system;
      idle = idle;
      iowait = iowait;
      irq = irq;
      softirq = softirq;
      steal = steal;
    })
cpu_times vs = none

-- The sums are computed modulo 2 ^ 64, in the order of the source.
unfoldable pub idle_total : CpuTimes → ℕ
idle_total t = add64 t.idle t.iowait

unfoldable pub non_idle : CpuTimes → ℕ
non_idle t = add64 (add64 (add64 (add64 (add64 t.user t.nice) t.system) t.irq) t.softirq) t.steal

unfoldable pub total_time : CpuTimes → ℕ
total_time t = add64 (idle_total t) (non_idle t)

module _ (F : Double) where
  -- prev_user … prev_steal, and cpu_usage_percent.
  pub record CpuState : Type 0 where
    pub prev : CpuTimes
    pub percent : F.Carrier

  unfoldable pub initial_cpu_state : CpuState
  initial_cpu_state = record {
    prev = record {
      user = 0;
      nice = 0;
      system = 0;
      idle = 0;
      iowait = 0;
      irq = 0;
      softirq = 0;
      steal = 0;
    };
    percent = of_ull F 0;
  }

  -- What follows the parsing of the eight numbers.
  unfoldable pub cpu_step : CpuTimes → CpuState → F.Carrier × CpuState
  cpu_step now s =
      let totald = sub64 (total_time now) (total_time s.prev) in
      let idled = sub64 (idle_total now) (idle_total s.prev) in
      if totald == 0
      then (s.percent, s)
      else (let percent = percentage F (sub64 totald idled) totald in
          (percent, record { prev = now; percent = percent }))

  unfoldable pub get_cpu_usage : Option Bytes → CpuState → F.Carrier × CpuState
  get_cpu_usage none s = (s.percent, s)
  get_cpu_usage (some content) s = elim (fgets stat_buffer_size content) [
    | none ↦ (s.percent, s)
    | some r ↦ elim (cpu_times (sscanf cpu_format r.0)) [
      | none ↦ (s.percent, s)
      | some now ↦ cpu_step now s
    ]
  ]
