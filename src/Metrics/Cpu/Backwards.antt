-- ===== src/Metrics/Cpu/Backwards.antt =====
-- `get_cpu_usage` where the idle counters go back, as the kernel's iowait may.
use monitor_program.Base.{ℕ, ◌+◌, ◌-◌, ◌<◌, ◌≡◌, refl, ◌∙◌, arith, true, false, ◌==◌}
use monitor_program.Libc.Word.{modulus, sub64, sub64_exact, sub64_wraps}
use monitor_program.Double.{Double, IsLawful, of_ull}
use monitor_program.Double.Range.{percentage_above}
use monitor_program.Metrics.Cpu.{CpuTimes, CpuState, idle_total, total_time, cpu_step}
use monitor_program.Metrics.Cpu.Step.{
  busy, elapsed, Fits, busy_share, idle_total_exact, total_time_exact,
}

-- A whole difference less a part that came out negative, in 64 bits.
wrapped_part : (t d : ℕ) → 0 < d → d < modulus → t + d < modulus → sub64 t (modulus - d) ≡ t + d
unfolding sub64
wrapped_part t d h lt sum = omega arith

some_time : (a b : ℕ) → a < b → ((b - a) == 0) ≡ false
some_time a b h = ground arith

module _ (a b : CpuTimes) (before : Fits a) (fits : Fits b) (advance : elapsed a < elapsed b) where
  total_advance : sub64 (total_time b) (total_time a) ≡ elapsed b - elapsed a
  total_advance =
      rw (total_time_exact b fits, total_time_exact a before)
        (sub64_exact (elapsed b) (elapsed a) (omega arith) fits)

  module _ (back : b.idle + b.iowait < a.idle + a.iowait) where
    idle_wraps :
        sub64 (idle_total b) (idle_total a) ≡ modulus - ((a.idle + a.iowait) - (b.idle + b.iowait))
    idle_wraps =
        rw (idle_total_exact b fits, idle_total_exact a before)
          (sub64_wraps (b.idle + b.iowait) (a.idle + a.iowait) back (omega arith))

    busy_passes_total :
        sub64 (elapsed b - elapsed a) (modulus - ((a.idle + a.iowait) - (b.idle + b.iowait)))
        ≡ busy b - busy a
    busy_passes_total =
        wrapped_part (elapsed b - elapsed a) ((a.idle + a.iowait) - (b.idle + b.iowait))
          (omega arith) (omega arith) (omega arith)
        ∙ omega arith

-- If the sum of all the counters grew while idle and iowait together went back, and the sums fit 64
-- bits, a call returns the share of a busy time that is greater than the time elapsed, at least 100
-- percent, and keeps both that share and the counters.
pub cpu_step_backwards :
    (F : Double) (laws : IsLawful F) (now : CpuTimes) (s : CpuState F)
    → Fits s.prev
    → Fits now
    → elapsed s.prev < elapsed now
    → now.idle + now.iowait < s.prev.idle + s.prev.iowait
    → let share = busy_share F now s.prev in
      (cpu_step F now s ≡ (share, record { prev = now; percent = share }))
      × (elapsed now - elapsed s.prev < busy now - busy s.prev)
      × (F.le (of_ull F 100) share ≡ true)
unfolding cpu_step
cpu_step_backwards F laws now s before fits advance back = (
  rw
      (
        total_advance s.prev now before fits advance,
        idle_wraps s.prev now before fits advance back,
        busy_passes_total s.prev now before fits advance back,
        some_time (elapsed s.prev) (elapsed now) advance,
      )
      refl,
  omega arith,
  percentage_above F laws (busy now - busy s.prev) (elapsed now - elapsed s.prev) (omega arith)
      (omega arith),
)
