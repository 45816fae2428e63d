-- ===== src/Metrics/Cpu/Step.antt =====
-- What `get_cpu_usage` computes from eight counters and those of the call before.
use monitor_program.Base.{
  ℕ, ◌+◌, ◌-◌, ◌≤◌, ◌<◌, ◌≡◌, refl, ◌∙◌, arith, false, Bool-cases, inl, inr, ◌==◌, if◌then◌else◌,
}
use monitor_program.Libc.Word.{modulus, add64, sub64, add64_exact, sub64_exact}
use monitor_program.Double.{Double, IsLawful, Within, percentage}
use monitor_program.Double.Range.{percentage-Within}
use monitor_program.Metrics.Cpu.{CpuTimes, CpuState, idle_total, non_idle, total_time, cpu_step}

-- The sums as numbers without a bound.
abbrev pub busy : CpuTimes → ℕ
busy t = t.user + t.nice + t.system + t.irq + t.softirq + t.steal

abbrev pub elapsed : CpuTimes → ℕ
elapsed t = busy t + (t.idle + t.iowait)

abbrev pub Fits : CpuTimes → Type 0
Fits t = elapsed t < modulus

-- No counter went back.
pub record Later (a b : CpuTimes) : Type 0 where
  pub user : a.user ≤ b.user
  pub nice : a.nice ≤ b.nice
  pub system : a.system ≤ b.system
  pub idle : a.idle ≤ b.idle
  pub iowait : a.iowait ≤ b.iowait
  pub irq : a.irq ≤ b.irq
  pub softirq : a.softirq ≤ b.softirq
  pub steal : a.steal ≤ b.steal

pub Later-refl : (a : CpuTimes) → Later a a
Later-refl a = omega arith

pub Later-trans : (a b c : CpuTimes) → Later a b → Later b c → Later a c
Later-trans a b c h k = omega arith

module _ (t : CpuTimes) (h : Fits t) where
  pub idle_total_exact : idle_total t ≡ t.idle + t.iowait
  unfolding idle_total
  idle_total_exact = add64_exact t.idle t.iowait (omega arith)

  pub total_time_exact : total_time t ≡ elapsed t
  unfolding total_time idle_total non_idle add64
  total_time_exact = omega arith

module _ (a b : CpuTimes) (fits : Fits b) (later : Later a b) where
  earlier-Fits : Fits a
  earlier-Fits = omega arith

  total_difference : sub64 (total_time b) (total_time a) ≡ elapsed b - elapsed a
  total_difference =
      rw (total_time_exact b fits, total_time_exact a earlier-Fits)
        (sub64_exact (elapsed b) (elapsed a) (omega arith) fits)

  idle_difference : sub64 (idle_total b) (idle_total a) ≡ (b.idle + b.iowait) - (a.idle + a.iowait)
  idle_difference =
      rw (idle_total_exact b fits, idle_total_exact a earlier-Fits)
        (sub64_exact (b.idle + b.iowait) (a.idle + a.iowait) (omega arith) (omega arith))

  busy_difference :
      sub64 (elapsed b - elapsed a) ((b.idle + b.iowait) - (a.idle + a.iowait)) ≡ busy b - busy a
  busy_difference =
      sub64_exact (elapsed b - elapsed a) ((b.idle + b.iowait) - (a.idle + a.iowait)) (omega arith)
        (omega arith)
      ∙ omega arith

same_test : (a b : ℕ) → b ≤ a → ((a - b) == 0) ≡ (a == b)
same_test a b h = ground arith

time_passed : (a b : ℕ) → b ≤ a → (a == b) ≡ false → 0 < a - b
time_passed a b h e = ground arith

-- The share of the time between two sets of counters that was not idle.
abbrev pub busy_share : (F : Double) → CpuTimes → CpuTimes → F.Carrier
busy_share F now prev = percentage F (busy now - busy prev) (elapsed now - elapsed prev)

module _ (F : Double) (now : CpuTimes) (s : CpuState F) (fits : Fits now)
    (later : Later s.prev now) where
  -- With counters that did not go back and whose sum fits 64 bits, a call returns the share of
  -- busy time since the counters before, and keeps both; with no time elapsed it returns the share
  -- of the call before, and its state is unchanged.
  pub cpu_step_exact : cpu_step F now s ≡ (
      if elapsed now == elapsed s.prev
      then (s.percent, s)
      else (busy_share F now s.prev, record { prev = now; percent = busy_share F now s.prev }))
  unfolding cpu_step
  cpu_step_exact = rw (
    total_difference s.prev now fits later,
    idle_difference s.prev now fits later,
    busy_difference s.prev now fits later,
    same_test (elapsed now) (elapsed s.prev) (omega arith),
  )

-- The percentage kept is one, and the counters kept are not ahead of `last`.
pub record IsValid (F : Double) (last : CpuTimes) (s : CpuState F) : Type 0 where
  pub in_range : Within F 0 100 s.percent
  pub behind : Later s.prev last

module _ (F : Double) (laws : IsLawful F) where
  pub busy_share-Within :
      (now : CpuTimes) (s : CpuState F) (fits : Fits now) (later : Later s.prev now)
      → (elapsed now == elapsed s.prev) ≡ false
      → Within F 0 100 (busy_share F now s.prev)
  busy_share-Within now s fits later h =
      percentage-Within F laws (busy now - busy s.prev) (elapsed now - elapsed s.prev)
        (time_passed (elapsed now) (elapsed s.prev) (omega arith) h) (omega arith)

  -- A call with later counters keeps the percentage, and returns the one it keeps.
  pub cpu_step-IsValid :
      (last now : CpuTimes) (s : CpuState F)
      → IsValid F last s
      → Later last now
      → Fits now
      → IsValid F now (cpu_step F now s).1 × ((cpu_step F now s).0 ≡ (cpu_step F now s).1.percent)
  cpu_step-IsValid last now s v later fits =
      let ahead = Later-trans s.prev last now v.behind later in
      rw (cpu_step_exact F now s fits ahead) (elim (Bool-cases (elapsed now == elapsed s.prev)) [
        | inl e ↦ rw e (record { in_range = v.in_range; behind = ahead }, refl)
        | inr e ↦ rw e (
          record { in_range = busy_share-Within now s fits ahead e; behind = Later-refl now },
          refl,
        )
      ])
