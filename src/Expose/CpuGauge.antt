-- ===== src/Expose/CpuGauge.antt =====
-- The gauge of the processor over any number of calls.
use monitor_program.Base.{
  sym, ap, ◌∙◌, ◌++◌, subst, Option, List, [], ◌∷◌, All, Bytes, ◌≡◌, refl, arith,
}
use monitor_program.Double.{Double, IsLawful, Within}
use monitor_program.Double.Range.{of_ull-Within}
use monitor_program.Metrics.Cpu.{CpuTimes, CpuState, initial_cpu_state}
use monitor_program.Metrics.Cpu.Step.{IsValid, Later-refl}
use monitor_program.Metrics.Cpu.Reading.{
  sample, step_or_hold, get_cpu_usage-sample, Growing, get_cpu_usage_then,
}
use monitor_program.Expose.{Call, read_calls, mutex_lock, mutex_unlock, gauge_set, cpu_usage}
use monitor_program.Expose.Unread.{unread, unread-read_calls}
use monitor_program.Expose.Update.{cpu_calls, update_cpu_gauge}
use monitor_program.Libc.Stdio.{FileCall}
use monitor_program.Metrics.Cpu.Traced.{get_cpu_usage_traced, get_cpu_usage_traced-value}

module _ (F : Double) where
  -- What each call of `update_cpu_gauge` does, one for each file.
  abbrev pub cpu_gauge_calls : List (Option Bytes) → CpuState F → List (List (Call F))
  cpu_gauge_calls [] s = []
  cpu_gauge_calls (file ∷ files) s =
      (update_cpu_gauge F file s).0 ∷ cpu_gauge_calls files (update_cpu_gauge F file s).1

  -- Beside the reading, one value from 0 to 100 is set under the mutex, and nothing else is done.
  abbrev pub SetsPercentage : List (Call F) → Type 0
  SetsPercentage cs =
      (v : F.Carrier) × (unread F cs ≡ mutex_lock ∷ gauge_set cpu_usage v ∷ mutex_unlock ∷ [])
      × Within F 0 100 v

  module _ (laws : IsLawful F) where
    sets :
        (v : F.Carrier)
        → Within F 0 100 v
        → (fs : List FileCall) → SetsPercentage (read_calls F fs ++ cpu_calls F v)
    unfolding cpu_calls
    sets v w fs = (
      v,
      unread-read_calls F fs (cpu_calls F v) ∙ rw (cpu_calls, w.above) (unfold unread in refl),
      w,
    )

    cpu_gauge_sets :
        (files : List (Option Bytes)) (last : CpuTimes) (s : CpuState F)
        → IsValid F last s
        → Growing files last
        → All SetsPercentage (cpu_gauge_calls files s)
    unfolding update_cpu_gauge
    cpu_gauge_sets [] last s v h = tt
    cpu_gauge_sets (file ∷ files) last s v h =
        let step = get_cpu_usage_then F laws (sample file) last s (Growing files) v h in
        let o = step_or_hold F (sample file) s in
        let r = get_cpu_usage_traced F file s in
        let e : (r.1, r.2) ≡ o =
          get_cpu_usage_traced-value F file s ∙ get_cpu_usage-sample F file s in
        (
          subst (λ (v : F.Carrier). SetsPercentage (read_calls F r.0 ++ cpu_calls F v))
              (ap (λ (p : F.Carrier × CpuState F). p.0) (sym e))
              (sets o.0 (rw step.3 step.1.in_range) r.0),
          subst (λ (t : CpuState F). All SetsPercentage (cpu_gauge_calls files t))
              (ap (λ (p : F.Carrier × CpuState F). p.1) (sym e))
              (cpu_gauge_sets files step.0 o.1 step.1 step.2),
        )

    -- From the program's start, over any sequence of files, those that do not open or parse among
    -- them, in which no counter goes back and the sums fit 64 bits: each call of `update_cpu_gauge`
    -- sets the gauge, to a value from 0 to 100, under the mutex. It does nothing else but read the
    -- file: its error message is never printed.
    pub cpu_gauge_always_set :
        (files : List (Option Bytes))
        → Growing files (initial_cpu_state F).prev
        → All SetsPercentage (cpu_gauge_calls files (initial_cpu_state F))
    cpu_gauge_always_set files h =
        cpu_gauge_sets files (initial_cpu_state F).prev (initial_cpu_state F)
          (record {
            in_range = unfold initial_cpu_state in of_ull-Within F laws 0 100 (omega arith);
            behind = Later-refl _;
          })
          h
