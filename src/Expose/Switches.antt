-- ===== src/Expose/Switches.antt =====
-- `update_context_switches_metric` on a file.
use monitor_program.Base.{
  ℕ, ◌-◌, ◌≤◌, ◌<◌, ◌≡◌, refl, ap, ◌∙◌, arith, Option, none, some, List, [], ◌∷◌, ◌++◌, Bytes, ltb,
  if◌then◌else◌,
}
use monitor_program.Libc.Word.{modulus, sub64_exact}
use monitor_program.Libc.Stream.{IsLine}
use monitor_program.Double.{Double, of_ull}
use monitor_program.Metrics.Cpu.{stat_buffer_size}
use monitor_program.Metrics.ContextSwitches.{get_context_switches}
use monitor_program.Metrics.ContextSwitches.Reading.{
  ctxt_line, NoCtxt, get_context_switches_exact, get_context_switches_missing,
}
use monitor_program.Expose.{Call, mutex_lock, mutex_unlock, gauge_set, report, context_switches}
use monitor_program.Metrics.ContextSwitches.Traced.{
  get_context_switches_traced, get_context_switches_traced-value,
}
use monitor_program.Expose.Unread.{unread, unread-read_calls}
use monitor_program.Expose.Update.{context_switches_step, update_context_switches_metric}

module _ (F : Double) where
  -- The calls beside those that read the file, and the state.
  abbrev pub made_of : List (Call F) × ℕ → List (Call F) × ℕ
  made_of r = (unread F r.0, r.1)

  step_unread :
      (current prev : ℕ)
      → unread F (context_switches_step F current prev).0 ≡ (context_switches_step F current prev).0
  unfolding context_switches_step unread
  step_unread current prev = ground arith

  pub made_of-step :
      (file : Option Bytes) (prev : ℕ)
      → made_of (update_context_switches_metric F file prev)
        ≡ context_switches_step F (get_context_switches file) prev
  unfolding update_context_switches_metric
  made_of-step file prev =
      let r = get_context_switches_traced file in
      let after = context_switches_step F r.1 prev in
      ap (λ (cs : List (Call F)). (cs, after.1))
        (unread-read_calls F r.0 after.0 ∙ step_unread r.1 prev)
      ∙ ap (λ (n : ℕ). context_switches_step F n prev) (get_context_switches_traced-value file)

  -- On a file in the kernel's layout whose counter is positive and did not go back, beside the
  -- reading the gauge is set under the mutex to the switches since the reading before, once, and
  -- not at all if there are none; the state is the new counter.
  pub update_context_switches_metric_exact :
      (before : Bytes) (n prev : ℕ) (after : Bytes)
      → NoCtxt before
      → n < modulus
      → IsLine stat_buffer_size (ctxt_line n)
      → 0 < n
      → prev ≤ n
      → made_of (update_context_switches_metric F (some (before ++ (ctxt_line n ++ after))) prev)
        ≡ (
          if ltb prev n
              then mutex_lock ∷ gauge_set context_switches (of_ull F (n - prev)) ∷ mutex_unlock ∷ []
              else [],
          n,
        )
  unfolding update_context_switches_metric context_switches_step
  update_context_switches_metric_exact before n prev after h fits line some_switches le =
      made_of-step (some (before ++ (ctxt_line n ++ after))) prev
      ∙ rw (get_context_switches_exact before n after h fits line, sub64_exact n prev le fits)
          (ground arith)

  -- Where the file does not open, or has no line "ctxt", the error is reported, no gauge is set,
  -- nothing else is done but the reading, and the counter of the call before is kept.
  pub update_context_switches_metric_failure :
      (content : Bytes) (prev : ℕ)
      → NoCtxt content
      → let failed : List (Call F) = report "Error al obtener los cambios de contexto" ∷ [] in
        (made_of (update_context_switches_metric F none prev) ≡ (failed, prev))
        × (made_of (update_context_switches_metric F (some content) prev) ≡ (failed, prev))
  unfolding update_context_switches_metric context_switches_step
  update_context_switches_metric_failure content prev h = (
    made_of-step none prev ∙ unfold get_context_switches in refl,
    made_of-step (some content) prev
        ∙ ap (λ (n : ℕ). context_switches_step F n prev) (get_context_switches_missing content h),
  )
