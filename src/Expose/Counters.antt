-- ===== src/Expose/Counters.antt =====
-- The context switches over any number of rounds.
use monitor_program.Metrics.ContextSwitches.{get_context_switches}
use monitor_program.Metrics.ContextSwitches.Traced.{
  get_context_switches_traced, get_context_switches_traced-value,
}
use monitor_program.Libc.Stdio.{FileCall}
use monitor_program.Base.{
  Bool, true, false, Option, Bytes, ap, sym, subst, ◌∙◌, ℕ, zero, suc, List, [], ◌∷◌, ◌++◌, ◌≡◌,
  refl, arith, ◌+◌, ◌-◌, ◌≤◌, ◌<◌, ltb, if◌then◌else◌,
}
use monitor_program.Libc.Word.{modulus, sub64_exact}
use monitor_program.Double.{Double, of_ull}
use monitor_program.Expose.{Gauge, Call, gauge_set, read_calls, context_switches}
use monitor_program.Expose.Update.{context_switches_step, update_context_switches_metric}

-- The readings, of which 0 is a failure, do not go back.
abbrev pub Growing : ℕ → List ℕ → Type 0
Growing prev [] = Unit {0}
Growing prev (zero ∷ rs) = Growing prev rs
Growing prev (suc r ∷ rs) = (prev ≤ suc r) × (suc r < modulus) × Growing (suc r) rs

-- The last reading that did not fail.
abbrev pub last_reading : ℕ → List ℕ → ℕ
last_reading prev [] = prev
last_reading prev (zero ∷ rs) = last_reading prev rs
last_reading prev (suc r ∷ rs) = last_reading (suc r) rs

-- What each round adds, without the rounds that fail or add nothing.
pub increments : ℕ → List ℕ → List ℕ
increments prev [] = []
increments prev (zero ∷ rs) = increments prev rs
increments prev (suc r ∷ rs) =
    let rest = increments (suc r) rs in if ltb 0 (suc r - prev) then (suc r - prev) ∷ rest else rest

unfoldable pub sum : List ℕ → ℕ
sum [] = 0
sum (n ∷ ns) = n + sum ns

abbrev pub is_switches : Gauge → Bool
is_switches context_switches = true
is_switches g = false

-- What `get_context_switches` finds in each file.
abbrev pub readings : List (Option Bytes) → List ℕ
readings [] = []
readings (file ∷ files) = get_context_switches file ∷ readings files

module _ (F : Double) where
  -- The values that a gauge gets, in order.
  abbrev pub values_of : (Gauge → Bool) → List (Call F) → List F.Carrier
  values_of this [] = []
  values_of this (gauge_set g v ∷ cs) =
      let rest = values_of this cs in if this g then v ∷ rest else rest
  values_of this (c ∷ cs) = values_of this cs

  pub values_of-append :
      (this : Gauge → Bool) (a b : List (Call F))
      → values_of this (a ++ b) ≡ values_of this a ++ values_of this b
  values_of-append this [] b = refl
  values_of-append this (gauge_set g v ∷ cs) b = rw (values_of-append this cs b) (ground arith)
  values_of-append this (c ∷ cs) b = values_of-append this cs b

  pub values_of-read_calls :
      (this : Gauge → Bool) (fs : List FileCall) (rest : List (Call F))
      → values_of this (read_calls F fs ++ rest) ≡ values_of this rest
  values_of-read_calls this [] rest = refl
  values_of-read_calls this (f ∷ fs) rest = values_of-read_calls this fs rest

  -- `update_context_switches_metric` called once for each file: its calls, and its state.
  pub switches_run : List (Option Bytes) → ℕ → List (Call F) × ℕ
  switches_run [] prev = ([], prev)
  switches_run (file ∷ files) prev =
      let step = update_context_switches_metric F file prev in
      let rest = switches_run files step.1 in (step.0 ++ rest.0, rest.1)

  unfoldable pub shown : List ℕ → List F.Carrier
  shown [] = []
  shown (n ∷ ns) = of_ull F n ∷ shown ns

  -- One call, by what it reads: the values of its gauge, and its state.
  one_update :
      (file : Option Bytes) (prev : ℕ)
      → let step = update_context_switches_metric F file prev in
        let expected = context_switches_step F (get_context_switches file) prev in
        (values_of is_switches step.0 ≡ values_of is_switches expected.0) × (step.1 ≡ expected.1)
  unfolding update_context_switches_metric
  one_update file prev =
      let r = get_context_switches_traced file in
      let e = get_context_switches_traced-value file in
      (
        values_of-read_calls is_switches r.0 (context_switches_step F r.1 prev).0
            ∙ ap (λ (n : ℕ). values_of is_switches (context_switches_step F n prev).0) e,
        ap (λ (n : ℕ). (context_switches_step F n prev).1) e,
      )

  step_values :
      (prev n : ℕ) (rs : List ℕ)
      → Growing prev (n ∷ rs)
      → let step = context_switches_step F n prev in
        (values_of is_switches step.0 ++ shown (increments step.1 rs)
          ≡ shown (increments prev (n ∷ rs)))
        × (last_reading step.1 rs ≡ last_reading prev (n ∷ rs))
        × Growing step.1 rs
  unfolding context_switches_step shown increments
  step_values prev zero rs h = (ground arith, refl, h)
  step_values prev (suc n) rs (le, lt, h) =
      let step = context_switches_step F (suc n) prev in
      let exact = sub64_exact (suc n) prev le lt in
      let after : step.1 ≡ suc n = ground arith in
      (
        ground (arith, exact),
        ap (λ (k : ℕ). last_reading k rs) after,
        subst (λ (k : ℕ). Growing k rs) (sym after) h,
      )

  switches_run_lem :
      (prev : ℕ) (files : List (Option Bytes))
      → Growing prev (readings files)
      → (values_of is_switches (switches_run files prev).0
          ≡ shown (increments prev (readings files)))
        × ((switches_run files prev).1 ≡ last_reading prev (readings files))
  unfolding switches_run increments
  switches_run_lem prev [] h = (unfold shown in refl, refl)
  switches_run_lem prev (file ∷ files) h =
      let step = update_context_switches_metric F file prev in
      let one = one_update file prev in
      let by_step = step_values prev (get_context_switches file) (readings files) h in
      let rest =
        switches_run_lem step.1 files
          (subst (λ (n : ℕ). Growing n (readings files)) (sym one.1) by_step.2) in
      (
        values_of-append is_switches step.0 (switches_run files step.1).0
            ∙ rw (one.0, rest.0, one.1) by_step.0,
        rest.1 ∙ rw one.1 by_step.1,
      )

sum-increments :
    (prev : ℕ) (rs : List ℕ)
    → Growing prev rs
    → prev + sum (increments prev rs) ≡ last_reading prev rs
unfolding sum increments
sum-increments prev [] h = omega arith
sum-increments prev (zero ∷ rs) h = sum-increments prev rs h
sum-increments prev (suc r ∷ rs) (le, lt, h) = ground (arith, sum-increments (suc r) rs h)

-- Over any files, those that do not open or have no counter among them, whose counters do not go
-- back from the first state on and fit 64 bits, `update_context_switches_metric`, called once for
-- each, sets its gauge to the switches since the reading before, once for each call that finds
-- some; its state is the last reading; and the values add up to the difference of that and the
-- first state.
pub switches_add_up :
    (F : Double) (prev : ℕ) (files : List (Option Bytes))
    → Growing prev (readings files)
    → let rs = readings files in
      (values_of F is_switches (switches_run F files prev).0 ≡ shown F (increments prev rs))
      × ((switches_run F files prev).1 ≡ last_reading prev rs)
      × (prev + sum (increments prev rs) ≡ last_reading prev rs)
switches_add_up F prev files h =
    let run = switches_run_lem F prev files h in
    (run.0, run.1, sum-increments prev (readings files) h)
