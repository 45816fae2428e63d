-- ===== src/Main/Scrapes.antt =====
-- The values of the gauges at any time in a run of `main`, which the HTTP thread gives out.
use monitor_program.Base.{
  ℕ, zero, suc, Bool, true, none, some, ◌⊎◌, inl, inr, List, [], ◌∷◌, ◌++◌, All, length, ◌≡◌, refl,
  sym, ap, subst, ◌∙◌, ◌<◌, arith,
}
use monitor_program.Double.{Double}
use monitor_program.Expose.{Gauge, Call, sleep}
use monitor_program.Base.Prefixes.{Prefix, Prefix-split, Prefix-cut, Prefix-nil, take, take-Prefix}
use monitor_program.Expose.Init.{Faults, init_metrics, goes_on}
use monitor_program.Expose.Values.{final_value, final_value-append}
use monitor_program.Json.{Proc, JsonCall}
use monitor_program.Simulation.{Library, SimulationState}
use monitor_program.Simulation.Calls.{calls}
use monitor_program.Simulation.Bounds.{AllValid, simulate_memory_operations-ReturnsValid}
use monitor_program.Main.{
  Monitor, ProgramState, Run, round_calls, sleep_time, main_round, main_loop, main_after_init, main,
}
use monitor_program.Main.Gauges.{is, shown, shown-shown, final_value-round, final_value-init}
use monitor_program.Main.Beginnings.{
  busy_calls, round_calls-busy, busy_calls-Sets, slept-busy_calls, slept-prefix, value-prefix,
  init_metrics-idle,
}
use monitor_program.Main.Pauses.{slept, slept-append, slept-init_then}
use monitor_program.Main.Sent.{slept-round_calls}
use monitor_program.Main.Total.{Safe}
use monitor_program.Main.Transcript.{ready}
use monitor_program.Metrics.Cpu.{get_cpu_usage}
use monitor_program.Json.Resources.{send_metrics_as_json-releases}

module _ (F : Double) (L : Library) (M : Monitor F L) where
  -- What a number of rounds leaves in a gauge.
  abbrev pub value_after : ℕ → SimulationState L → Gauge → F.Carrier → F.Carrier
  value_after zero s g old = old
  value_after (suc n) s g old = elim (calls L (suc n) s) [
    | none ↦ old
    | some t ↦ shown F L M t.heap g old
  ]

  -- That a gauge shows what `n` rounds leave, or one more if there is one.
  abbrev pub Shows : ℕ → ℕ → SimulationState L → Gauge → F.Carrier → F.Carrier → Type 0
  Shows rounds n s g old v =
      (v ≡ value_after n s g old) ⊎ ((n < rounds) × (v ≡ value_after (suc n) s g old))

  calls-Returns :
      (n : ℕ) (s : SimulationState L)
      → AllValid L s
      → (t : SimulationState L) × (calls L n s ≡ some t)
  unfolding calls
  calls-Returns zero s h = (s, refl)
  calls-Returns (suc n) s h =
      let first = simulate_memory_operations-ReturnsValid L s h in
      let rest = calls-Returns n first.0 first.2 in (rest.0, rw (calls, first.1) rest.1)

  module _ (s : SimulationState L) (h : AllValid L s) (js : List JsonCall) where
    abbrev after : SimulationState L
    after = (simulate_memory_operations-ReturnsValid L s h).0

    value_after-next :
        (n : ℕ) (g : Gauge) (old : F.Carrier)
        → value_after n after g (shown F L M after.heap g old) ≡ value_after (suc n) s g old
    unfolding calls
    value_after-next zero g old =
        rw (value_after, calls, (simulate_memory_operations-ReturnsValid L s h).1) refl
    value_after-next (suc n) g old =
        let first = simulate_memory_operations-ReturnsValid L s h in
        let rest = calls-Returns (suc n) after first.2 in
        let all : calls L (suc (suc n)) s ≡ some rest.0 = rw (calls, first.1) rest.1 in
        rw (value_after, rest.1, all) (shown-shown F L M after.heap rest.0.heap g old)

    -- What is shown during a round, and what is shown after it.
    during :
        (p : List (Call F)) (rounds : ℕ) (g : Gauge) (old : F.Carrier)
        → Prefix p (busy_calls F L M after.heap js)
        → Shows (suc rounds) (slept F p) s g old (final_value F (is g) p old)
    during p rounds g old k =
        let none_slept : slept F p ≡ 0 =
          omega (arith, slept-prefix F k, slept-busy_calls F L M after.heap js) in
        rw none_slept
          (elim (value-prefix F (shown F L M after.heap) (shown-shown F L M after.heap after.heap) k
            (busy_calls-Sets F L M after.heap js) g old) [
              | inl e ↦ inl e
              | inr e ↦ inr (omega arith, e ∙ value_after-next 0 g old)
            ])

    later :
        (q : List (Call F)) (rounds : ℕ) (g : Gauge) (old : F.Carrier)
        → ((old : F.Carrier) → Shows rounds (slept F q) after g old (final_value F (is g) q old))
        → let p = round_calls F L M after.heap js ++ q in
          Shows (suc rounds) (slept F p) s g old (final_value F (is g) p old)
    later q rounds g old k =
        let heap = after.heap in
        let slept_once : slept F (round_calls F L M heap js ++ q) ≡ suc (slept F q) =
          slept-append F (round_calls F L M heap js) q
          ∙ omega (arith, slept-round_calls F L M heap js) in
        let value =
          final_value-append F (is g) (round_calls F L M heap js) q old
          ∙ ap (final_value F (is g) q) (final_value-round F L M heap js g old) in
        rw (slept_once, value)
          (elim (k (shown F L M heap g old)) [
            | inl e ↦ inl (e ∙ value_after-next (slept F q) g old)
            | inr (lt, e) ↦ inr (omega (arith, lt), e ∙ value_after-next (suc (slept F q)) g old)
          ])

  main_loop-Shows :
      (inputs : List (Bool × Proc)) (s : ProgramState F L M)
      → AllValid L s.simulation
      → All Safe inputs
      → (r : Run F L M) × (main_loop F L M inputs s ≡ some r)
        × ((p : List (Call F))
            → Prefix p r.calls
            → (g : Gauge) (old : F.Carrier)
            → Shows (length inputs) (slept F p) s.simulation g old (final_value F (is g) p old))
  unfolding main_loop main_round slept
  main_loop-Shows [] s h safe =
      (record { calls = []; state = s }, refl, λ p k g old. rw (Prefix-nil p k, slept) (inl refl))
  main_loop-Shows ((opens, proc) ∷ inputs) s h ((disk, e), safe) =
      let simulation = simulate_memory_operations-ReturnsValid L s.simulation h in
      let sent = send_metrics_as_json-releases F M.print opens proc s.cpu disk e in
      let heap = simulation.0.heap in
      let next : ProgramState F L M = record {
        simulation = simulation.0;
        cpu = (get_cpu_usage F proc.stat s.cpu).1;
      } in
      let rest = main_loop-Shows inputs next simulation.2 safe in
      let round = round_calls F L M heap sent.0 in
      let busy = round_calls-busy F L M heap sent.0 in
      (
        record { calls = round ++ rest.0.calls; state = rest.0.state },
        rw (simulation.1, sent.1, rest.1, main_loop, main_round) refl,
        λ p k g old.
            elim (Prefix-cut (busy_calls F L M heap sent.0) (sleep sleep_time) rest.0.calls p
              (subst (Prefix p) (busy rest.0.calls) k)) [
                | inl within ↦ during s.simulation h sent.0 p (length inputs) g old within
                | inr (q, split, after_round) ↦
                    rw (split ∙ sym (busy q))
                      (later s.simulation h sent.0 q (length inputs) g old (rest.2 q after_round g))
              ],
      )

  -- When each registration returns, from valid rows, and with readings of the disk that stay within
  -- their buffers, at any time in a run of `main` whose thread is created (after the first `i` of
  -- its calls, whatever `i`), with as many rounds complete as seconds slept, each gauge shows what
  -- those rounds leave: nothing new before the first one, and from then on if it is a gauge of
  -- fragmentation, allocations or average time, the value of its method in the heap of the last
  -- one, an average being the time of the method divided by the number of its allocations, and 0
  -- where that is not positive. If there is a further round, it may show what that one leaves
  -- instead.
  pub main_shows :
      (faults : Faults) (inputs : List (Bool × Proc)) (s : ProgramState F L M)
      → goes_on F faults (init_metrics F faults) ≡ true
      → AllValid L s.simulation
      → All Safe inputs
      → (r : Run F L M) × (main F L M faults true inputs s ≡ some (0, r))
        × ((i : ℕ) (g : Gauge) (old : F.Carrier)
            → let p = take i r.calls in
              Shows
                (length inputs)
                (slept F p)
                (ready F L M s).simulation
                g
                old
                (final_value F (is g) p old))
  unfolding main main_after_init
  main_shows faults inputs s works h safe =
      let loop = main_loop-Shows inputs (ready F L M s) h safe in
      let all = init_metrics F faults ++ loop.0.calls in
      (
        record loop.0 { calls = all },
        rw (works, loop.1, main, main_after_init) refl,
        λ i g old.
            elim (Prefix-split (init_metrics F faults) loop.0.calls (take i all)
              (take-Prefix i all)) [
                | inl early ↦
                    let idle = init_metrics-idle F faults (take i all) early in
                    inl (rw (idle.0, idle.1 g old, value_after) refl)
                | inr (q, split, k) ↦
                    rw
                      (
                        split,
                        slept-init_then F faults q,
                        final_value-append F (is g) (init_metrics F faults) q old,
                        final_value-init F L M faults (is g) old,
                      )
                      (loop.2 q k g old)
              ],
      )
