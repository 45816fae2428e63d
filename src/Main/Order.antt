-- ===== src/Main/Order.antt =====
-- The calls of a whole run of `main`: creation, registration and setting of the gauges.
use monitor_program.Base.{
  if◌then◌else◌, ℕ, Bool, true, false, not, ◌&&◌, ◌||◌, List, [], ◌∷◌, ◌++◌, String, ◌≡◌, refl, sym,
  ap, ◌∙◌, arith, ◌==◌,
}
use monitor_program.Double.{Double}
use monitor_program.Expose.{
  Gauge, Call, mutex_lock, mutex_unlock, gauge_new, register_metric, gauge_set, report, reads,
  sends, cpu_usage, memory_usage, disk_reads, disk_writes, disk_read_time, disk_write_time,
  network_bandwidth_tx, network_bandwidth_rx, network_packet_ratio, count_processes,
  context_switches, memory_fragmentation_first_fit, memory_fragmentation_best_fit,
  memory_fragmentation_worst_fit, first_fit_allocations, best_fit_allocations,
  worst_fit_allocations, first_fit_avg_allocation_time, best_fit_avg_allocation_time,
  worst_fit_avg_allocation_time,
}
use monitor_program.Expose.Locking.{keeps_lock, KeepsLock}
use monitor_program.Expose.Init.{Faults, init_metrics, report_if}

-- A number for each gauge, to compare them.
abbrev pub index : Gauge → ℕ
index cpu_usage = 0
index memory_usage = 1
index disk_reads = 2
index disk_writes = 3
index disk_read_time = 4
index disk_write_time = 5
index network_bandwidth_tx = 6
index network_bandwidth_rx = 7
index network_packet_ratio = 8
index count_processes = 9
index context_switches = 10
index memory_fragmentation_first_fit = 11
index memory_fragmentation_best_fit = 12
index memory_fragmentation_worst_fit = 13
index first_fit_allocations = 14
index best_fit_allocations = 15
index worst_fit_allocations = 16
index first_fit_avg_allocation_time = 17
index best_fit_avg_allocation_time = 18
index worst_fit_avg_allocation_time = 19

abbrev pub add : Gauge → (Gauge → Bool) → Gauge → Bool
add g known h = index g == index h || known h

module _ (F : Double) where
  -- The order of the calls: whether each gauge is created before it is registered, once each, and
  -- registered before it is set, from what is created and registered already, if no creation fails.
  unfoldable pub in_order : (Gauge → Bool) → (Gauge → Bool) → List (Call F) → Bool
  in_order created registered [] = true
  in_order created registered (gauge_new g name help ∷ cs) =
      not (created g) && in_order (add g created) registered cs
  in_order created registered (register_metric g ∷ cs) =
      (created g && not (registered g)) && in_order created (add g registered) cs
  in_order created registered (gauge_set g v ∷ cs) = registered g && in_order created registered cs
  in_order created registered (c ∷ cs) = in_order created registered cs

  abbrev pub CallsInOrder : List (Call F) → Type 0
  CallsInOrder cs = in_order (λ g. false) (λ g. false) cs ≡ true

  -- The same of the gauges themselves: a call that returns NULL creates none.
  unfoldable pub gauges_in_order :
      (Gauge → Bool) → (Gauge → Bool) → (Gauge → Bool) → List (Call F) → Bool
  gauges_in_order null created registered [] = true
  gauges_in_order null created registered (gauge_new g name help ∷ cs) =
      not (created g)
      && gauges_in_order null (if null g then created else add g created) registered cs
  gauges_in_order null created registered (register_metric g ∷ cs) =
      (created g && not (registered g)) && gauges_in_order null created (add g registered) cs
  gauges_in_order null created registered (gauge_set g v ∷ cs) =
      registered g && gauges_in_order null created registered cs
  gauges_in_order null created registered (c ∷ cs) = gauges_in_order null created registered cs

  abbrev pub InOrder : Faults → List (Call F) → Type 0
  InOrder faults cs = gauges_in_order faults.null (λ g. false) (λ g. false) cs ≡ true

  -- Where each creation succeeds, the order of the calls is enough.
  pub gauges_in_order-created :
      (null created registered : Gauge → Bool) (cs : List (Call F))
      → ((g : Gauge) → null g ≡ false)
      → gauges_in_order null created registered cs ≡ in_order created registered cs
  unfolding gauges_in_order in_order
  gauges_in_order-created null created registered [] h = refl
  gauges_in_order-created null created registered (gauge_new g name help ∷ cs) h =
      rw (h g, gauges_in_order-created null (add g created) registered cs h) refl
  gauges_in_order-created null created registered (register_metric g ∷ cs) h =
      ap (λ (b : Bool). (created g && not (registered g)) && b)
        (gauges_in_order-created null created (add g registered) cs h)
  gauges_in_order-created null created registered (gauge_set g v ∷ cs) h =
      ap (λ (b : Bool). registered g && b) (gauges_in_order-created null created registered cs h)
  gauges_in_order-created null created registered (c ∷ cs) h =
      gauges_in_order-created null created registered cs h

  -- The calls without the messages.
  unfoldable pub silent : List (Call F) → List (Call F)
  silent [] = []
  silent (report message ∷ cs) = silent cs
  silent (c ∷ cs) = c ∷ silent cs

  pub silent-append : (a b : List (Call F)) → silent (a ++ b) ≡ silent a ++ silent b
  unfolding silent
  silent-append [] b = refl
  silent-append (report message ∷ cs) b = silent-append cs b
  silent-append (c ∷ cs) b = ap (λ (rest : List (Call F)). c ∷ rest) (silent-append cs b)

  pub silent-report_if : (t : Bool) (message : String) → silent (report_if F t message) ≡ []
  unfolding silent
  silent-report_if true message = refl
  silent-report_if false message = refl

  pub in_order-silent :
      (created registered : Gauge → Bool) (cs : List (Call F))
      → in_order created registered (silent cs) ≡ in_order created registered cs
  unfolding in_order silent
  in_order-silent created registered [] = refl
  in_order-silent created registered (gauge_new g name help ∷ cs) =
      ap (λ (b : Bool). not (created g) && b) (in_order-silent (add g created) registered cs)
  in_order-silent created registered (register_metric g ∷ cs) =
      ap (λ (b : Bool). (created g && not (registered g)) && b)
        (in_order-silent created (add g registered) cs)
  in_order-silent created registered (gauge_set g v ∷ cs) =
      ap (λ (b : Bool). registered g && b) (in_order-silent created registered cs)
  in_order-silent created registered (c ∷ cs) = in_order-silent created registered cs

  keeps_lock-silent :
      (held : Bool) (cs : List (Call F)) → keeps_lock F held (silent cs) ≡ keeps_lock F held cs
  unfolding keeps_lock silent
  keeps_lock-silent held [] = refl
  keeps_lock-silent true (mutex_lock ∷ cs) = refl
  keeps_lock-silent false (mutex_lock ∷ cs) = keeps_lock-silent true cs
  keeps_lock-silent true (mutex_unlock ∷ cs) = keeps_lock-silent false cs
  keeps_lock-silent false (mutex_unlock ∷ cs) = refl
  keeps_lock-silent true (gauge_set g v ∷ cs) = keeps_lock-silent true cs
  keeps_lock-silent false (gauge_set g v ∷ cs) = refl
  keeps_lock-silent true (reads c ∷ cs) = refl
  keeps_lock-silent true (sends c ∷ cs) = refl
  keeps_lock-silent held (c ∷ cs) = keeps_lock-silent held cs

  abbrev pub no_faults : Faults
  no_faults = record {
    mutex = false;
    registry = false;
    null = λ g. false;
    returned = λ g. true;
    halts = λ g. false;
    exit_status = 0;
  }

  -- The faults show in the messages only.
  pub silent-init_metrics :
      (faults : Faults) → silent (init_metrics F faults) ≡ silent (init_metrics F no_faults)
  unfolding init_metrics silent
  silent-init_metrics faults = simp (silent-append, silent-report_if)

  -- The gauges that `init_metrics` registers.
  abbrev pub known : Gauge → Bool
  known = add worst_fit_avg_allocation_time (
      add best_fit_avg_allocation_time (
        add first_fit_avg_allocation_time (
          add worst_fit_allocations (
            add best_fit_allocations (
              add first_fit_allocations (
                add memory_fragmentation_worst_fit (
                  add memory_fragmentation_best_fit (
                    add memory_fragmentation_first_fit
                      (add memory_usage (add cpu_usage (λ g. false)))))))))))

  in_order-init :
      (rest : List (Call F))
      → in_order (λ g. false) (λ g. false) (silent (init_metrics F no_faults) ++ rest)
        ≡ in_order known known rest
  unfolding in_order silent init_metrics
  in_order-init rest = refl

  keeps_lock-init :
      (rest : List (Call F))
      → keeps_lock F false (silent (init_metrics F no_faults) ++ rest) ≡ keeps_lock F false rest
  unfolding keeps_lock silent init_metrics
  keeps_lock-init rest = refl

  -- Whether calls only set gauges that are registered, lock and unlock.
  unfoldable pub only_sets : List (Call F) → Bool
  only_sets [] = true
  only_sets (gauge_new g name help ∷ cs) = false
  only_sets (register_metric g ∷ cs) = false
  only_sets (gauge_set g v ∷ cs) = known g && only_sets cs
  only_sets (c ∷ cs) = only_sets cs

  pub only_sets-append :
      (a b : List (Call F)) → only_sets a ≡ true → only_sets b ≡ true → only_sets (a ++ b) ≡ true
  unfolding only_sets
  only_sets-append [] b h k = k
  only_sets-append (gauge_new g name help ∷ cs) b h k = cc
  only_sets-append (register_metric g ∷ cs) b h k = cc
  only_sets-append (gauge_set g v ∷ cs) b h k = ground (arith, only_sets-append cs b)
  only_sets-append (c ∷ cs) b h k = only_sets-append cs b h k

  in_order-only_sets : (cs : List (Call F)) → only_sets cs ≡ true → in_order known known cs ≡ true
  unfolding only_sets in_order
  in_order-only_sets [] h = refl
  in_order-only_sets (gauge_new g name help ∷ cs) h = cc
  in_order-only_sets (register_metric g ∷ cs) h = cc
  in_order-only_sets (gauge_set g v ∷ cs) h = ground (arith, in_order-only_sets cs)
  in_order-only_sets (c ∷ cs) h = in_order-only_sets cs h

  pub silent-init_then :
      (faults : Faults) (cs : List (Call F))
      → silent (init_metrics F faults ++ cs) ≡ silent (init_metrics F no_faults) ++ silent cs
  silent-init_then faults cs = rw (silent-append, silent-init_metrics faults) refl

  -- Initialisation, whatever fails in it, followed by such calls.
  pub init_metrics_then :
      (faults : Faults) (cs : List (Call F))
      → only_sets cs ≡ true
      → KeepsLock F cs
      → ((g : Gauge) → faults.null g ≡ false)
      → InOrder faults (init_metrics F faults ++ cs) × KeepsLock F (init_metrics F faults ++ cs)
  init_metrics_then faults cs h k created =
      let calls = init_metrics F faults ++ cs in
      (
        gauges_in_order-created faults.null (λ g. false) (λ g. false) calls created
            ∙ sym (in_order-silent _ _ calls)
            ∙ ap (in_order (λ g. false) (λ g. false)) (silent-init_then faults cs)
            ∙ in_order-init (silent cs)
            ∙ in_order-silent known known cs
            ∙ in_order-only_sets cs h,
        sym (keeps_lock-silent false calls)
            ∙ ap (keeps_lock F false) (silent-init_then faults cs)
            ∙ keeps_lock-init (silent cs)
            ∙ keeps_lock-silent false cs
            ∙ k,
      )
