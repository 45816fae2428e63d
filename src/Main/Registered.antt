-- ===== src/Main/Registered.antt =====
-- The functions `init_*` of src/expose_metrics.c in the order of the first lines of `main`, those
-- that stand there in a comment included, and the functions `update_*` after them.
use monitor_program.Base.{
  Bool, true, false, not, ◌&&◌, ◌||◌, List, [], ◌∷◌, ◌++◌, Bytes, codes, ◌≡◌, refl, sym, ap, ◌∙◌,
}
use monitor_program.Libc.Text.{strcmp_eq}
use monitor_program.Double.{Double}
use monitor_program.Expose.{
  Gauge, Call, gauge_new, register_metric, cpu_usage, memory_usage, disk_reads, disk_writes,
  disk_read_time, disk_write_time, network_bandwidth_tx, network_bandwidth_rx, network_packet_ratio,
  count_processes, context_switches, memory_fragmentation_first_fit, memory_fragmentation_best_fit,
  memory_fragmentation_worst_fit, first_fit_allocations, best_fit_allocations,
  worst_fit_allocations, first_fit_avg_allocation_time, best_fit_avg_allocation_time,
  worst_fit_avg_allocation_time,
}
use monitor_program.Expose.Init.{
  made, Faults, init_metrics, init_disk_metrics, init_network_metrics, init_count_processes,
  init_context_switches_metric,
}
use monitor_program.Main.Order.{
  CallsInOrder, gauges_in_order-created, add, in_order, InOrder, silent, silent-append,
  silent-report_if, in_order-silent, no_faults, silent-init_metrics,
}

abbrev occurs : Bytes → List Bytes → Bool
occurs n [] = false
occurs n (m ∷ ms) = strcmp_eq n m || occurs n ms

abbrev pub distinct : List Bytes → Bool
distinct [] = true
distinct (n ∷ ns) = not (occurs n ns) && distinct ns

module _ (F : Double) where
  abbrev pub all_inits : Faults → List (Call F)
  all_inits faults =
      init_metrics F faults
      ++ (init_disk_metrics F faults
          ++ (init_network_metrics F
              ++ (init_count_processes F faults ++ init_context_switches_metric F faults)))

  pub made-returns :
      (faults : Faults) (cs : List (Call F))
      → ((g : Gauge) → faults.halts g ≡ false)
      → made F faults cs ≡ cs
  unfolding made
  made-returns faults [] h = refl
  made-returns faults (register_metric g ∷ cs) h = rw (h g, made-returns faults cs h) refl
  made-returns faults (c ∷ cs) h =
      ap (λ (rest : List (Call F)). c ∷ rest) (made-returns faults cs h)

  -- The gauges registered by calls, beside those registered before.
  unfoldable pub registered_after : (Gauge → Bool) → List (Call F) → Gauge → Bool
  registered_after known [] = known
  registered_after known (register_metric g ∷ cs) = registered_after (add g known) cs
  registered_after known (c ∷ cs) = registered_after known cs

  -- The names under which gauges are created.
  unfoldable pub names : List (Call F) → List Bytes
  names [] = []
  names (gauge_new g name help ∷ cs) = codes name ∷ names cs
  names (c ∷ cs) = names cs

  registered_after-silent :
      (known : Gauge → Bool) (cs : List (Call F))
      → registered_after known (silent F cs) ≡ registered_after known cs
  unfolding registered_after silent
  registered_after-silent known [] = refl
  registered_after-silent known (register_metric g ∷ cs) = registered_after-silent (add g known) cs
  registered_after-silent known (c ∷ cs) = registered_after-silent known cs

  names-silent : (cs : List (Call F)) → names (silent F cs) ≡ names cs
  unfolding names silent
  names-silent [] = refl
  names-silent (gauge_new g name help ∷ cs) =
      ap (λ (ns : List Bytes). codes name ∷ ns) (names-silent cs)
  names-silent (c ∷ cs) = names-silent cs

  silent-init_disk_metrics :
      (faults : Faults)
      → silent F (init_disk_metrics F faults) ≡ silent F (init_disk_metrics F (no_faults F))
  unfolding init_disk_metrics silent
  silent-init_disk_metrics faults = simp (silent-append, silent-report_if)

  silent-init_count_processes :
      (faults : Faults)
      → silent F (init_count_processes F faults) ≡ silent F (init_count_processes F (no_faults F))
  unfolding init_count_processes silent
  silent-init_count_processes faults = simp (silent-append, silent-report_if)

  silent-init_context_switches_metric :
      (faults : Faults)
      → silent F (init_context_switches_metric F faults)
        ≡ silent F (init_context_switches_metric F (no_faults F))
  unfolding init_context_switches_metric silent
  silent-init_context_switches_metric faults = simp (silent-append, silent-report_if)

  silent-append_cong :
      (a a' b b' : List (Call F))
      → silent F a ≡ silent F a'
      → silent F b ≡ silent F b'
      → silent F (a ++ b) ≡ silent F (a' ++ b')
  silent-append_cong a a' b b' e e' = rw (silent-append F a b, silent-append F a' b', e, e') refl

  -- The faults show in the messages only.
  silent-all_inits :
      (faults : Faults) → silent F (all_inits faults) ≡ silent F (all_inits (no_faults F))
  silent-all_inits faults = silent-append_cong _ _ _ _ (silent-init_metrics F faults) (
      silent-append_cong _ _ _ _ (silent-init_disk_metrics faults) (
        silent-append_cong (init_network_metrics F) (init_network_metrics F) _ _ refl (
          silent-append_cong _ _ _ _ (silent-init_count_processes faults)
            (silent-init_context_switches_metric faults))))

  in_order-no_faults :
      in_order F (λ g. false) (λ g. false) (silent F (all_inits (no_faults F))) ≡ true
  unfolding init_metrics init_disk_metrics init_network_metrics init_count_processes
      init_context_switches_metric silent in_order
  in_order-no_faults = refl

  names-no_faults : distinct (names (silent F (all_inits (no_faults F)))) ≡ true
  unfolding init_metrics init_disk_metrics init_network_metrics init_count_processes
      init_context_switches_metric silent names strcmp_eq
  names-no_faults = refl

  registered_after-no_faults :
      (g : Gauge) → registered_after (λ g. false) (silent F (all_inits (no_faults F))) g ≡ true
  unfolding init_metrics init_disk_metrics init_network_metrics init_count_processes
      init_context_switches_metric silent registered_after
  registered_after-no_faults cpu_usage = refl
  registered_after-no_faults memory_usage = refl
  registered_after-no_faults disk_reads = refl
  registered_after-no_faults disk_writes = refl
  registered_after-no_faults disk_read_time = refl
  registered_after-no_faults disk_write_time = refl
  registered_after-no_faults network_bandwidth_tx = refl
  registered_after-no_faults network_bandwidth_rx = refl
  registered_after-no_faults network_packet_ratio = refl
  registered_after-no_faults count_processes = refl
  registered_after-no_faults context_switches = refl
  registered_after-no_faults memory_fragmentation_first_fit = refl
  registered_after-no_faults memory_fragmentation_best_fit = refl
  registered_after-no_faults memory_fragmentation_worst_fit = refl
  registered_after-no_faults first_fit_allocations = refl
  registered_after-no_faults best_fit_allocations = refl
  registered_after-no_faults worst_fit_allocations = refl
  registered_after-no_faults first_fit_avg_allocation_time = refl
  registered_after-no_faults best_fit_avg_allocation_time = refl
  registered_after-no_faults worst_fit_avg_allocation_time = refl

  abbrev pub CompleteCalls : Faults → Type 0
  CompleteCalls faults =
      CallsInOrder F (all_inits faults)
      × ((g : Gauge) → registered_after (λ g. false) (all_inits faults) g ≡ true)
      × (distinct (names (all_inits faults)) ≡ true)

  pub all_inits-calls : (faults : Faults) → CompleteCalls faults
  all_inits-calls faults =
      let same = silent-all_inits faults in
      (
        sym (in_order-silent F _ _ (all_inits faults))
            ∙ ap (in_order F (λ g. false) (λ g. false)) same
            ∙ in_order-no_faults,
        λ g.
            ap (λ (k : Gauge → Bool). k g) (sym (registered_after-silent _ (all_inits faults)))
            ∙ ap (λ (cs : List (Call F)). registered_after (λ g. false) cs g) same
            ∙ registered_after-no_faults g,
        ap distinct (sym (names-silent (all_inits faults)))
            ∙ ap (λ (cs : List (Call F)). distinct (names cs)) same
            ∙ names-no_faults,
      )

  -- When each gauge is created and each registration returns, the five functions together make all
  -- their calls: they create each gauge before they register it, once each; they register
  -- every gauge; and no two gauges have one name.
  pub all_inits-Complete :
      (faults : Faults)
      → ((g : Gauge) → faults.null g ≡ false)
      → ((g : Gauge) → faults.halts g ≡ false)
      → (made F faults (all_inits faults) ≡ all_inits faults)
        × InOrder F faults (all_inits faults)
        × ((g : Gauge) → registered_after (λ g. false) (all_inits faults) g ≡ true)
        × (distinct (names (all_inits faults)) ≡ true)
  all_inits-Complete faults gauges works =
      let calls = all_inits-calls faults in
      (
        made-returns faults (all_inits faults) works,
        gauges_in_order-created F faults.null _ _ (all_inits faults) gauges ∙ calls.0,
        calls.1,
        calls.2,
      )
