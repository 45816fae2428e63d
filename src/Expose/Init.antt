-- ===== src/Expose/Init.antt =====
-- The functions `init_*`, `expose_metrics` and `destroy_mutex` of src/expose_metrics.c.
use monitor_program.Base.{
  ℕ, zero, suc, Bool, true, false, List, [], ◌∷◌, ◌++◌, String, not, ◌&&◌, if◌then◌else◌,
}
use monitor_program.Double.{Double}
use monitor_program.Expose.{
  Gauge, Call, mutex_init, mutex_destroy, registry_init, gauge_new, register_metric,
  set_active_registry, start_daemon, sleep, report, cpu_usage, memory_usage, disk_reads,
  disk_writes, disk_read_time, disk_write_time, network_bandwidth_tx, network_bandwidth_rx,
  network_packet_ratio, count_processes, context_switches, memory_fragmentation_first_fit,
  memory_fragmentation_best_fit, memory_fragmentation_worst_fit, first_fit_allocations,
  best_fit_allocations, worst_fit_allocations, first_fit_avg_allocation_time,
  best_fit_avg_allocation_time, worst_fit_avg_allocation_time,
}

-- What the calls of the libraries answer. Registering returns the metric that was registered, or it
-- ends the program; on a NULL gauge it is not defined, which `halts` may stand for too.
pub record Faults : Type 0 where
  pub mutex : Bool  -- pthread_mutex_init does not return 0
  pub registry : Bool  -- prom_collector_registry_default_init does not return 0
  pub null : Gauge → Bool  -- prom_gauge_new returns NULL
  pub returned : Gauge → Bool  -- what registering returns is not NULL
  pub halts : Gauge → Bool  -- registering does not return: the program ends
  pub exit_status : ℕ  -- the status with which it does

module _ (F : Double) where
  abbrev pub report_if : Bool → String → List (Call F)
  report_if true message = report message ∷ []
  report_if false message = []

  -- A gauge whose creation and registration are checked: the error is reported, and the function
  -- goes on.
  abbrev pub checked : Faults → Gauge → String → String → String → String → List (Call F)
  checked faults g name help no_gauge no_register =
      gauge_new g name help
      ∷ (report_if (faults.null g) no_gauge
          ++ (register_metric g ∷ report_if (faults.returned g) no_register))

  abbrev pub unchecked : Gauge → String → String → List (Call F)
  unchecked g name help = gauge_new g name help ∷ register_metric g ∷ []

  -- Whether every registration among calls returns.
  unfoldable pub goes_on : Faults → List (Call F) → Bool
  goes_on faults [] = true
  goes_on faults (register_metric g ∷ cs) = not (faults.halts g) && goes_on faults cs
  goes_on faults (c ∷ cs) = goes_on faults cs

  -- The calls up to the first registration that does not return.
  unfoldable pub made : Faults → List (Call F) → List (Call F)
  made faults [] = []
  made faults (register_metric g ∷ cs) =
      let rest = made faults cs in register_metric g ∷ (if faults.halts g then [] else rest)
  made faults (c ∷ cs) = c ∷ made faults cs

  -- The calls of the function if each registration returns; `made` has those until one does not.
  unfoldable pub init_metrics : Faults → List (Call F)
  init_metrics faults =
      (mutex_init ∷ report_if faults.mutex "Error al inicializar el mutex")
      ++ ((registry_init
            ∷ report_if faults.registry "Error al inicializar el registro de Prometheus")
          ++ (checked faults cpu_usage "cpu_usage_percentage" "Porcentaje de uso de CPU"
                "Error al crear la métrica de uso de CPU" "Error al registrar las métricas de CPU"
              ++ (checked faults memory_usage "memory_usage_percentage"
                    "Porcentaje de uso de memoria" "Error al crear la métrica de uso de memoria"
                    "Error al registrar las métricas de memoria"
                  ++ (unchecked memory_fragmentation_first_fit "memory_fragmentation_rate_first_fit"
                        "Memory fragmentation rate (%) for First Fit"
                      ++ (unchecked memory_fragmentation_best_fit
                            "memory_fragmentation_rate_best_fit"
                            "Memory fragmentation rate (%) for Best Fit"
                          ++ (unchecked memory_fragmentation_worst_fit
                                "memory_fragmentation_rate_worst_fit"
                                "Memory fragmentation rate (%) for Worst Fit"
                              ++ (unchecked first_fit_allocations "first_fit_allocations_total"
                                    "Total allocations using First Fit"
                                  ++ (unchecked best_fit_allocations "best_fit_allocations_total"
                                        "Total allocations using Best Fit"
                                      ++ (unchecked worst_fit_allocations
                                            "worst_fit_allocations_total"
                                            "Total allocations using Worst Fit"
                                          ++ (unchecked first_fit_avg_allocation_time
                                                "first_fit_avg_allocation_time"
                                                "Average allocation time for First Fit (seconds)"
                                              ++ (unchecked best_fit_avg_allocation_time
                                                    "best_fit_avg_allocation_time"
                                                    "Average allocation time for Best Fit (seconds)"
                                                  ++ unchecked worst_fit_avg_allocation_time
                                                      "worst_fit_avg_allocation_time"
                                                      "Average allocation time for Worst Fit (seconds)")))))))))))

  unfoldable pub init_disk_metrics : Faults → List (Call F)
  init_disk_metrics faults =
      checked faults disk_reads "disk_reads_operations"
        "Número de operaciones de lectura en el disco (en miles)"
        "Error al crear la métrica de operaciones de lectura de disco"
        "Error al registrar las métricas de operaciones de lectura de disco"
      ++ (checked faults disk_writes "disk_writes_operations"
            "Número de operaciones de escritura en el disco (en miles)"
            "Error al crear la métrica de operaciones de escritura de disco"
            "Error al registrar las métricas de operaciones de escritura de disco"
          ++ (checked faults disk_read_time "disk_read_time"
                "Tiempo dedicado a operaciones de lectura (segundos)"
                "Error al crear la métrica de tiempo de lectura de disco"
                "Error al registrar las métricas de tiempo de lectura de disco"
              ++ checked faults disk_write_time "disk_write_time"
                  "Tiempo dedicado a operaciones de escritura (segundos)"
                  "Error al crear la métrica de tiempo de escritura de disco"
                  "Error al registrar las métricas de tiempo de escritura de disco"))

  unfoldable pub init_network_metrics : List (Call F)
  init_network_metrics =
      gauge_new network_bandwidth_rx "network_bandwidth_receive"
        "Ancho de banda de recepción (bytes/segundo)"
      ∷ gauge_new network_bandwidth_tx "network_bandwidth_transmit"
          "Ancho de banda de transmisión (bytes/segundo)"
      ∷ gauge_new network_packet_ratio "network_packet_ratio"
          "Relación de paquetes transmitidos/recibidos"
      ∷ register_metric network_bandwidth_rx
      ∷ register_metric network_bandwidth_tx
      ∷ register_metric network_packet_ratio
      ∷ []

  unfoldable pub init_count_processes : Faults → List (Call F)
  init_count_processes faults =
      checked faults count_processes "running_processes_count" "Número de procesos en ejecución"
        "Error al crear la métrica de procesos en ejecución"
        "Error al registrar la métrica de procesos en ejecución"

  unfoldable pub init_context_switches_metric : Faults → List (Call F)
  init_context_switches_metric faults =
      checked faults context_switches "context_switches_total" "Número total de cambios de contexto"
        "Error al crear la métrica de cambios de contexto"
        "Error al registrar la métrica de cambios de contexto"

  -- The rounds of the endless loop of the thread.
  abbrev pub sleeps : ℕ → List (Call F)
  sleeps zero = []
  sleeps (suc n) = sleep 1 ∷ sleeps n

  -- The thread's calls up to a number of rounds; `started` is that promhttp_start_daemon does not
  -- return NULL.
  unfoldable pub expose_metrics : Bool → ℕ → List (Call F)
  expose_metrics started rounds =
      set_active_registry
      ∷ start_daemon 8000
      ∷ (if started then sleeps rounds else report "Error al iniciar el servidor HTTP" ∷ [])

  unfoldable pub destroy_mutex : List (Call F)
  destroy_mutex = mutex_destroy ∷ []
