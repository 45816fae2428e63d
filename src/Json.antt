-- ===== src/Json.antt =====
-- `send_metrics_as_json` of src/json_metrics.c. The text that cJSON_Print makes of the fields, and
-- whether the pipe opens, are arguments: they are the business of cJSON and of the system.
pub mod Effects
pub mod Resources
pub mod Kernel
pub mod Quiet
pub mod Rounds
pub use monitor_program.Pipe.{
  JsonCall, reading, create_object, print_object, open_pipe, write_line, flush_pipe, close_pipe,
  pipe_error, free_text, delete_object, readings,
}
use monitor_program.Base.{
  ℕ, Bool, true, false, Option, none, some, List, [], ◌∷◌, ◌++◌, map, Bytes, String, ltb,
  if◌then◌else◌,
}
use monitor_program.Base.Int.{ℤ, pos}
use monitor_program.Double.{Double, of_ull}
use monitor_program.Libc.Stdio.{FileCall}
use monitor_program.Metrics.Memory.Traced.{get_memory_usage_traced}
use monitor_program.Metrics.Cpu.{CpuState}
use monitor_program.Metrics.Cpu.Traced.{get_cpu_usage_traced}
use monitor_program.Metrics.Disk.{DiskStats}
use monitor_program.Metrics.Disk.Traced.{get_disk_stats_traced}
use monitor_program.Metrics.Network.{NetStats}
use monitor_program.Metrics.Network.Traced.{get_network_stats_traced}
use monitor_program.Metrics.Processes.Traced.{get_running_processes_traced}
use monitor_program.Metrics.ContextSwitches.Traced.{get_context_switches_traced}
use monitor_program.Expose.Update.{interface}

-- The files of /proc as each is when its reader opens it; /proc/stat is opened twice.
pub record Proc : Type 0 where
  pub stat : Option Bytes
  pub meminfo : Option Bytes
  pub diskstats : Option Bytes
  pub net_dev : Option Bytes
  pub loadavg : Option Bytes
  pub stat_later : Option Bytes
  pub garbage : Bytes  -- what `iface_name` holds before it is assigned

-- What follows the printing.
unfoldable pub send_text : Bool → Option Bytes → List JsonCall
send_text opens none = delete_object ∷ []
send_text opens (some text) =
    open_pipe opens
    ∷ ((if opens then write_line text ∷ flush_pipe ∷ close_pipe ∷ [] else pipe_error ∷ [])
        ++ (free_text ∷ delete_object ∷ []))

module _ (F : Double) where
  abbrev pub Field : Type 0
  Field = String × F.Carrier

  -- The fields of the object, in the order in which they are added.
  unfoldable pub json_fields : F.Carrier → F.Carrier → DiskStats → NetStats → ℤ → ℕ → List Field
  json_fields cpu memory disk network running switches =
      ("cpu_usage_percentage", cpu)
      ∷ ("memory_usage_percentage", memory)
      ∷ ("disk_reads", of_ull F disk.reads)
      ∷ ("disk_writes", of_ull F disk.writes)
      ∷ ("disk_read_time_seconds", F.div (of_ull F disk.read_time) (of_ull F 1000))
      ∷ ("disk_write_time_seconds", F.div (of_ull F disk.write_time) (of_ull F 1000))
      ∷ ("network_bandwidth_rx", of_ull F network.bytes_received)
      ∷ ("network_bandwidth_tx", of_ull F network.bytes_transmitted)
      ∷ (
        "network_packet_ratio",
        if ltb 0 network.packets_received
            then F.div (of_ull F network.packets_transmitted) (of_ull F network.packets_received)
            else of_ull F 0,
      )
      ∷ ("running_processes_count", F.of_int running)
      ∷ ("context_switches_total", of_ull F switches)
      ∷ []

  -- The calls made and the new state of `get_cpu_usage`; `none` where `get_disk_stats` writes past
  -- a buffer.
  unfoldable pub send_metrics_as_json :
      (List Field → Option Bytes) → Bool → Proc → CpuState F → Option (List JsonCall × CpuState F)
  send_metrics_as_json print opens proc s =
      let cpu = get_cpu_usage_traced F proc.stat s in
      let memory = get_memory_usage_traced F proc.meminfo in
      let network = get_network_stats_traced proc.garbage interface proc.net_dev in
      let running = get_running_processes_traced proc.loadavg in
      let switches = get_context_switches_traced proc.stat_later in
      elim (get_disk_stats_traced proc.diskstats) [
        | none ↦ none
        | some disk ↦
            let text = print (json_fields cpu.1 memory.1 disk.1 network.1 running.1 switches.1) in
            some (
              create_object
                  ∷ (readings cpu.0
                      ++ (readings memory.0
                          ++ (readings disk.0
                              ++ (readings network.0
                                  ++ (readings running.0
                                      ++ (readings switches.0
                                          ++ (print_object text ∷ send_text opens text))))))),
              cpu.2,
            )
      ]
