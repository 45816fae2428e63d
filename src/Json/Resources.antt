-- ===== src/Json/Resources.antt =====
-- What `send_metrics_as_json` allocates and opens it frees and closes, what it reads and writes.
use monitor_program.Base.{
  Bool, true, false, Option, none, some, List, [], ◌∷◌, ◌++◌, Bytes, String, ◌≡◌, refl, sym,
}
use monitor_program.Libc.Stdio.{FileCall}
use monitor_program.Double.{Double}
use monitor_program.Metrics.Memory.{get_memory_usage}
use monitor_program.Metrics.Memory.Traced.{
  get_memory_usage_traced, get_memory_usage_traced-value, get_memory_usage_traced-uses,
}
use monitor_program.Metrics.Cpu.{CpuState, get_cpu_usage}
use monitor_program.Metrics.Cpu.Traced.{
  get_cpu_usage_traced, get_cpu_usage_traced-value, get_cpu_usage_traced-uses,
}
use monitor_program.Metrics.Disk.{DiskStats, get_disk_stats}
use monitor_program.Metrics.Disk.Traced.{get_disk_stats_traced, get_disk_stats_traced-some}
use monitor_program.Metrics.Network.{get_network_stats}
use monitor_program.Metrics.Network.Traced.{
  get_network_stats_traced, get_network_stats_traced-value, get_network_stats_traced-uses,
}
use monitor_program.Metrics.Processes.{get_running_processes}
use monitor_program.Metrics.Processes.Traced.{
  get_running_processes_traced, get_running_processes_traced-value,
  get_running_processes_traced-uses,
}
use monitor_program.Metrics.ContextSwitches.{get_context_switches}
use monitor_program.Metrics.ContextSwitches.Traced.{
  get_context_switches_traced, get_context_switches_traced-value, get_context_switches_traced-uses,
}
use monitor_program.Expose.Update.{interface}
use monitor_program.Json.{
  Proc, JsonCall, readings, create_object, print_object, pipe_error, Field, json_fields, send_text,
  send_metrics_as_json,
}
use monitor_program.Json.Effects.{releases, written, files_read, shown, Reads, uses-Reads}

abbrev pub line_written : Bool → Option Bytes → List Bytes
line_written true (some t) = t ∷ []
line_written opens t = []

-- The files that the six functions read, in the order in which they are called.
abbrev pub proc_files : List String
proc_files =
    "/proc/stat" ∷ "/proc/meminfo" ∷ "/proc/diskstats" ∷ "/proc/net/dev" ∷ "/proc/loadavg"
    ∷ "/proc/stat" ∷ []

abbrev pub ending : Bool → Option Bytes → List JsonCall
ending opens t = print_object t ∷ send_text opens t

ending-releases :
    (opens : Bool) (t : Option Bytes) → releases true false false false (ending opens t) ≡ true
unfolding send_text releases
ending-releases opens none = refl
ending-releases true (some t) = refl
ending-releases false (some t) = refl

written-ending : (opens : Bool) (t : Option Bytes) → written (ending opens t) ≡ line_written opens t
unfolding send_text written
written-ending true none = refl
written-ending false none = refl
written-ending true (some t) = refl
written-ending false (some t) = refl

-- The message for the pipe: it is tried only if there is a text.
abbrev pub pipe_message : Bool → Option Bytes → List JsonCall
pipe_message false (some t) = pipe_error ∷ []
pipe_message opens t = []

pub shown-ending : (opens : Bool) (t : Option Bytes) → shown (ending opens t) ≡ pipe_message opens t
unfolding send_text shown
shown-ending true none = refl
shown-ending false none = refl
shown-ending true (some t) = refl
shown-ending false (some t) = refl

files_read-ending : (opens : Bool) (t : Option Bytes) → files_read (ending opens t) ≡ []
unfolding send_text files_read
files_read-ending opens none = refl
files_read-ending true (some t) = refl
files_read-ending false (some t) = refl

module _ (F : Double) (print : List (Field F) → Option Bytes) (opens : Bool) (proc : Proc)
    (s : CpuState F) where
  -- The fields of the object, with the counters of the disk.
  abbrev pub fields : DiskStats → List (Field F)
  fields disk =
      json_fields F (get_cpu_usage F proc.stat s).0 (get_memory_usage F proc.meminfo) disk
        (get_network_stats proc.garbage interface proc.net_dev) (get_running_processes proc.loadavg)
        (get_context_switches proc.stat_later)

  abbrev cpu : List FileCall
  cpu = (get_cpu_usage_traced F proc.stat s).0

  abbrev memory : List FileCall
  memory = (get_memory_usage_traced F proc.meminfo).0

  abbrev network : List FileCall
  network = (get_network_stats_traced proc.garbage interface proc.net_dev).0

  abbrev running : List FileCall
  running = (get_running_processes_traced proc.loadavg).0

  abbrev switches : List FileCall
  switches = (get_context_switches_traced proc.stat_later).0

  -- All the calls, with those that read the disk and the text.
  abbrev pub all_calls : List FileCall → Option Bytes → List JsonCall
  all_calls disk t =
      create_object
      ∷ (readings cpu
          ++ (readings memory
              ++ (readings disk
                  ++ (readings network
                      ++ (readings running ++ (readings switches ++ ending opens t))))))

  cpu-Reads : Reads true false false "/proc/stat" cpu
  cpu-Reads = uses-Reads true false false _ _ (get_cpu_usage_traced-uses F proc.stat s)

  memory-Reads : Reads true false false "/proc/meminfo" memory
  memory-Reads = uses-Reads true false false _ _ (get_memory_usage_traced-uses F proc.meminfo)

  network-Reads : Reads true false false "/proc/net/dev" network
  network-Reads =
      uses-Reads true false false _ _
        (get_network_stats_traced-uses interface proc.garbage proc.net_dev)

  running-Reads : Reads true false false "/proc/loadavg" running
  running-Reads = uses-Reads true false false _ _ (get_running_processes_traced-uses proc.loadavg)

  switches-Reads : Reads true false false "/proc/stat" switches
  switches-Reads =
      uses-Reads true false false _ _ (get_context_switches_traced-uses proc.stat_later)

  -- The calls of a run in which the reading of the disk stays within its buffers.
  pub send_metrics_as_json-calls :
      (disk : DiskStats) (cs : List FileCall)
      → get_disk_stats_traced proc.diskstats ≡ some (cs, disk)
      → send_metrics_as_json F print opens proc s
        ≡ some (all_calls cs (print (fields disk)), (get_cpu_usage F proc.stat s).1)
  unfolding send_metrics_as_json
  send_metrics_as_json-calls disk cs e = rw (
    e,
    sym (get_cpu_usage_traced-value F proc.stat s),
    sym (get_memory_usage_traced-value F proc.meminfo),
    sym (get_network_stats_traced-value interface proc.garbage proc.net_dev),
    sym (get_running_processes_traced-value proc.loadavg),
    sym (get_context_switches_traced-value proc.stat_later),
    send_metrics_as_json,
  )

  -- If the reading of the disk stays within its buffers, the function returns. It reads the files
  -- of /proc, those of the processor, the memory, the disk, the network, the processes and the
  -- switches, each once and in this order, and opens one only when the one before is closed; it
  -- frees the text, deletes the object and closes the pipe if it was opened, each once and after
  -- its last use; it writes the text of the object, once, exactly if there is one and the pipe
  -- opens; and its state is that of the reading of the processor.
  pub send_metrics_as_json-releases :
      (disk : DiskStats)
      → get_disk_stats proc.diskstats ≡ some disk
      → (cs : List JsonCall) × (send_metrics_as_json F print opens proc s
          ≡ some (cs, (get_cpu_usage F proc.stat s).1))
        × (releases false false false false cs ≡ true)
        × (written cs ≡ line_written opens (print (fields disk)))
        × (files_read cs ≡ proc_files)
  send_metrics_as_json-releases disk e =
      let t = print (fields disk) in
      let traced = get_disk_stats_traced-some proc.diskstats disk e in
      let disk-Reads = uses-Reads true false false "/proc/diskstats" traced.0 traced.2 in
      (
        all_calls traced.0 t,
        send_metrics_as_json-calls disk traced.0 traced.1,
        unfold releases in
            rw
              (
                cpu-Reads.released, memory-Reads.released, disk-Reads.released,
                network-Reads.released, running-Reads.released, switches-Reads.released,
              )
              (ending-releases opens t),
        unfold written in
            rw
              (
                cpu-Reads.lines, memory-Reads.lines, disk-Reads.lines, network-Reads.lines,
                running-Reads.lines, switches-Reads.lines,
              )
              (written-ending opens t),
        unfold files_read in
            rw (
              cpu-Reads.files,
              memory-Reads.files,
              disk-Reads.files,
              network-Reads.files,
              running-Reads.files,
              switches-Reads.files,
              files_read-ending opens t,
            ),
      )
