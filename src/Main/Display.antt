-- ===== src/Main/Display.antt =====
-- What the gauges of the processor, the memory, the disk, the network, the processes and the
-- context switches show once their functions `update_*` read files in the kernel's layout.
use monitor_program.Base.{
  ℕ, ◌-◌, ◌≤◌, ◌<◌, ◌≡◌, ◌==◌, refl, ap, ◌∙◌, subst, arith, false, some, List, ltb, if◌then◌else◌,
}
use monitor_program.Base.Int.{pos}
use monitor_program.Double.{of_ull, Double, IsLawful, percentage, Within}
use monitor_program.Double.Range.{percentage-Within}
use monitor_program.Metrics.Cpu.{CpuState}
use monitor_program.Metrics.Cpu.Step.{elapsed, Later, busy_share, busy_share-Within}
use monitor_program.Metrics.Disk.{DiskStats}
use monitor_program.Metrics.Network.{NetStats}
use monitor_program.Expose.{
  Gauge, Call, cpu_usage, memory_usage, disk_reads, disk_writes, disk_read_time, disk_write_time,
  network_bandwidth_tx, network_bandwidth_rx, network_packet_ratio, count_processes,
  context_switches,
}
use monitor_program.Expose.Update.{
  context_switches_step, zero_value, interface, update_cpu_gauge, update_disk_metrics,
  update_network_metrics, update_context_switches_metric,
}
use monitor_program.Expose.Values.{final_value}
use monitor_program.Libc.Word.{modulus, sub64_exact}
use monitor_program.Main.Gauges.{is}
use monitor_program.Metrics.Disk.Reading.{find_disk, find_disk_safe, get_disk_stats-find_disk}
use monitor_program.Metrics.Network.Reading.{find_interface}
use monitor_program.Metrics.Ranges.{NetFits, get_network_stats-NetFits}
use monitor_program.Json.Kernel.{
  Snapshot, files, IsKernel, cpu_reading, memory_reading, network_reading, running_reading,
  switches_reading,
}
use monitor_program.Main.GaugeValues.{updated}
use monitor_program.Main.SixUpdates.{six_updates, six_updates_lem}

moved : (a b : ℕ) → b < a → (a == b) ≡ false
moved a b h = ground arith

some_total : (a b : ℕ) → 0 < a → a ≤ b → 0 < b
some_total a b h le = omega arith

module _ (F : Double) where
  -- What the gauges show if each value is in range and no counter went back.
  module _ (share memory : F.Carrier) (disk : DiskStats) (prev net : NetStats)
      (running before switches : ℕ) where
    abbrev pub displayed : Gauge → F.Carrier → F.Carrier
    displayed cpu_usage old = share
    displayed memory_usage old = memory
    displayed disk_reads old = of_ull F disk.reads
    displayed disk_writes old = of_ull F disk.writes
    displayed disk_read_time old = F.div (of_ull F disk.reads) (of_ull F 1000)
    displayed disk_write_time old = F.div (of_ull F disk.writes) (of_ull F 1000)
    displayed network_bandwidth_rx old = of_ull F (net.bytes_received - prev.bytes_received)
    displayed network_bandwidth_tx old = of_ull F (net.bytes_transmitted - prev.bytes_transmitted)
    displayed network_packet_ratio old =
        if ltb 0 net.packets_received
        then F.div (of_ull F net.packets_transmitted) (of_ull F net.packets_received)
        else zero_value F
    displayed count_processes old = of_ull F running
    displayed context_switches old =
        if ltb before switches then of_ull F (switches - before) else old
    displayed g old = old

    updated-displayed :
        Within F 0 100 share
        → Within F 0 100 memory
        → prev.bytes_received ≤ net.bytes_received
        → net.bytes_received < modulus
        → prev.bytes_transmitted ≤ net.bytes_transmitted
        → net.bytes_transmitted < modulus
        → 0 < switches
        → before ≤ switches
        → switches < modulus
        → (g : Gauge) (old : F.Carrier)
        → updated F share memory disk prev net (pos running) before switches g old ≡ displayed g old
    updated-displayed share_in memory_in rx_le rx_lt tx_le tx_lt positive le lt cpu_usage old =
        rw share_in.above refl
    updated-displayed share_in memory_in rx_le rx_lt tx_le tx_lt positive le lt memory_usage old =
        rw memory_in.above refl
    updated-displayed share_in memory_in rx_le rx_lt tx_le tx_lt positive le lt network_bandwidth_rx
          old =
        ap (of_ull F) (sub64_exact _ _ rx_le rx_lt)
    updated-displayed share_in memory_in rx_le rx_lt tx_le tx_lt positive le lt network_bandwidth_tx
          old =
        ap (of_ull F) (sub64_exact _ _ tx_le tx_lt)
    updated-displayed share_in memory_in rx_le rx_lt tx_le tx_lt positive le lt context_switches
          old =
        rw (sub64_exact switches before le lt) (ground arith)
    updated-displayed share_in memory_in rx_le rx_lt tx_le tx_lt positive le lt g old = refl

    switches_kept : 0 < switches → (context_switches_step F switches before).1 ≡ switches
    unfolding context_switches_step
    switches_kept positive = ground arith

  module _ (k : Snapshot) (h : IsKernel k) (s : CpuState F) where
    -- With the laws of floating point, when every file is in the kernel's layout, and no counter of
    -- the processor, of the network or of the context switches went back, of which the first moved
    -- on, the six functions, called one after the other, return. Then the gauges show, of what the
    -- kernel reported: the share of the time elapsed in which the processor was busy; the share of
    -- the memory in use; the numbers of reads and writes of the disk, those of its first entry for
    -- "sda" or zeros, and in the gauges of its times, which are not the times that the kernel
    -- reported, a thousandth of these numbers; the bytes since the call before and the ratio of
    -- packets of the interface; the processes that run; and the context switches since the call
    -- before, if there are any. The other gauges are as they were. What is kept for the next call
    -- are the counters read.
    pub gauges_display :
        (laws : IsLawful F) (prev : NetStats) (before : ℕ)
        → Later s.prev k.times
        → elapsed s.prev < elapsed k.times
        → prev.bytes_received ≤ (find_interface interface k.interfaces).bytes_received
        → prev.bytes_transmitted ≤ (find_interface interface k.interfaces).bytes_transmitted
        → 0 < k.switches
        → before ≤ k.switches
        → let net = find_interface interface k.interfaces in
          let share = busy_share F k.times s.prev in
          let memory = percentage F (k.total - k.available) k.total in
          let cpu = update_cpu_gauge F (files k).stat s in
          let network = update_network_metrics F k.garbage (files k).net_dev prev in
          let switches = update_context_switches_metric F (files k).stat_later before in
          (disk : DiskStats) × (cs : List (Call F)) × (find_disk k.disks ≡ some disk)
          × (update_disk_metrics F (files k).diskstats ≡ some cs)
          × ((g : Gauge) (old : F.Carrier)
              → final_value F (is g) (six_updates F (files k) s prev before cs) old
                ≡ displayed share memory disk prev net k.running before k.switches g old)
          × (cpu.1 ≡ record { prev = k.times; percent = share })
          × (network.1 ≡ net)
          × (switches.1 ≡ k.switches)
    gauges_display laws prev before later advance rx tx some_switches le =
        let (disk, found) = find_disk_safe k.disks h.short in
        let net = find_interface interface k.interfaces in
        let share = busy_share F k.times s.prev in
        let memory = percentage F (k.total - k.available) k.total in
        let read = get_disk_stats-find_disk k.disks h.disks ∙ found in
        let six = six_updates_lem F (files k) s prev before disk read in
        let cpu = cpu_reading F k h s later advance in
        let share_in =
          busy_share-Within F laws k.times s h.times later
            (moved (elapsed k.times) (elapsed s.prev) advance) in
        let memory_in =
          percentage-Within F laws (k.total - k.available) k.total
            (some_total k.available k.total h.some_memory h.less_memory) (omega arith) in
        let fits : NetFits net =
          subst NetFits (network_reading F k h s)
            (get_network_stats-NetFits k.garbage interface (files k).net_dev) in
        let values =
          updated-displayed share memory disk prev net k.running before k.switches share_in
            memory_in rx fits.bytes_received tx fits.bytes_transmitted some_switches le
            h.switches in
        (
          disk,
          six.0,
          found,
          six.1.made,
          λ g old.
              six.1.values g old
              ∙ rw
                  (
                    cpu,
                    memory_reading F k h s,
                    network_reading F k h s,
                    running_reading F k h s,
                    switches_reading F k h s,
                  )
                  (values g old),
          six.1.cpu ∙ ap (λ (r : F.Carrier × CpuState F). r.1) cpu,
          six.1.network ∙ network_reading F k h s,
          six.1.switches
              ∙ ap (λ (n : ℕ). (context_switches_step F n before).1) (switches_reading F k h s)
              ∙ switches_kept share memory disk prev net k.running before k.switches some_switches,
        )
