-- ===== src/Main/GaugeValues.antt =====
-- The values that the functions `update_*` leave in their gauges, from the values that they read.
use monitor_program.Base.{
  ℕ, ◌≡◌, refl, sym, ap, ◌∙◌, arith, Bool, true, false, List, String, [], ◌∷◌, ◌++◌, ltb, ◌&&◌,
  if◌then◌else◌,
}
use monitor_program.Base.Int.{ℤ, is_nonneg}
use monitor_program.Libc.Word.{sub64}
use monitor_program.Libc.Stdio.{FileCall}
use monitor_program.Double.{Double, of_ull}
use monitor_program.Metrics.Disk.{DiskStats}
use monitor_program.Metrics.Network.{NetStats}
use monitor_program.Expose.{
  Gauge, Call, report, read_calls, cpu_usage, memory_usage, disk_reads, disk_writes, disk_read_time,
  disk_write_time, network_bandwidth_tx, network_bandwidth_rx, network_packet_ratio,
  count_processes, context_switches,
}
use monitor_program.Expose.Update.{
  zero_value, guarded_set, cpu_calls, memory_calls, disk_calls, network_calls, processes_calls,
  context_switches_step,
}
use monitor_program.Expose.Values.{final_value, final_value-append}
use monitor_program.Main.Gauges.{is}

module _ (F : Double) where
  -- That calls leave the same values in every gauge.
  pub record Alike (a b : List (Call F)) : Type 0 where
    pub same :
        (this : Gauge → Bool) (old : F.Carrier)
        → final_value F this a old ≡ final_value F this b old

  pub Alike-append : {a b c d : List (Call F)} → Alike a b → Alike c d → Alike (a ++ c) (b ++ d)
  Alike-append {a} {b} {c} {d} h k = record {
    same = λ this old.
        final_value-append F this a c old
        ∙ k.same this (final_value F this a old)
        ∙ ap (final_value F this d) (h.same this old)
        ∙ sym (final_value-append F this b d old);
  }

  pub final_value-read_calls :
      (fs : List FileCall) (cs : List (Call F)) (this : Gauge → Bool) (old : F.Carrier)
      → final_value F this (read_calls F fs ++ cs) old ≡ final_value F this cs old
  final_value-read_calls [] cs this old = refl
  final_value-read_calls (f ∷ fs) cs this old = final_value-read_calls fs cs this old

  -- A gauge that is set if a test holds, and reported else.
  abbrev kept : Gauge → Bool → F.Carrier → Gauge → F.Carrier → F.Carrier
  kept i t v g old = if is g i then (if t then v else old) else old

  final_value-kept :
      (i : Gauge) (t : Bool) (v : F.Carrier) (rest : List (Call F)) (g : Gauge) (old : F.Carrier)
      → ((this : Gauge → Bool) (old : F.Carrier) → final_value F this rest old ≡ old)
      → final_value F (is g) (if t then guarded_set F i v else rest) old ≡ kept i t v g old
  final_value-kept i true v rest g old h = refl
  final_value-kept i false v rest g old h = h (is g) old ∙ ground arith

  -- What the gauges show after the six functions, of the values read.
  module _ (usage memory : F.Carrier) (disk : DiskStats) (prev net : NetStats) (running : ℤ)
      (before switches : ℕ) where
    abbrev pub updated : Gauge → F.Carrier → F.Carrier
    updated cpu_usage old = if F.le (zero_value F) usage then usage else old
    updated memory_usage old = if F.le (zero_value F) memory then memory else old
    updated disk_reads old = of_ull F disk.reads
    updated disk_writes old = of_ull F disk.writes
    updated disk_read_time old = F.div (of_ull F disk.reads) (of_ull F 1000)
    updated disk_write_time old = F.div (of_ull F disk.writes) (of_ull F 1000)
    updated network_bandwidth_rx old = of_ull F (sub64 net.bytes_received prev.bytes_received)
    updated network_bandwidth_tx old = of_ull F (sub64 net.bytes_transmitted prev.bytes_transmitted)
    updated network_packet_ratio old =
        if ltb 0 net.packets_received
        then F.div (of_ull F net.packets_transmitted) (of_ull F net.packets_received)
        else zero_value F
    updated count_processes old = if is_nonneg running then F.of_int running else old
    updated context_switches old =
        if ltb 0 switches
        then (if ltb 0 (sub64 switches before) then of_ull F (sub64 switches before) else old)
        else old
    updated g old = old

    -- The calls beside the reading.
    abbrev pub unread_calls : List (Call F)
    unread_calls =
        disk_calls F disk
        ++ (cpu_calls F usage
            ++ (memory_calls F memory
                ++ (network_calls F prev net
                    ++ (processes_calls F running ++ (context_switches_step F switches before).0))))

    final_value-switches :
        (g : Gauge) (old : F.Carrier)
        → final_value F (is g) (context_switches_step F switches before).0 old
          ≡ kept context_switches
              (ltb 0 switches && ltb 0 (sub64 switches before))
              (of_ull F (sub64 switches before))
              g
              old
    unfolding context_switches_step
    final_value-switches g old = ground arith

    -- The same by the functions, one after the other.
    abbrev in_turn : Gauge → F.Carrier → F.Carrier
    in_turn g old =
        let this = is g in
        let after_disk = final_value F this (disk_calls F disk) old in
        let after_cpu = kept cpu_usage (F.le (zero_value F) usage) usage g after_disk in
        let after_memory = kept memory_usage (F.le (zero_value F) memory) memory g after_cpu in
        let after_network = final_value F this (network_calls F prev net) after_memory in
        let after_processes =
          kept count_processes (is_nonneg running) (F.of_int running) g after_network in
        kept context_switches (ltb 0 switches && ltb 0 (sub64 switches before))
          (of_ull F (sub64 switches before)) g after_processes

    in_turn-updated : (g : Gauge) (old : F.Carrier) → in_turn g old ≡ updated g old
    unfolding disk_calls network_calls
    in_turn-updated context_switches old = ground arith
    in_turn-updated g old = refl

    final_value-in_turn :
        (g : Gauge) (old : F.Carrier) → final_value F (is g) unread_calls old ≡ in_turn g old
    unfolding cpu_calls memory_calls processes_calls
    final_value-in_turn g old =
        let turn = final_value-append F (is g) in
        let set = (λ (i : Gauge) (t : Bool) (v : F.Carrier) (message : String) (old : F.Carrier).
          final_value-kept i t v (report message ∷ []) g old (λ this old. refl)) in
        simp (turn, set, final_value-switches)

    pub final_value-unread_calls :
        (g : Gauge) (old : F.Carrier) → final_value F (is g) unread_calls old ≡ updated g old
    final_value-unread_calls g old = final_value-in_turn g old ∙ in_turn-updated g old
