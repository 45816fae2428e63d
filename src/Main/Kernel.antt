-- ===== src/Main/Kernel.antt =====
-- A run of `main` over files in the kernel's layout.
use monitor_program.Base.{
  same_value, ◌<◌, Bool, true, Option, some, List, [], ◌∷◌, ◌++◌, Bytes, All, ◌≡◌, refl, ap, ◌∙◌,
}
use monitor_program.Double.{Double}
use monitor_program.Metrics.Cpu.{CpuState}
use monitor_program.Metrics.Cpu.Step.{elapsed, Later, busy_share}
use monitor_program.Metrics.Disk.{get_disk_stats}
use monitor_program.Metrics.Disk.Reading.{find_disk, find_disk_safe, get_disk_stats-find_disk}
use monitor_program.Expose.Init.{Faults, goes_on, init_metrics}
use monitor_program.Json.{Proc, JsonCall, Field}
use monitor_program.Json.Quiet.{send_metrics_as_json_quiet}
use monitor_program.Json.Rounds.{send_rounds}
use monitor_program.Json.Effects.{written, shown, shown-append}
use monitor_program.Json.Resources.{line_written, pipe_message}
use monitor_program.Json.Kernel.{
  reported_fields, Snapshot, files, IsKernel, cpu_reading, fields_read,
}
use monitor_program.Simulation.{Library}
use monitor_program.Simulation.Bounds.{AllValid}
use monitor_program.Main.{Monitor, ProgramState, Run, main}
use monitor_program.Main.Sent.{sent_of}
use monitor_program.Main.Total.{Safe}
use monitor_program.Main.Transcript.{disk_of, transcript, main_transcript}

-- What the kernel reports in each round, and whether the pipe opens.
abbrev pub rounds_of : List (Bool × Snapshot) → List (Bool × Proc)
rounds_of [] = []
rounds_of ((opens, k) ∷ ks) = (opens, files k) ∷ rounds_of ks

disk_reading : (k : Snapshot) → IsKernel k → get_disk_stats (files k).diskstats ≡ find_disk k.disks
disk_reading k h = get_disk_stats-find_disk k.disks h.disks

module _ (F : Double) where
  -- The processor's state after a round.
  abbrev pub state_after : Snapshot → CpuState F → CpuState F
  state_after k s = record { prev = k.times; percent = busy_share F k.times s.prev }

  -- In each round the files are in the kernel's layout, and the processor's counters moved on since
  -- the round before and none went back.
  abbrev pub Advances : List (Bool × Snapshot) → CpuState F → Type 0
  Advances [] s = Unit {0}
  Advances ((opens, k) ∷ ks) s =
      IsKernel k
      × Later s.prev k.times
      × (elapsed s.prev < elapsed k.times)
      × Advances ks (state_after k s)

  -- The fields for what the kernel reports.
  abbrev pub reported : Snapshot → CpuState F → List (Field F)
  reported k s = reported_fields F k s (disk_of (find_disk k.disks))

  rounds_of-Safe :
      (ks : List (Bool × Snapshot)) (s : CpuState F) → Advances ks s → All Safe (rounds_of ks)
  rounds_of-Safe [] s h = tt
  rounds_of-Safe ((opens, k) ∷ ks) s (h, later, advance, rest) =
      let (disk, found) = find_disk_safe k.disks h.short in
      ((disk, disk_reading k h ∙ found), rounds_of-Safe ks (state_after k s) rest)

  module _ (print : List (Field F) → Option Bytes) where
    -- The texts of the rounds in which the pipe opens and there is one.
    abbrev pub texts : List (Bool × Snapshot) → CpuState F → List Bytes
    texts [] s = []
    texts ((opens, k) ∷ ks) s =
        line_written opens (print (reported k s)) ++ texts ks (state_after k s)

    -- The message for the pipe in each round in which it does not open and there is a text.
    abbrev pub pipe_errors : List (Bool × Snapshot) → CpuState F → List JsonCall
    pipe_errors [] s = []
    pipe_errors ((opens, k) ∷ ks) s =
        pipe_message opens (print (reported k s)) ++ pipe_errors ks (state_after k s)

  module _ (L : Library) (M : Monitor F L) where
    transcript-texts :
        (ks : List (Bool × Snapshot)) (s : CpuState F)
        → Advances ks s
        → transcript F L M (rounds_of ks) s ≡ texts M.print ks s
    transcript-texts [] s h = refl
    transcript-texts ((opens, k) ∷ ks) s (h, later, advance, rest) =
        let disk = disk_of (get_disk_stats (files k).diskstats) in
        rw
          (
            fields_read F k h s M.print opens disk later advance,
            disk_reading k h,
            cpu_reading F k h s later advance,
            transcript-texts ks (state_after k s) rest,
          )
          refl

    send_rounds-shown :
        (ks : List (Bool × Snapshot)) (s : CpuState F)
        → Advances ks s
        → (cs : List JsonCall) × (send_rounds F M.print (rounds_of ks) s ≡ some cs)
          × (shown cs ≡ pipe_errors M.print ks s)
    unfolding send_rounds
    send_rounds-shown [] s h = ([], refl, unfold shown in refl)
    send_rounds-shown ((opens, k) ∷ ks) s (h, later, advance, more) =
        let first = send_metrics_as_json_quiet F k h M.print opens s later advance in
        let rest = send_rounds-shown ks (state_after k s) more in
        (
          first.1 ++ rest.0,
          rw (send_rounds, first.3, cpu_reading F k h s later advance, rest.1) refl,
          shown-append first.1 rest.0
              ∙ rw
                  (
                    first.4,
                    rest.2,
                    fields_read F k h s M.print opens first.0 later advance,
                    first.2,
                  )
                  refl,
        )

    -- When each registration returns, from valid rows, when in each round every file is in the
    -- kernel's layout, and the processor's counters moved on since the round before and none went
    -- back, a run of `main` whose thread is created returns 0 after any number of rounds. The texts
    -- that it writes to the pipe are, for each round in which the pipe opens and the text can be
    -- made, in order, those of the names and values of `reported_fields`: the share of the time
    -- between two rounds in which the processor was busy, the share of the memory in use, the
    -- counters of the first entry for "sda", its times divided by 1000, the bytes of the interface
    -- and the ratio of its packets, the processes that run and the context switches, as the kernel
    -- reported them. The reading and the sending report nothing, but that the pipe does not open,
    -- once for each round in which that is so and there is a text.
    pub main_kernel :
        (faults : Faults) (ks : List (Bool × Snapshot)) (s : ProgramState F L M)
        → goes_on F faults (init_metrics F faults) ≡ true
        → AllValid L s.simulation
        → Advances ks s.cpu
        → (r : Run F L M) × (main F L M faults true (rounds_of ks) s ≡ some (0, r))
          × (written (sent_of F r.calls) ≡ texts M.print ks s.cpu)
          × (shown (sent_of F r.calls) ≡ pipe_errors M.print ks s.cpu)
    main_kernel faults ks s works h advances =
        let run =
          main_transcript F L M faults (rounds_of ks) s works h
            (rounds_of-Safe ks s.cpu advances) in
        let quiet = send_rounds-shown ks s.cpu advances in
        (
          run.0,
          run.1,
          run.2.lines ∙ transcript-texts ks s.cpu advances,
          ap shown (same_value (sent_of F run.0.calls) quiet.0 _ run.2.sent quiet.1) ∙ quiet.2,
        )
