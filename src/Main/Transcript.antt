-- ===== src/Main/Transcript.antt =====
-- What a run of `main` does round by round: the simulation called once, the lines that go over the
-- pipe, and the state that is left.
use monitor_program.Base.{
  Bool, ap, true, false, Option, none, some, List, [], ◌∷◌, ◌++◌, Bytes, String, All, length, ◌≡◌,
  refl, sym, ◌∙◌,
}
use monitor_program.Double.{Double}
use monitor_program.Metrics.Cpu.{CpuState, get_cpu_usage}
use monitor_program.Metrics.Cpu.Reading.{cpu_after}
use monitor_program.Metrics.Disk.{DiskStats, no_disk_stats, get_disk_stats}
use monitor_program.Expose.Init.{Faults, init_metrics, goes_on}
use monitor_program.Json.{Proc}
use monitor_program.Json.Effects.{
  releases, releases-append, written, written-append, files_read, files_read-append,
}
use monitor_program.Json.Resources.{line_written, fields, proc_files, send_metrics_as_json-releases}
use monitor_program.Json.Rounds.{send_rounds}
use monitor_program.Simulation.{Library}
use monitor_program.Simulation.Bounds.{AllValid, simulate_memory_operations-ReturnsValid}
use monitor_program.Simulation.Calls.{calls}
use monitor_program.Main.{
  Monitor, ProgramState, Run, round_calls, main_round, main_loop, main_after_init, main,
}
use monitor_program.Main.Sent.{sent_of, sent_of-init_then, sent_of-round_then}
use monitor_program.Main.Total.{Safe}

-- The counters of a reading that stays within its buffers.
abbrev pub disk_of : Option DiskStats → DiskStats
disk_of none = no_disk_stats
disk_of (some stats) = stats

abbrev stat_files : List (Bool × Proc) → List (Option Bytes)
stat_files [] = []
stat_files (input ∷ inputs) = input.1.stat ∷ stat_files inputs

-- The files of /proc, once for each round.
abbrev pub files_of : List (Bool × Proc) → List String
files_of [] = []
files_of (input ∷ inputs) = proc_files ++ files_of inputs

module _ (F : Double) (L : Library) (M : Monitor F L) where
  -- The text of the metrics of each round in which the pipe opens and the text can be made.
  abbrev pub transcript : List (Bool × Proc) → CpuState F → List Bytes
  transcript [] cpu = []
  transcript (input ∷ inputs) cpu =
      line_written input.0 (
        M.print (fields F M.print input.0 input.1 cpu (disk_of (get_disk_stats input.1.diskstats))))
      ++ transcript inputs (get_cpu_usage F input.1.stat cpu).1

  -- What rounds do from a state.
  pub record Does (inputs : List (Bool × Proc)) (s : ProgramState F L M) (r : Run F L M)
      : Type 0 where
    pub lines : written (sent_of F r.calls) ≡ transcript inputs s.cpu
    pub sent : send_rounds F M.print inputs s.cpu ≡ some (sent_of F r.calls)
    pub files : files_read (sent_of F r.calls) ≡ files_of inputs
    pub released : releases false false false false (sent_of F r.calls) ≡ true
    pub simulated : calls L (length inputs) s.simulation ≡ some r.state.simulation
    pub cpu : r.state.cpu ≡ cpu_after F (stat_files inputs) s.cpu

  main_loop-Does :
      (inputs : List (Bool × Proc)) (s : ProgramState F L M)
      → AllValid L s.simulation
      → All Safe inputs
      → (r : Run F L M) × (main_loop F L M inputs s ≡ some r) × Does inputs s r
  unfolding main_loop main_round calls send_rounds
  main_loop-Does [] s h safe = (
    record { calls = []; state = s },
    refl,
    record {
      lines = unfold written sent_of in refl;
      sent = unfold send_rounds sent_of in refl;
      files = unfold files_read sent_of in refl;
      released = unfold releases sent_of in refl;
      simulated = refl;
      cpu = refl;
    },
  )
  main_loop-Does ((opens, proc) ∷ inputs) s h ((disk, e), safe) =
      let simulation = simulate_memory_operations-ReturnsValid L s.simulation h in
      let sent = send_metrics_as_json-releases F M.print opens proc s.cpu disk e in
      let next : ProgramState F L M = record {
        simulation = simulation.0;
        cpu = (get_cpu_usage F proc.stat s.cpu).1;
      } in
      let rest = main_loop-Does inputs next simulation.2 safe in
      let all = sent_of-round_then F L M simulation.0.heap sent.0 rest.0.calls in
      (
        record {
          calls = round_calls F L M simulation.0.heap sent.0 ++ rest.0.calls;
          state = rest.0.state;
        },
        rw (simulation.1, sent.1, rest.1, main_loop, main_round) refl,
        record {
          lines = ap written all ∙ rw (written-append, sent.3, rest.2.lines, e) refl;
          sent = rw (send_rounds, sent.1, rest.2.sent) (ap some (sym all));
          files =
              ap files_read all
              ∙ files_read-append sent.0 (sent_of F rest.0.calls)
              ∙ rw (sent.4, rest.2.files);
          released =
              ap (releases false false false false) all
              ∙ releases-append false false false false sent.0 (sent_of F rest.0.calls) sent.2
              ∙ rest.2.released;
          simulated = rw simulation.1 rest.2.simulated;
          cpu = rest.2.cpu;
        },
      )

  -- The state in which the loop starts.
  abbrev pub ready : ProgramState F L M → ProgramState F L M
  ready s = record s {
    simulation = record s.simulation { heap = M.disable_unmapping s.simulation.heap };
  }

  -- When each registration returns, from valid rows, and with readings of the disk that stay within
  -- their buffers, a run of `main` whose thread is created returns 0 after any number of rounds. It
  -- writes to the pipe the text of the metrics of each round in which the pipe opens and the text
  -- can be made, in order, each from the files of its round; it opens the six files of a round once
  -- each and in order; it closes each file and the pipe before it opens another, and releases all
  -- that it made for the texts; it has called the simulation once a round, with unmapping disabled;
  -- and its processor's state is that of one reading a round.
  pub main_transcript :
      (faults : Faults) (inputs : List (Bool × Proc)) (s : ProgramState F L M)
      → goes_on F faults (init_metrics F faults) ≡ true
      → AllValid L s.simulation
      → All Safe inputs
      → (r : Run F L M) × (main F L M faults true inputs s ≡ some (0, r)) × Does inputs (ready s) r
  unfolding main main_after_init
  main_transcript faults inputs s works h safe =
      let loop = main_loop-Does inputs (ready s) h safe in
      let does = loop.2 in
      let same = sent_of-init_then F faults loop.0.calls in
      (
        record loop.0 { calls = init_metrics F faults ++ loop.0.calls },
        rw (works, loop.1, main, main_after_init) refl,
        record {
          lines = ap written same ∙ does.lines;
          sent = does.sent ∙ ap some (sym same);
          files = ap files_read same ∙ does.files;
          released = ap (releases false false false false) same ∙ does.released;
          simulated = does.simulated;
          cpu = does.cpu;
        },
      )
