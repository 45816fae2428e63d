-- ===== src/Metrics/Processes/Reading.antt =====
-- `get_running_processes` on the kernel's line, and on any file.
use monitor_program.Base.{
  ℕ, ◌+◌, ◌<◌, ◌^◌, ◌/◌, ◌%◌, ◌*◌, ◌-◌, ◌≡◌, refl, ap, ◌∙◌, arith, true, some, List, [], ◌∷◌, ◌++◌,
  Bytes,
}
use monitor_program.Base.Int.{pos}
use monitor_program.Libc.Stream.{IsLine}
use monitor_program.Libc.Stream.Rounds.{fgets-append}
use monitor_program.Libc.Scan.{
  Directive, space, skip_float, pass, integer, convert, read_digits, skip_fraction, sscanf,
}
use monitor_program.Libc.Scan.Decimal.{
  decimal, stops, padded, read_digits-stops, convert_number-decimal,
}
use monitor_program.Libc.Scan.Runs.{
  sscanf-lit, sscanf-signed, sscanf-nil, sscanf-space, sscanf_pass, skip_space-blanks_decimal,
}
use monitor_program.Metrics.Processes.{loadavg_buffer_size, loadavg_format, get_running_processes}

-- One of the three averages, "%lu.%02lu".
pub record Average : Type 0 where
  pub whole : ℕ
  pub hundredths : ℕ

abbrev pub fraction : ℕ → Bytes → Bytes
fraction n rest = (b'0' + n / 10) ∷ (b'0' + n % 10) ∷ rest

abbrev pub average : Average → Bytes → Bytes
average a rest = decimal a.whole (b'.' ∷ fraction a.hundredths rest)

read_digits-fraction :
    (n : ℕ) (rest : Bytes)
    → n < 100
    → stops rest ≡ true
    → (read_digits (fraction n rest) 0).1 ≡ rest
unfolding read_digits
read_digits-fraction n rest h e = ground (
  arith,
  read_digits-stops rest ((0 * 10 + (b'0' + n / 10 - b'0')) * 10 + (b'0' + n % 10 - b'0')),
)

skip_fraction-average :
    (n : ℕ) (rest : Bytes)
    → n < 100
    → stops rest ≡ true
    → skip_fraction (b'.' ∷ fraction n rest) ≡ rest
unfolding skip_fraction
skip_fraction-average n rest h e = read_digits-fraction n rest h e

module _ (ds : List Directive) (blanks : ℕ) (a : Average) (rest : Bytes) where
  convert-average :
      a.hundredths < 100
      → stops rest ≡ true
      → convert skip_float (padded blanks (average a rest)) ≡ pass rest
  unfolding convert
  convert-average h e =
      convert_number-decimal (λ negative n left. pass (skip_fraction left)) blanks a.whole
        (b'.' ∷ fraction a.hundredths rest) refl
      ∙ ap pass (skip_fraction-average a.hundredths rest h e)

  sscanf-average :
      a.hundredths < 100
      → stops rest ≡ true
      → sscanf (skip_float ∷ ds) (padded blanks (average a rest)) ≡ sscanf ds rest
  sscanf-average h e = sscanf_pass skip_float ds _ rest (convert-average h e)

module _ (ds : List Directive) (a : Average) (rest : Bytes) where
  sscanf-space_average :
      a.hundredths < 100
      → stops rest ≡ true
      → sscanf (space ∷ skip_float ∷ ds) (padded 1 (average a rest)) ≡ sscanf ds rest
  sscanf-space_average h e =
      rw (sscanf-space, skip_space-blanks_decimal 1 a.whole) (sscanf-average ds 0 a rest h e)

-- The first line of /proc/loadavg: three averages, the processes that run, all processes, the last.
abbrev pub loadavg_line : Average → Average → Average → ℕ → ℕ → Bytes → Bytes
loadavg_line a b c running total rest = average a (
    padded 1
      (average b (padded 1 (average c (padded 1 (decimal running (b'/' ∷ decimal total rest)))))))

module _ (a b c : Average) (running total : ℕ) (rest : Bytes) where
  pub record IsLoadavg : Type 0 where
    pub first : a.hundredths < 100
    pub second : b.hundredths < 100
    pub third : c.hundredths < 100
    pub running_fits : running < 2 ^ 31
    pub total_fits : total < 2 ^ 31
    pub ends : stops rest ≡ true
    pub line : IsLine loadavg_buffer_size (loadavg_line a b c running total rest)

  sscanf-loadavg :
      IsLoadavg
      → sscanf loadavg_format (loadavg_line a b c running total rest)
        ≡ integer (pos running) ∷ integer (pos total) ∷ []
  sscanf-loadavg h = rw (
    sscanf-average _ 0 a _ h.first refl,
    sscanf-space_average _ b _ h.second refl,
    sscanf-space_average _ c _ h.third refl,
    sscanf-space,
    skip_space-blanks_decimal 1 running,
    sscanf-signed _ 0 running _ refl h.running_fits,
    sscanf-lit b'/',
    sscanf-signed [] 0 total rest h.ends h.total_fits,
    sscanf-nil rest,
  )

  -- From the kernel's line the program returns the number of running processes in front of the
  -- slash.
  pub get_running_processes_exact :
      (more : Bytes)
      → IsLoadavg
      → get_running_processes (some (loadavg_line a b c running total rest ++ more)) ≡ pos running
  unfolding get_running_processes
  get_running_processes_exact more h =
      rw
        (
          fgets-append loadavg_buffer_size (loadavg_line a b c running total rest) more h.line,
          get_running_processes,
        )
        (rw (sscanf-loadavg h) refl)
