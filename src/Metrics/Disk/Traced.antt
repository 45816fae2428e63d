-- ===== src/Metrics/Disk/Traced.antt =====
-- `get_disk_stats` with its calls of stdio, among them a line on the standard output for each line
-- of the file that does not have the eleven columns.
use mathlib.Core.Option
use mathlib.Core.List.{append-nil}
use monitor_program.Base.{
  ◌≡◌, refl, ◌∙◌, arith, true, false, Bool-cases, Option, Option-cases, none, some, inl, inr, List,
  [], ◌∷◌, ◌++◌, Bytes, codes, All, if◌then◌else◌, String, sym, ap, subst, subst,
}
use monitor_program.Libc.Stream.{read_lines}
use monitor_program.Libc.Text.{strcmp_eq}
use monitor_program.Libc.Scan.{sscanf, sscanf_return}
use monitor_program.Libc.Stdio.{
  FileCall, opened, closed, system_error, printed, go_on, leave, Round, read_all, fold_lines, said,
  read_all-fold_lines,
}
use monitor_program.Libc.Stdio.Tidy.{uses, messages, uses-loop, messages-loop, IsMessage}
use monitor_program.Metrics.Disk.{
  diskstats_buffer_size, DiskStats, no_disk_stats, disk_format, overflows, disk_row, scan_diskstats,
  get_disk_stats,
}

abbrev pub bad_line : String
bad_line = "sscanf no pudo leer las 11 columnas. Retorno: %d\n"

-- The body of the loop, with `stats`, which is `none` from a write past `device_name` on.
unfoldable pub diskstats_round : Round (Option DiskStats)
diskstats_round line stats =
    let columns = sscanf disk_format line in
    if overflows columns then ([], leave none) else (elim (disk_row columns) [
      | none ↦ (printed bad_line (sscanf_return disk_format line) ∷ [], go_on stats)
      | some row ↦
          if strcmp_eq row.0 (codes "sda") then ([], leave (some row.1)) else ([], go_on stats)
    ])

abbrev finish : List FileCall → Option DiskStats → Option (List FileCall × DiskStats)
finish cs none = none
finish cs (some stats) = some (cs, stats)

unfoldable pub get_disk_stats_traced : Option Bytes → Option (List FileCall × DiskStats)
unfolding diskstats_round
get_disk_stats_traced none = some (
  opened "/proc/diskstats" false ∷ system_error "Error al abrir /proc/diskstats" ∷ [],
  no_disk_stats,
)
get_disk_stats_traced (some content) =
    let r = read_all diskstats_round diskstats_buffer_size content (some no_disk_stats) in
    finish (opened "/proc/diskstats" true ∷ (r.0 ++ (closed ∷ []))) r.1

round_messages :
    (line : Bytes) (stats : Option DiskStats) → All IsMessage (diskstats_round line stats).0
unfolding diskstats_round
round_messages line stats = ground arith

scan_diskstats-fold_lines :
    (lines : List Bytes)
    → fold_lines diskstats_round lines (some no_disk_stats) ≡ scan_diskstats lines
unfolding fold_lines diskstats_round scan_diskstats
scan_diskstats-fold_lines [] = refl
scan_diskstats-fold_lines (line ∷ lines) =
    let columns = sscanf disk_format line in
    let ih = scan_diskstats-fold_lines lines in
    elim (Bool-cases (overflows columns)) [
      | inl e ↦ rw (e, fold_lines, diskstats_round, scan_diskstats) refl
      | inr e ↦ elim (Option-cases (disk_row columns)) [
        | inl bad ↦ rw (e, bad, fold_lines, diskstats_round, scan_diskstats) ih
        | inr row ↦ elim (Bool-cases (strcmp_eq row.0.0 (codes "sda"))) [
          | inl found ↦ rw (e, row.1, found, fold_lines, diskstats_round, scan_diskstats) refl
          | inr other ↦ rw (e, row.1, other, fold_lines, diskstats_round, scan_diskstats) ih
        ]
      ]
    ]

map-finish : (cs : List FileCall) (o : Option DiskStats) → Option.map (λ r. r.1) (finish cs o) ≡ o
map-finish cs none = refl
map-finish cs (some stats) = refl

pub get_disk_stats_traced-value :
    (file : Option Bytes) → Option.map (λ r. r.1) (get_disk_stats_traced file) ≡ get_disk_stats file
unfolding get_disk_stats_traced get_disk_stats
get_disk_stats_traced-value none = refl
get_disk_stats_traced-value (some content) =
    map-finish _ _
    ∙ read_all-fold_lines diskstats_round diskstats_buffer_size content (some no_disk_stats)
        (omega arith)
    ∙ scan_diskstats-fold_lines (read_lines diskstats_buffer_size content)

-- The calls, if the function returns.
abbrev pub Calls : (List FileCall → Type 0) → Option (List FileCall × DiskStats) → Type 0
Calls P none = Unit {0}
Calls P (some r) = P r.0

Calls-finish :
    (P : List FileCall → Type 0) (cs : List FileCall) (o : Option DiskStats)
    → P cs
    → Calls P (finish cs o)
Calls-finish P cs none h = tt
Calls-finish P cs (some stats) h = h

pub get_disk_stats_traced-uses :
    (file : Option Bytes)
    → Calls (λ cs. uses "/proc/diskstats" cs ≡ true) (get_disk_stats_traced file)
unfolding get_disk_stats_traced
get_disk_stats_traced-uses none = unfold uses in refl
get_disk_stats_traced-uses (some content) =
    Calls-finish (λ cs. uses "/proc/diskstats" cs ≡ true) _ _
      (uses-loop diskstats_round round_messages "/proc/diskstats" diskstats_buffer_size content
        (some no_disk_stats) [] tt refl)

-- If it returns, it makes calls that use the file so.
pub get_disk_stats_traced-some :
    (file : Option Bytes) (stats : DiskStats)
    → get_disk_stats file ≡ some stats
    → (cs : List FileCall) × (get_disk_stats_traced file ≡ some (cs, stats))
      × (uses "/proc/diskstats" cs ≡ true)
get_disk_stats_traced-some file stats e =
    let value = get_disk_stats_traced-value file in
    let used = get_disk_stats_traced-uses file in
    elim (Option-cases (get_disk_stats_traced file)) [
      | inl n ↦ absurd (Option.none-ne-some _ (sym (ap (Option.map (λ r. r.1)) n) ∙ value ∙ e))
      | inr (r, eq) ↦
          let same = Option.some-injective _ _ (sym (ap (Option.map (λ x. x.1)) eq) ∙ value ∙ e) in
          (
            r.0,
            eq ∙ ap (λ d. some (r.0, d)) same,
            subst (Calls (λ cs. uses "/proc/diskstats" cs ≡ true)) eq used,
          )
    ]

-- What the loop prints.
abbrev pub complaints : Bytes → List FileCall
complaints content =
    said diskstats_round (read_lines diskstats_buffer_size content) (some no_disk_stats)

pub get_disk_stats_traced-messages :
    (content : Bytes)
    → Calls (λ cs. messages cs ≡ complaints content) (get_disk_stats_traced (some content))
unfolding get_disk_stats_traced
get_disk_stats_traced-messages content =
    Calls-finish (λ cs. messages cs ≡ complaints content) _ _
      (messages-loop diskstats_round round_messages "/proc/diskstats" diskstats_buffer_size content
          (some no_disk_stats) [] tt (omega arith)
        ∙ append-nil (complaints content))
