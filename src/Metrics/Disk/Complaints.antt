-- ===== src/Metrics/Disk/Complaints.antt =====
-- `get_disk_stats` on a file with lines that lack the eleven columns among the kernel's.
use mathlib.Core.Option
use monitor_program.Base.{
  ◌≡◌, refl, ap, ◌∙◌, arith, false, Option, none, some, List, [], ◌∷◌, Bytes, codes, All, length,
  leb, if◌then◌else◌, map,
}
use monitor_program.Libc.Stream.{flatten, IsLine}
use monitor_program.Libc.Stream.Rounds.{read_lines-flatten}
use monitor_program.Libc.Text.{strcmp_eq}
use monitor_program.Libc.Scan.{sscanf, sscanf_return}
use monitor_program.Libc.Stdio.{FileCall, printed, leave, go_on, said, said-cons}
use monitor_program.Libc.Stdio.Tidy.{messages}
use monitor_program.Metrics.Disk.{
  diskstats_buffer_size, interface_name_size, DiskStats, no_disk_stats, disk_format, overflows,
  disk_row, scan_diskstats, get_disk_stats,
}
use monitor_program.Metrics.Disk.Line.{sscanf-disk_line}
use monitor_program.Metrics.Disk.Reading.{
  Entry, IsEntry, line_of, device, find_disk, stats_of, scan_diskstats-line,
}
use monitor_program.Metrics.Disk.Traced.{
  bad_line, diskstats_round, Calls, get_disk_stats_traced, get_disk_stats_traced-value,
  get_disk_stats_traced-messages,
}

-- A line of the kernel, or another one.
pub data Piece : Type 0 where
  good : Entry → Piece
  bad : Bytes → Piece

-- The other lines fit the buffer and have fewer columns, and none too long for `device_name`.
pub record IsBad (line : Bytes) : Type 0 where
  pub short : disk_row (sscanf disk_format line) ≡ none
  pub fits : overflows (sscanf disk_format line) ≡ false
  pub ends : IsLine diskstats_buffer_size line

abbrev pub IsPiece : Piece → Type 0
IsPiece (good e) = IsEntry e
IsPiece (bad line) = IsBad line

abbrev pub text_of : Piece → Bytes
text_of (good e) = line_of e
text_of (bad line) = line

abbrev pub entries : List Piece → List Entry
entries [] = []
entries (good e ∷ ps) = e ∷ entries ps
entries (bad line ∷ ps) = entries ps

-- A message for each of the other lines before the disk, with what `sscanf` returned on it.
unfoldable pub reports : List Piece → List FileCall
reports [] = []
reports (bad line ∷ ps) = printed bad_line (sscanf_return disk_format line) ∷ reports ps
reports (good e ∷ ps) =
    let rest = reports ps in
    if leb interface_name_size (length (device e))
    then []
    else if strcmp_eq (device e) (codes "sda")
    then []
    else rest

lines_of_pieces :
    (ps : List Piece) → All IsPiece ps → All (IsLine diskstats_buffer_size) (map text_of ps)
lines_of_pieces [] h = tt
lines_of_pieces (good e ∷ ps) (h, hs) = (h.line, lines_of_pieces ps hs)
lines_of_pieces (bad line ∷ ps) (h, hs) = (h.ends, lines_of_pieces ps hs)

scan_diskstats-bad :
    (line : Bytes) (lines : List Bytes)
    → IsBad line
    → scan_diskstats (line ∷ lines) ≡ scan_diskstats lines
unfolding scan_diskstats
scan_diskstats-bad line lines h = rw (h.fits, h.short, scan_diskstats) refl

scan_diskstats-pieces :
    (ps : List Piece) → All IsPiece ps → scan_diskstats (map text_of ps) ≡ find_disk (entries ps)
unfolding find_disk
scan_diskstats-pieces [] h = unfold scan_diskstats in refl
scan_diskstats-pieces (good e ∷ ps) (h, hs) =
    rw (scan_diskstats-line e (map text_of ps) h, scan_diskstats-pieces ps hs) refl
scan_diskstats-pieces (bad line ∷ ps) (h, hs) =
    scan_diskstats-bad line (map text_of ps) h ∙ scan_diskstats-pieces ps hs

round-bad :
    (line : Bytes) (v : Option DiskStats)
    → IsBad line
    → diskstats_round line v ≡ (printed bad_line (sscanf_return disk_format line) ∷ [], go_on v)
unfolding diskstats_round
round-bad line v h = rw (h.fits, h.short) refl

round-entry :
    (e : Entry) (v : Option DiskStats)
    → IsEntry e
    → diskstats_round (line_of e) v ≡ (
        if leb interface_name_size (length (device e))
        then ([], leave none)
        else if strcmp_eq (device e) (codes "sda")
        then ([], leave (some (stats_of e.row)))
        else ([], go_on v))
unfolding diskstats_round
round-entry e v h =
    rw (sscanf-disk_line e.blanks e.blanks' e.row e.tail h.fits h.ends, diskstats_round)
      (unfold overflows disk_row in refl)

said-entry :
    (e : Entry) (lines : List Bytes) (v : Option DiskStats)
    → IsEntry e
    → said diskstats_round (line_of e ∷ lines) v ≡ (
        let rest = said diskstats_round lines v in
        if leb interface_name_size (length (device e))
        then []
        else if strcmp_eq (device e) (codes "sda")
        then []
        else rest)
said-entry e lines v h =
    said-cons diskstats_round (line_of e) lines v _ (round-entry e v h) ∙ ground arith

said-bad :
    (line : Bytes) (lines : List Bytes) (v : Option DiskStats)
    → IsBad line
    → said diskstats_round (line ∷ lines) v
      ≡ printed bad_line (sscanf_return disk_format line) ∷ said diskstats_round lines v
said-bad line lines v h = said-cons diskstats_round line lines v _ (round-bad line v h)

said-pieces :
    (ps : List Piece) (v : Option DiskStats)
    → All IsPiece ps
    → said diskstats_round (map text_of ps) v ≡ reports ps
unfolding reports
said-pieces [] v h = unfold said in refl
said-pieces (good e ∷ ps) v (h, hs) =
    rw (said-entry e (map text_of ps) v h, said-pieces ps v hs) refl
said-pieces (bad line ∷ ps) v (h, hs) =
    said-bad line (map text_of ps) v h
    ∙ ap (λ (rest : List FileCall). printed bad_line (sscanf_return disk_format line) ∷ rest)
        (said-pieces ps v hs)

pub Calls-map :
    {a b : List FileCall} (r : Option (List FileCall × DiskStats))
    → a ≡ b
    → Calls (λ cs. messages cs ≡ a) r
    → Calls (λ cs. messages cs ≡ b) r
Calls-map none e h = tt
Calls-map (some r) e h = h ∙ e

-- On a file of lines of the kernel and others, the other ones change nothing: the function finds
-- what it finds without them. For each of those that it reads, which are those before the disk, it
-- prints what `sscanf` returned, in order, and it prints nothing else.
pub get_disk_stats_traced-pieces :
    (ps : List Piece)
    → All IsPiece ps
    → let r = get_disk_stats_traced (some (flatten (map text_of ps))) in
      (Option.map (λ x. x.1) r ≡ find_disk (entries ps)) × Calls (λ cs. messages cs ≡ reports ps) r
get_disk_stats_traced-pieces ps h =
    let content = flatten (map text_of ps) in
    let lines = read_lines-flatten diskstats_buffer_size (map text_of ps) (lines_of_pieces ps h) in
    (
      get_disk_stats_traced-value (some content)
          ∙ unfold get_disk_stats in ap scan_diskstats lines ∙ scan_diskstats-pieces ps h,
      Calls-map (get_disk_stats_traced (some content))
          (ap (λ ls. said diskstats_round ls (some no_disk_stats)) lines
            ∙ said-pieces ps (some no_disk_stats) h)
          (get_disk_stats_traced-messages content),
    )
