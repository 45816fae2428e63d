-- ===== src/Metrics/ContextSwitches/Reading.antt =====
-- `get_context_switches` on a file in the kernel's layout.
use mathlib.Core.List.{append-nil}
use monitor_program.Base.{
  ℕ, ◌<◌, ◌≡◌, refl, sym, ap, ◌∙◌, arith, true, false, some, List, [], ◌∷◌, ◌++◌, Bytes, codes, All,
}
use monitor_program.Libc.Word.{modulus}
use monitor_program.Libc.Stream.{read_lines, IsLine}
use monitor_program.Libc.Stream.Append.{ends_line, read_lines-append, read_lines-line}
use monitor_program.Libc.Scan.{space, unsigned}
use monitor_program.Libc.Scan.Decimal.{decimal, padded}
use monitor_program.Libc.Scan.Runs.{starts_with, sscanf-bytes_ne, sscanf-labelled}
use monitor_program.Metrics.Cpu.{stat_buffer_size}
use monitor_program.Metrics.ContextSwitches.{scan_ctxt, get_context_switches}

abbrev pub ctxt_line : ℕ → Bytes
ctxt_line n = codes "ctxt" ++ padded 1 (decimal n (10 ∷ []))

-- Text of which no round of the reading loop starts with "ctxt". Its lines may be longer than the
-- buffer, as the line of interrupt counts is.
abbrev pub NoCtxt : Bytes → Type 0
NoCtxt s =
    (ends_line s ≡ true)
    × All (λ l. starts_with l (codes "ctxt") ≡ false) (read_lines stat_buffer_size s)

scan_ctxt-other :
    (others lines : List Bytes)
    → All (λ l. starts_with l (codes "ctxt") ≡ false) others
    → scan_ctxt (others ++ lines) ≡ scan_ctxt lines
unfolding scan_ctxt
scan_ctxt-other [] lines h = refl
scan_ctxt-other (line ∷ others) lines (h, hs) =
    rw (sscanf-bytes_ne (codes "ctxt") (space ∷ unsigned 64 ∷ []) line h, scan_ctxt)
      (scan_ctxt-other others lines hs)

scan_ctxt-line : (n : ℕ) (lines : List Bytes) → n < modulus → scan_ctxt (ctxt_line n ∷ lines) ≡ n
unfolding scan_ctxt
scan_ctxt-line n lines h =
    rw (sscanf-labelled [] 1 n (10 ∷ []) refl (codes "ctxt") h, scan_ctxt) refl

-- The program finds the number of the line "ctxt", wherever it stands in the file and however long
-- the lines before it are.
pub get_context_switches_exact :
    (before : Bytes) (n : ℕ) (after : Bytes)
    → NoCtxt before
    → n < modulus
    → IsLine stat_buffer_size (ctxt_line n)
    → get_context_switches (some (before ++ (ctxt_line n ++ after))) ≡ n
unfolding get_context_switches
get_context_switches_exact before n after h fits line =
    rw
      (
        read_lines-append stat_buffer_size before (ctxt_line n ++ after) (omega arith) h.0,
        scan_ctxt-other _ _ h.1,
        read_lines-line stat_buffer_size (ctxt_line n) after (omega arith) line,
      )
      (scan_ctxt-line n _ fits)

-- A file without such a line gives 0.
pub get_context_switches_missing : (s : Bytes) → NoCtxt s → get_context_switches (some s) ≡ 0
unfolding get_context_switches
get_context_switches_missing s h =
    let lines = read_lines stat_buffer_size s in
    ap scan_ctxt (sym (append-nil lines)) ∙ scan_ctxt-other lines [] h.1 ∙ unfold scan_ctxt in refl
