-- ===== src/Metrics/Memory/Errors.antt =====
-- `get_memory_usage` where /proc/meminfo lacks an entry, or has more available than there is.
use monitor_program.Base.{
  ℕ, ◌-◌, ◌<◌, ◌≡◌, refl, sym, ap, ◌∙◌, arith, true, some, List, [], ◌++◌, Bytes, All,
}
use mathlib.Core.List.{append-nil}
use monitor_program.Base.Int.{negsuc}
use monitor_program.Libc.Word.{modulus, sub64_wraps}
use monitor_program.Libc.Stream.Append.{read_lines-append, read_lines-line}
use monitor_program.Double.{Double, IsLawful, of_ull, percentage}
use monitor_program.Double.Range.{percentage_above}
use monitor_program.Metrics.Memory.{
  meminfo_buffer_size, scan_meminfo, memory_percent, get_memory_usage,
}
use monitor_program.Metrics.Memory.Reading.{
  entry, total_name, available_name, IsOther, OtherLines, EntryLine, meminfo_file,
  scan_meminfo-file, scan_meminfo-other, scan_meminfo-total, scan_meminfo-available,
}

scan_meminfo-others :
    (lines : List Bytes) (total : ℕ) → All IsOther lines → scan_meminfo lines total 0 ≡ (total, 0)
scan_meminfo-others lines total h =
    ap (λ (ls : List Bytes). scan_meminfo ls total 0) (sym (append-nil lines))
    ∙ scan_meminfo-other lines [] total 0 h
    ∙ unfold scan_meminfo in refl

module _ (F : Double) where
  memory_percent_wraps :
      (total available : ℕ)
      → 0 < total
      → total < available
      → available < modulus
      → memory_percent F total available ≡ percentage F (modulus - (available - total)) total
  unfolding memory_percent
  memory_percent_wraps total available some_memory lt fits =
      ground (arith, sub64_wraps total available lt fits)

  -- From a file in the kernel's layout with more memory available than there is in all, the usage
  -- is that of the wrapped difference, 2 ^ 64 - (available - total), at least 100 percent.
  pub get_memory_usage_wraps :
      (laws : IsLawful F) (before : Bytes) (blanks total : ℕ) (between : Bytes)
      (blanks' available : ℕ) (after : Bytes)
      → OtherLines before
      → EntryLine total_name blanks total
      → OtherLines between
      → EntryLine available_name blanks' available
      → 0 < total
      → total < available
      → let value = percentage F (modulus - (available - total)) total in
        (get_memory_usage F
            (some (meminfo_file before blanks total between blanks' available after))
          ≡ value)
        × (F.le (of_ull F 100) value ≡ true)
  unfolding get_memory_usage
  get_memory_usage_wraps laws before blanks total between blanks' available after hb ht hc ha
        present lt =
      (
        rw (scan_meminfo-file before blanks total between blanks' available after hb ht hc ha)
            (memory_percent_wraps total available present lt ha.0),
        percentage_above F laws (modulus - (available - total)) total present (omega (arith, ha.0)),
      )

  memory_percent_missing :
      (n : ℕ)
      → (memory_percent F n 0 ≡ F.of_int (negsuc 0)) × (memory_percent F 0 n ≡ F.of_int (negsuc 0))
  unfolding memory_percent
  memory_percent_missing n = (ground arith, ground arith)

  -- Where an entry is missing the usage is -1.0, whatever the other one says: on a file with a
  -- total and without available memory, as kernels before 3.14 write it, and on one without a
  -- total.
  pub get_memory_usage_missing :
      (before : Bytes) (blanks total blanks' available : ℕ) (after : Bytes)
      → OtherLines before
      → EntryLine total_name blanks total
      → EntryLine available_name blanks' available
      → OtherLines after
      → (get_memory_usage F (some (before ++ (entry total_name blanks total ++ after)))
          ≡ F.of_int (negsuc 0))
        × (get_memory_usage F (some (before ++ (entry available_name blanks' available ++ after)))
            ≡ F.of_int (negsuc 0))
  unfolding get_memory_usage
  get_memory_usage_missing before blanks total blanks' available after hb ht ha hc = (
    rw
        (
          read_lines-append meminfo_buffer_size before _ (omega arith) hb.0,
          scan_meminfo-other _ _ 0 0 hb.1,
          read_lines-line meminfo_buffer_size _ _ (omega arith) ht.1,
          scan_meminfo-total blanks total ht.0,
          scan_meminfo-others _ total hc.1,
        )
        (memory_percent_missing total).0,
    rw
        (
          read_lines-append meminfo_buffer_size before _ (omega arith) hb.0,
          scan_meminfo-other _ _ 0 0 hb.1,
          read_lines-line meminfo_buffer_size _ _ (omega arith) ha.1,
          scan_meminfo-available blanks' available ha.0,
        )
        (memory_percent_missing available).1,
  )
