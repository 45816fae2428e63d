-- ===== src/Metrics/Network/Line.antt =====
-- A line of /proc/net/dev, and what the formats of `get_network_stats` make of it.
use monitor_program.Base.{ℕ, suc, ◌≤◌, ◌<◌, ◌≡◌, refl, true, [], ◌∷◌, ◌++◌, Bytes, length}
use monitor_program.Libc.Word.{modulus}
use monitor_program.Libc.Stream.{IsLine}
use monitor_program.Libc.Scan.{lit, number, text, sscanf}
use monitor_program.Libc.Scan.Decimal.{decimal, stops, padded}
use monitor_program.Libc.Scan.Runs.{
  sscanf-lit, sscanf-space_unsigned, sscanf-space_skip, sscanf-nil,
}
use monitor_program.Libc.Scan.Fields.{Lacks, sscanf-until, sscanf-skip_until}
use monitor_program.Metrics.Network.{netdev_buffer_size, name_format, counters_format}

-- A line of /proc/net/dev. The label is the name as it is printed, with the blanks that pad it, and
-- is not empty: its first byte, and the others. `gap` gives the blanks in front of each column.
pub record Entry : Type 0 where
  pub initial : ℕ
  pub others : Bytes
  pub rx_bytes : ℕ
  pub rx_packets : ℕ
  pub rx_errs : ℕ
  pub rx_drop : ℕ
  pub rx_fifo : ℕ
  pub rx_frame : ℕ
  pub rx_compressed : ℕ
  pub rx_multicast : ℕ
  pub tx_bytes : ℕ
  pub tx_packets : ℕ
  pub gap : ℕ → ℕ
  pub tail : Bytes

abbrev pub label : Entry → Bytes
label e = e.initial ∷ e.others

-- "%6s: %7llu %7llu %4llu %4llu %4llu %5llu %10llu %9llu %8llu %7llu ..." of the kernel.
abbrev pub counters_of : Entry → Bytes
counters_of e = padded (e.gap 0) (
    decimal e.rx_bytes (
      padded (suc (e.gap 1)) (
        decimal e.rx_packets (
          padded (suc (e.gap 2)) (
            decimal e.rx_errs (
              padded (suc (e.gap 3)) (
                decimal e.rx_drop (
                  padded (suc (e.gap 4)) (
                    decimal e.rx_fifo (
                      padded (suc (e.gap 5)) (
                        decimal e.rx_frame (
                          padded (suc (e.gap 6)) (
                            decimal e.rx_compressed (
                              padded (suc (e.gap 7)) (
                                decimal e.rx_multicast (
                                  padded (suc (e.gap 8)) (
                                    decimal e.tx_bytes (
                                      padded (suc (e.gap 9))
                                        (decimal e.tx_packets e.tail)))))))))))))))))))

abbrev pub line_of : Entry → Bytes
line_of e = label e ++ (b':' ∷ counters_of e)

pub record IsEntry (e : Entry) : Type 0 where
  pub no_colon : Lacks b':' (label e)
  pub short : length (label e) ≤ 31
  pub rx_bytes : e.rx_bytes < modulus
  pub rx_packets : e.rx_packets < modulus
  pub tx_bytes : e.tx_bytes < modulus
  pub tx_packets : e.tx_packets < modulus
  pub ends : stops e.tail ≡ true
  pub line : IsLine netdev_buffer_size (line_of e)

module _ (e : Entry) (h : IsEntry e) where
  pub sscanf-label : sscanf name_format (line_of e) ≡ text (label e) ∷ []
  sscanf-label = rw (
    sscanf-until (lit b':' ∷ []) b':' e.initial e.others (counters_of e) h.no_colon 31 h.short,
    sscanf-lit b':' [] (counters_of e),
    sscanf-nil (counters_of e),
  )

  pub sscanf-counters :
      sscanf counters_format (line_of e)
      ≡ number e.rx_bytes ∷ number e.rx_packets ∷ number e.tx_bytes ∷ number e.tx_packets ∷ []
  sscanf-counters = rw (
    sscanf-skip_until _ b':' e.initial e.others (counters_of e) h.no_colon,
    sscanf-lit b':' _ (counters_of e),
    sscanf-space_unsigned _ (e.gap 0) e.rx_bytes _ refl h.rx_bytes,
    sscanf-space_unsigned _ (suc (e.gap 1)) e.rx_packets _ refl h.rx_packets,
    sscanf-space_skip _ (suc (e.gap 2)) e.rx_errs _ refl,
    sscanf-space_skip _ (suc (e.gap 3)) e.rx_drop _ refl,
    sscanf-space_skip _ (suc (e.gap 4)) e.rx_fifo _ refl,
    sscanf-space_skip _ (suc (e.gap 5)) e.rx_frame _ refl,
    sscanf-space_skip _ (suc (e.gap 6)) e.rx_compressed _ refl,
    sscanf-space_skip _ (suc (e.gap 7)) e.rx_multicast _ refl,
    sscanf-space_unsigned _ (suc (e.gap 8)) e.tx_bytes _ refl h.tx_bytes,
    sscanf-space_unsigned [] (suc (e.gap 9)) e.tx_packets e.tail h.ends h.tx_packets,
    sscanf-nil e.tail,
  )
