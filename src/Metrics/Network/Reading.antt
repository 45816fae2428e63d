-- ===== src/Metrics/Network/Reading.antt =====
-- `get_network_stats` on a file in the kernel's layout.
use monitor_program.Base.{
  ◌≤◌, ◌<◌, ◌≡◌, refl, ◌∙◌, arith, true, false, some, List, [], ◌∷◌, ◌++◌, Bytes, All, length,
  if◌then◌else◌,
}
use monitor_program.Libc.Text.{strcmp_eq}
use monitor_program.Libc.Stream.{read_lines, flatten, IsLine}
use monitor_program.Libc.Stream.Rounds.{read_lines-flatten}
use monitor_program.Libc.Stream.Append.{ends_line, read_lines-append}
use monitor_program.Libc.Scan.{Value, number, integer, text, sscanf}
use monitor_program.Metrics.Network.{
  netdev_buffer_size, NetStats, no_net_stats, name_format, counters_format, name_after,
  assign_counters, scan_netdev, get_network_stats,
}
use monitor_program.Metrics.Network.Line.{
  Entry, label, line_of, IsEntry, sscanf-label, sscanf-counters,
}

-- A round whose text gives a name other than the one looked for.
abbrev SkipsValues : Bytes → List Value → Type 0
SkipsValues interface (text name ∷ vs) = strcmp_eq name interface ≡ false
SkipsValues interface vs = ⊥

pub record Skips (interface : Bytes) (line : Bytes) : Type 0 where
  pub at : SkipsValues interface (sscanf name_format line)

abbrev pub netdev_lines : List Entry → List Bytes
netdev_lines [] = []
netdev_lines (e ∷ es) = line_of e ∷ netdev_lines es

-- The lines of titles, and then the entries.
abbrev pub netdev_file : Bytes → List Entry → Bytes
netdev_file titles es = titles ++ flatten (netdev_lines es)

abbrev pub stats_of : Entry → NetStats
stats_of e = record {
  bytes_received = e.rx_bytes;
  bytes_transmitted = e.tx_bytes;
  packets_received = e.rx_packets;
  packets_transmitted = e.tx_packets;
}

-- The counters of the first entry whose label is the text looked for, zeros if there is none.
unfoldable pub find_interface : Bytes → List Entry → NetStats
find_interface interface [] = no_net_stats
find_interface interface (e ∷ es) =
    let rest = find_interface interface es in
    if strcmp_eq (label e) interface then stats_of e else rest

skipped_values :
    (interface line iface : Bytes) (rest : Bytes → NetStats) (vs : List Value)
    → SkipsValues interface vs
    → (if strcmp_eq (name_after vs iface) interface
        then assign_counters (sscanf counters_format line)
        else rest (name_after vs iface))
      ≡ rest (name_after vs iface)
skipped_values interface line iface rest [] h = absurd h
skipped_values interface line iface rest (number n ∷ vs) h = absurd h
skipped_values interface line iface rest (integer i ∷ vs) h = absurd h
skipped_values interface line iface rest (text name ∷ vs) h = rw h

scan_netdev-skip :
    (interface line iface : Bytes) (lines : List Bytes)
    → Skips interface line
    → scan_netdev interface (line ∷ lines) iface
      ≡ scan_netdev interface lines (name_after (sscanf name_format line) iface)
unfolding scan_netdev
scan_netdev-skip interface line iface lines h =
    skipped_values interface line iface (scan_netdev interface lines) (sscanf name_format line) h.at

scan_netdev-entry :
    (interface iface : Bytes) (e : Entry) (lines : List Bytes)
    → IsEntry e
    → scan_netdev interface (line_of e ∷ lines) iface ≡ (
        let rest = scan_netdev interface lines (label e) in
        if strcmp_eq (label e) interface then stats_of e else rest)
unfolding scan_netdev
scan_netdev-entry interface iface e lines h =
    rw (sscanf-label e h, sscanf-counters e h, scan_netdev) refl

scan_netdev-entries :
    (interface iface : Bytes) (es : List Entry)
    → All IsEntry es
    → scan_netdev interface (netdev_lines es) iface ≡ find_interface interface es
unfolding find_interface
scan_netdev-entries interface iface [] h = unfold scan_netdev in refl
scan_netdev-entries interface iface (e ∷ es) (h, hs) =
    rw
      (
        scan_netdev-entry interface iface e (netdev_lines es) h,
        scan_netdev-entries interface (label e) es hs,
      )
      refl

scan_netdev-titles :
    (interface iface : Bytes) (lines : List Bytes) (es : List Entry)
    → All (Skips interface) lines
    → All IsEntry es
    → scan_netdev interface (lines ++ netdev_lines es) iface ≡ find_interface interface es
scan_netdev-titles interface iface [] es h he = scan_netdev-entries interface iface es he
scan_netdev-titles interface iface (line ∷ lines) es (h, hs) he =
    scan_netdev-skip interface line iface (lines ++ netdev_lines es) h
    ∙ scan_netdev-titles interface (name_after (sscanf name_format line) iface) lines es hs he

lines_of_entries :
    (es : List Entry) → All IsEntry es → All (IsLine netdev_buffer_size) (netdev_lines es)
lines_of_entries [] h = tt
lines_of_entries (e ∷ es) (h, hs) = (h.line, lines_of_entries es hs)

-- On a file of lines of titles and entries in the kernel's layout, the program finds the counters
-- of the first entry whose label, padding included, is the name given, and zeros if there is none.
pub get_network_stats-find_interface :
    (garbage interface titles : Bytes) (es : List Entry)
    → ends_line titles ≡ true
    → All (Skips interface) (read_lines netdev_buffer_size titles)
    → All IsEntry es
    → get_network_stats garbage interface (some (netdev_file titles es))
      ≡ find_interface interface es
unfolding get_network_stats
get_network_stats-find_interface garbage interface titles es ends skips h =
    rw
      (
        read_lines-append netdev_buffer_size titles (flatten (netdev_lines es)) (omega arith) ends,
        read_lines-flatten netdev_buffer_size (netdev_lines es) (lines_of_entries es h),
      )
      (scan_netdev-titles interface garbage _ es skips h)

length-strcmp_eq : (s t : Bytes) → length t < length s → strcmp_eq s t ≡ false
unfolding strcmp_eq
length-strcmp_eq [] t h = absurd (omega arith)
length-strcmp_eq (a ∷ s) [] h = refl
length-strcmp_eq (a ∷ s) (b ∷ t) h = ground (arith, length-strcmp_eq s t)

find_interface_padded :
    (interface : Bytes) (es : List Entry)
    → length interface < 6
    → All (λ e. 6 ≤ length (label e)) es
    → find_interface interface es ≡ no_net_stats
unfolding find_interface
find_interface_padded interface [] h k = refl
find_interface_padded interface (e ∷ es) h (k, ks) =
    rw (length-strcmp_eq (label e) interface (omega arith))
      (find_interface_padded interface es h ks)

-- The kernel pads each label to six bytes, so for a name of at most five the program finds zeros,
-- whatever the counters of that interface.
pub get_network_stats_short_name :
    (garbage interface titles : Bytes) (es : List Entry)
    → ends_line titles ≡ true
    → All (Skips interface) (read_lines netdev_buffer_size titles)
    → All IsEntry es
    → All (λ e. 6 ≤ length (label e)) es
    → length interface < 6
    → get_network_stats garbage interface (some (netdev_file titles es)) ≡ no_net_stats
get_network_stats_short_name garbage interface titles es ends skips h padded_labels short =
    get_network_stats-find_interface garbage interface titles es ends skips h
    ∙ find_interface_padded interface es short padded_labels
