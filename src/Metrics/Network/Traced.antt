-- ===== src/Metrics/Network/Traced.antt =====
-- `get_network_stats` with its calls of stdio.
use monitor_program.Base.{
  ◌≡◌, refl, ap, ◌∙◌, arith, true, false, Bool-cases, Option, none, some, inl, inr, List, [], ◌∷◌,
  ◌++◌, Bytes, if◌then◌else◌,
}
use monitor_program.Libc.Stream.{read_lines}
use monitor_program.Libc.Text.{strcmp_eq}
use monitor_program.Libc.Scan.{sscanf}
use monitor_program.Libc.Stdio.{
  FileCall, opened, closed, system_error, go_on, leave, Round, read_all, fold_lines,
  read_all-fold_lines,
}
use monitor_program.Libc.Stdio.Tidy.{
  uses, messages, quiet-messages, said-quiet, uses-loop, messages-loop,
}
use monitor_program.Metrics.Network.{
  netdev_buffer_size, NetStats, no_net_stats, name_format, counters_format, name_after,
  assign_counters, scan_netdev, get_network_stats,
}

-- The body of the loop, with `stats` and `iface_name`.
unfoldable pub netdev_round : Bytes → Round (NetStats × Bytes)
netdev_round interface_name line (stats, iface) =
    let name = name_after (sscanf name_format line) iface in
    if strcmp_eq name interface_name
    then ([], leave (assign_counters (sscanf counters_format line), name))
    else ([], go_on (stats, name))

unfoldable pub get_network_stats_traced : Bytes → Bytes → Option Bytes → List FileCall × NetStats
unfolding netdev_round
get_network_stats_traced garbage interface_name none =
    (opened "/proc/net/dev" false ∷ system_error "Error al abrir /proc/net/dev" ∷ [], no_net_stats)
get_network_stats_traced garbage interface_name (some content) =
    let r =
      read_all (netdev_round interface_name) netdev_buffer_size content (no_net_stats, garbage) in
    (opened "/proc/net/dev" true ∷ (r.0 ++ (closed ∷ [])), r.1.0)

module _ (interface_name : Bytes) where
  silent_round : (line : Bytes) (v : NetStats × Bytes) → (netdev_round interface_name line v).0 ≡ []
  unfolding netdev_round
  silent_round line v = ground arith

  scan_netdev-fold_lines :
      (lines : List Bytes) (iface : Bytes)
      → (fold_lines (netdev_round interface_name) lines (no_net_stats, iface)).0
        ≡ scan_netdev interface_name lines iface
  unfolding fold_lines netdev_round scan_netdev
  scan_netdev-fold_lines [] iface = refl
  scan_netdev-fold_lines (line ∷ lines) iface =
      let name = name_after (sscanf name_format line) iface in
      elim (Bool-cases (strcmp_eq name interface_name)) [
        | inl e ↦ rw (e, fold_lines, netdev_round, scan_netdev) refl
        | inr e ↦ rw (e, fold_lines, netdev_round, scan_netdev) (scan_netdev-fold_lines lines name)
      ]

  pub get_network_stats_traced-value :
      (garbage : Bytes) (file : Option Bytes)
      → (get_network_stats_traced garbage interface_name file).1
        ≡ get_network_stats garbage interface_name file
  unfolding get_network_stats_traced get_network_stats
  get_network_stats_traced-value garbage none = refl
  get_network_stats_traced-value garbage (some content) =
      ap (λ (r : NetStats × Bytes). r.0)
        (read_all-fold_lines (netdev_round interface_name) netdev_buffer_size content
          (no_net_stats, garbage) (omega arith))
      ∙ scan_netdev-fold_lines (read_lines netdev_buffer_size content) garbage

  pub get_network_stats_traced-uses :
      (garbage : Bytes) (file : Option Bytes)
      → uses "/proc/net/dev" (get_network_stats_traced garbage interface_name file).0 ≡ true
  unfolding get_network_stats_traced
  get_network_stats_traced-uses garbage none = unfold uses in refl
  get_network_stats_traced-uses garbage (some content) =
      let body = netdev_round interface_name in
      uses-loop body (quiet-messages body silent_round) "/proc/net/dev" netdev_buffer_size content
        (no_net_stats, garbage) [] tt refl

  pub get_network_stats_traced-messages :
      (garbage content : Bytes)
      → messages (get_network_stats_traced garbage interface_name (some content)).0 ≡ []
  unfolding get_network_stats_traced
  get_network_stats_traced-messages garbage content =
      let body = netdev_round interface_name in
      messages-loop body (quiet-messages body silent_round) "/proc/net/dev" netdev_buffer_size
        content (no_net_stats, garbage) [] tt (omega arith)
      ∙ ap (λ (ms : List FileCall). ms ++ [])
          (said-quiet body silent_round _ (no_net_stats, garbage))
