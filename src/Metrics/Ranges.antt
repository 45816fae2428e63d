-- ===== src/Metrics/Ranges.antt =====
-- The ranges of the counters of the network that `get_network_stats` of src/metrics.c returns.
use monitor_program.Base.{
  ◌<◌, arith, Bool-cases, inl, inr, Option, none, some, List, [], ◌∷◌, Bytes, All,
}
use monitor_program.Libc.Word.{modulus}
use monitor_program.Libc.Text.{strcmp_eq}
use monitor_program.Libc.Scan.{Value, sscanf}
use monitor_program.Libc.Scan.Words.{IsWord, sscanf-IsWord}
use monitor_program.Metrics.Network.{
  NetStats, no_net_stats, name_after, name_format, counters_format, assign_counters, scan_netdev,
  get_network_stats,
}

pub record NetFits (n : NetStats) : Type 0 where
  pub bytes_received : n.bytes_received < modulus
  pub bytes_transmitted : n.bytes_transmitted < modulus
  pub packets_received : n.packets_received < modulus
  pub packets_transmitted : n.packets_transmitted < modulus

no_net_stats-NetFits : NetFits no_net_stats
no_net_stats-NetFits = omega arith

assign_counters-NetFits : (vs : List Value) → All IsWord vs → NetFits (assign_counters vs)
unfolding assign_counters
assign_counters-NetFits vs h = ground arith

scan_netdev-NetFits :
    (interface : Bytes) (lines : List Bytes) (iface : Bytes)
    → NetFits (scan_netdev interface lines iface)
unfolding scan_netdev
scan_netdev-NetFits interface [] iface = no_net_stats-NetFits
scan_netdev-NetFits interface (line ∷ lines) iface =
    let name = name_after (sscanf name_format line) iface in
    elim (Bool-cases (strcmp_eq name interface)) [
      | inl e ↦ rw e (assign_counters-NetFits _ (sscanf-IsWord counters_format line))
      | inr e ↦ rw e (scan_netdev-NetFits interface lines name)
    ]

pub get_network_stats-NetFits :
    (garbage interface : Bytes) (file : Option Bytes)
    → NetFits (get_network_stats garbage interface file)
unfolding get_network_stats
get_network_stats-NetFits garbage interface none = no_net_stats-NetFits
get_network_stats-NetFits garbage interface (some content) = scan_netdev-NetFits interface _ garbage
