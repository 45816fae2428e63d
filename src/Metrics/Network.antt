-- ===== src/Metrics/Network.antt =====
-- `NetStats` of include/metrics.h and `get_network_stats` of src/metrics.c.
pub mod Line
pub mod Reading
pub mod Traced
pub mod Garbage
use monitor_program.Base.{ℕ, Bool, Option, none, some, List, [], ◌∷◌, Bytes, if◌then◌else◌}
use monitor_program.Libc.Stream.{read_lines}
use monitor_program.Libc.Text.{strcmp_eq}
use monitor_program.Libc.Scan.{
  Directive, space, lit, unsigned, until, skip_until, skip_unsigned, Value, number, text, sscanf,
}

abbrev pub netdev_buffer_size : ℕ
netdev_buffer_size = 512

pub record NetStats : Type 0 where
  pub bytes_received : ℕ
  pub bytes_transmitted : ℕ
  pub packets_received : ℕ
  pub packets_transmitted : ℕ

abbrev pub no_net_stats : NetStats
no_net_stats = record {
  bytes_received = 0;
  bytes_transmitted = 0;
  packets_received = 0;
  packets_transmitted = 0;
}

-- "%31[^:]:"
abbrev pub name_format : List Directive
name_format = until 31 b':' ∷ lit b':' ∷ []

-- "%*[^:]: %llu %llu %*u %*u %*u %*u %*u %*u %llu %llu"
abbrev pub counters_format : List Directive
counters_format =
    skip_until b':'
    ∷ lit b':'
    ∷ space
    ∷ unsigned 64
    ∷ space
    ∷ unsigned 64
    ∷ space
    ∷ skip_unsigned
    ∷ space
    ∷ skip_unsigned
    ∷ space
    ∷ skip_unsigned
    ∷ space
    ∷ skip_unsigned
    ∷ space
    ∷ skip_unsigned
    ∷ space
    ∷ skip_unsigned
    ∷ space
    ∷ unsigned 64
    ∷ space
    ∷ unsigned 64
    ∷ []

-- The name that the line assigns to `iface_name`, or the one left in it.
abbrev pub name_after : List Value → Bytes → Bytes
name_after (text name ∷ vs) old = name
name_after vs old = old

-- The counters that the line assigns, over fields that start at 0.
unfoldable pub assign_counters : List Value → NetStats
assign_counters (number rx ∷ []) = record no_net_stats { bytes_received = rx }
assign_counters (number rx ∷ number rxp ∷ []) = record no_net_stats {
  bytes_received = rx;
  packets_received = rxp;
}
assign_counters (number rx ∷ number rxp ∷ number tx ∷ []) = record no_net_stats {
  bytes_received = rx;
  packets_received = rxp;
  bytes_transmitted = tx;
}
assign_counters (number rx ∷ number rxp ∷ number tx ∷ number txp ∷ vs) = record {
  bytes_received = rx;
  bytes_transmitted = tx;
  packets_received = rxp;
  packets_transmitted = txp;
}
assign_counters vs = no_net_stats

-- The loop over the lines, with `iface_name`.
unfoldable pub scan_netdev : Bytes → List Bytes → Bytes → NetStats
unfolding assign_counters
scan_netdev interface_name [] iface = no_net_stats
scan_netdev interface_name (line ∷ lines) iface =
    let name = name_after (sscanf name_format line) iface in
    let rest = scan_netdev interface_name lines name in
    if strcmp_eq name interface_name then assign_counters (sscanf counters_format line) else rest

-- `garbage` is what the local array `iface_name`, which nothing initialises, holds at first.
unfoldable pub get_network_stats : Bytes → Bytes → Option Bytes → NetStats
unfolding scan_netdev
get_network_stats garbage interface_name none = no_net_stats
get_network_stats garbage interface_name (some content) =
    scan_netdev interface_name (read_lines netdev_buffer_size content) garbage
