-- ===== src/Tests/Network.antt =====
-- The reading of /proc/net/dev on a short file.
use monitor_program.Base.{◌≡◌, refl, arith, false, some, [], ◌∷◌, Bytes, codes}
use monitor_program.Libc.Stream.{fgets, read_lines, is_line}
use monitor_program.Libc.Scan.{sscanf, convert, run}
use monitor_program.Libc.Scan.Decimal.{decimal}
use monitor_program.Libc.Text.{strcmp_eq}
use monitor_program.Metrics.Network.{no_net_stats, get_network_stats}
use monitor_program.Metrics.Network.Line
use monitor_program.Metrics.Network.Reading

abbrev net_entry : Bytes → Line.Entry
net_entry others = record {
  initial = b'w';
  others = others;
  rx_bytes = 1000;
  rx_packets = 10;
  rx_errs = 0;
  rx_drop = 0;
  rx_fifo = 0;
  rx_frame = 0;
  rx_compressed = 0;
  rx_multicast = 0;
  tx_bytes = 500;
  tx_packets = 5;
  gap = λ n. 2;
  tail = codes " 0\n";
}

-- The two lines of titles, cut short.
abbrev pub titles : Bytes
titles = codes "Inter-|   Receive  |  Transmit\n face |bytes    packets errs drop\n"

abbrev net_name : Bytes
net_name = codes "wlp2s0"

abbrev pub wifi : Line.Entry
wifi = net_entry (codes "lp2s0")

-- "lo" with the four blanks that pad it.
abbrev pub loopback : Line.Entry
loopback = let e = net_entry (codes "   lo") in record e { initial = 32 }

pub wifi-IsEntry : Line.IsEntry wifi
unfolding decimal is_line
wifi-IsEntry = record {
  no_colon = ground arith;
  short = omega arith;
  rx_bytes = omega arith;
  rx_packets = omega arith;
  tx_bytes = omega arith;
  tx_packets = omega arith;
  ends = refl;
  line = refl;
}

pub loopback-IsEntry : Line.IsEntry loopback
unfolding decimal is_line
loopback-IsEntry = record {
  no_colon = ground arith;
  short = omega arith;
  rx_bytes = omega arith;
  rx_packets = omega arith;
  tx_bytes = omega arith;
  tx_packets = omega arith;
  ends = refl;
  line = refl;
}

get_network_stats-find_interface_example :
    get_network_stats [] net_name (some (Reading.netdev_file titles (loopback ∷ wifi ∷ [])))
    ≡ Reading.stats_of wifi
unfolding Reading.find_interface strcmp_eq read_lines fgets sscanf convert run
get_network_stats-find_interface_example =
    Reading.get_network_stats-find_interface [] net_name titles (loopback ∷ wifi ∷ []) refl
      (record { at = refl {a = false} }, (record { at = refl {a = false} }, tt))
      (loopback-IsEntry, (wifi-IsEntry, tt))

get_network_stats_short_name_example :
    get_network_stats [] (codes "lo") (some (Reading.netdev_file titles (loopback ∷ wifi ∷ [])))
    ≡ no_net_stats
unfolding strcmp_eq read_lines fgets sscanf convert run
get_network_stats_short_name_example =
    Reading.get_network_stats_short_name [] (codes "lo") titles (loopback ∷ wifi ∷ []) refl
      (record { at = refl {a = false} }, (record { at = refl {a = false} }, tt))
      (loopback-IsEntry, (wifi-IsEntry, tt)) (omega arith) (omega arith)
