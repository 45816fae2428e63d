-- ===== src/Metrics/Network/Garbage.antt =====
-- When what the uninitialised `iface_name` holds does not matter.
use monitor_program.Base.{ℕ, ◌≡◌, refl, false, some, List, [], ◌∷◌, Bytes, ◌==◌}
use monitor_program.Libc.Stream.Rounds.{read_lines-cons}
use monitor_program.Libc.Scan.{lit, until, Value, text, read_until, sscanf}
use monitor_program.Libc.Scan.Runs.{sscanf_assign}
use monitor_program.Libc.Scan.Fields.{convert-until}
use monitor_program.Metrics.Network.{name_format, scan_netdev, get_network_stats}

-- A line that does not begin with a colon assigns a name.
name_assigned :
    (c : ℕ) (l : Bytes)
    → (c == b':') ≡ false
    → (name : Bytes) × (vs : List Value) × (sscanf name_format (c ∷ l) ≡ text name ∷ vs)
name_assigned c l h =
    let found = read_until b':' 31 (c ∷ l) in
    (
      found.0,
      sscanf (lit b':' ∷ []) found.1,
      sscanf_assign (until 31 b':') (lit b':' ∷ []) (c ∷ l) found.1 (text found.0)
          (convert-until 31 b':' c l h),
    )

scan_netdev-assigned :
    (interface : Bytes) (c : ℕ) (l : Bytes) (lines : List Bytes) (garbage garbage' : Bytes)
    → (c == b':') ≡ false
    → scan_netdev interface ((c ∷ l) ∷ lines) garbage
      ≡ scan_netdev interface ((c ∷ l) ∷ lines) garbage'
unfolding scan_netdev
scan_netdev-assigned interface c l lines garbage garbage' h =
    let (name, vs, e) = name_assigned c l h in rw (e, scan_netdev) refl

-- If /proc/net/dev does not begin with a colon, the result does not depend on what the array
-- `iface_name`, which nothing initialises, holds before the first line is read.
pub get_network_stats_garbage :
    (interface : Bytes) (c : ℕ) (content garbage garbage' : Bytes)
    → (c == b':') ≡ false
    → get_network_stats garbage interface (some (c ∷ content))
      ≡ get_network_stats garbage' interface (some (c ∷ content))
unfolding get_network_stats
get_network_stats_garbage interface c content garbage garbage' h =
    let (l, lines, e) = read_lines-cons 510 c content in
    rw e (scan_netdev-assigned interface c l lines garbage garbage' h)
