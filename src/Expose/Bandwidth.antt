-- ===== src/Expose/Bandwidth.antt =====
-- The gauges of the bandwidth over any number of calls.
use monitor_program.Base.{
  ℕ, Bool, Option, List, [], ◌∷◌, ◌++◌, Bytes, ◌∙◌, ◌≡◌, refl, arith, ◌+◌, ◌-◌, ◌≤◌, ◌<◌,
}
use monitor_program.Libc.Word.{modulus, sub64_exact}
use monitor_program.Double.{Double}
use monitor_program.Metrics.Network.{NetStats, get_network_stats}
use mathlib.Core.List.{append_assoc}
use monitor_program.Metrics.Network.Traced.{
  get_network_stats_traced, get_network_stats_traced-value,
}
use monitor_program.Expose.{Gauge, Call, read_calls}
use monitor_program.Expose.Update.{interface, network_calls, update_network_metrics}
use monitor_program.Expose.Values.{is_rx, is_tx}
use monitor_program.Expose.Counters.{sum, shown, values_of, values_of-read_calls}

-- What `get_network_stats` reads from each file.
abbrev pub readings : List (Bytes × Option Bytes) → List NetStats
readings [] = []
readings ((garbage, file) ∷ files) = get_network_stats garbage interface file ∷ readings files

-- Counters that do not go back, and fit 64 bits.
abbrev pub Grows : NetStats → List NetStats → Type 0
Grows prev [] = Unit {0}
Grows prev (now ∷ rest) =
    (prev.bytes_received ≤ now.bytes_received)
    × (now.bytes_received < modulus)
    × (prev.bytes_transmitted ≤ now.bytes_transmitted)
    × (now.bytes_transmitted < modulus)
    × Grows now rest

abbrev pub last_stats : NetStats → List NetStats → NetStats
last_stats prev [] = prev
last_stats prev (now ∷ rest) = last_stats now rest

-- What each reading adds to that before.
abbrev pub received : NetStats → List NetStats → List ℕ
received prev [] = []
received prev (now ∷ rest) = (now.bytes_received - prev.bytes_received) ∷ received now rest

abbrev pub transmitted : NetStats → List NetStats → List ℕ
transmitted prev [] = []
transmitted prev (now ∷ rest) =
    (now.bytes_transmitted - prev.bytes_transmitted) ∷ transmitted now rest

sum-received :
    (prev : NetStats) (ns : List NetStats)
    → Grows prev ns
    → prev.bytes_received + sum (received prev ns) ≡ (last_stats prev ns).bytes_received
unfolding sum
sum-received prev [] h = omega arith
sum-received prev (now ∷ ns) (r, rf, t, tf, h) = omega (arith, sum-received now ns h)

sum-transmitted :
    (prev : NetStats) (ns : List NetStats)
    → Grows prev ns
    → prev.bytes_transmitted + sum (transmitted prev ns) ≡ (last_stats prev ns).bytes_transmitted
unfolding sum
sum-transmitted prev [] h = omega arith
sum-transmitted prev (now ∷ ns) (r, rf, t, tf, h) = omega (arith, sum-transmitted now ns h)

module _ (F : Double) where
  -- What follows each reading.
  abbrev network_run : NetStats → List NetStats → List (Call F)
  network_run prev [] = []
  network_run prev (now ∷ rest) = network_calls F prev now ++ network_run now rest

  received_lem :
      (prev : NetStats) (ns : List NetStats)
      → Grows prev ns
      → values_of F is_rx (network_run prev ns) ≡ shown F (received prev ns)
  unfolding network_calls shown
  received_lem prev [] h = refl
  received_lem prev (now ∷ ns) (r, rf, t, tf, h) =
      rw (sub64_exact now.bytes_received prev.bytes_received r rf, received_lem now ns h) refl

  transmitted_lem :
      (prev : NetStats) (ns : List NetStats)
      → Grows prev ns
      → values_of F is_tx (network_run prev ns) ≡ shown F (transmitted prev ns)
  unfolding network_calls shown
  transmitted_lem prev [] h = refl
  transmitted_lem prev (now ∷ ns) (r, rf, t, tf, h) =
      rw (sub64_exact now.bytes_transmitted prev.bytes_transmitted t tf, transmitted_lem now ns h)
        refl

  -- `update_network_metrics` called once for each file, with what `iface_name` holds then.
  abbrev pub update_run : NetStats → List (Bytes × Option Bytes) → List (Call F)
  update_run prev [] = []
  update_run prev ((garbage, file) ∷ files) =
      (update_network_metrics F garbage file prev).0
      ++ update_run (update_network_metrics F garbage file prev).1 files

  update_run_lem :
      (this : Gauge → Bool) (prev : NetStats) (files : List (Bytes × Option Bytes))
      → values_of F this (update_run prev files)
        ≡ values_of F this (network_run prev (readings files))
  unfolding update_network_metrics network_calls
  update_run_lem this prev [] = refl
  update_run_lem this prev ((garbage, file) ∷ files) =
      let r = get_network_stats_traced garbage interface file in
      rw
        (
          append_assoc (read_calls F r.0) (network_calls F prev r.1) (update_run r.1 files),
          values_of-read_calls F this r.0 (network_calls F prev r.1 ++ update_run r.1 files),
          get_network_stats_traced-value interface garbage file,
          update_run_lem this (get_network_stats garbage interface file) files,
        )
        refl

  -- Over any files whose counters for the interface do not go back, from those of the state, and
  -- fit 64 bits, each bandwidth gauge is set once a call of `update_network_metrics`, to the bytes
  -- since the call before; and these values add up to the difference of the last reading and the
  -- first state.
  pub bandwidth_adds_up :
      (prev : NetStats) (files : List (Bytes × Option Bytes))
      → Grows prev (readings files)
      → let ns = readings files in
        (values_of F is_rx (update_run prev files) ≡ shown F (received prev ns))
        × (prev.bytes_received + sum (received prev ns) ≡ (last_stats prev ns).bytes_received)
        × (values_of F is_tx (update_run prev files) ≡ shown F (transmitted prev ns))
        × (prev.bytes_transmitted + sum (transmitted prev ns)
            ≡ (last_stats prev ns).bytes_transmitted)
  bandwidth_adds_up prev files h =
      let ns = readings files in
      (
        update_run_lem is_rx prev files ∙ received_lem prev ns h,
        sum-received prev ns h,
        update_run_lem is_tx prev files ∙ transmitted_lem prev ns h,
        sum-transmitted prev ns h,
      )
