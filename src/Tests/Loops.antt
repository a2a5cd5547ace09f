-- ===== src/Tests/Loops.antt =====
-- The schedule and the relay of autotune on concrete inputs.
use pid_ctl.Prelude.{
  ℕ, ◌≡◌, ◌⊎◌, ◌<◌, ◌≤◌, ◌+◌, ◌*◌, suc, arith, some, none, List, [], ◌∷◌, ◌++◌, length,
  if◌then◌else◌,
}
use pid_ctl.Float.Fixed.{Fixed, fixed_float, Fixed-IsIeee}
use pid_ctl.Schedule.{
  next_deadline_after_tick, next_deadline_on_grid, advance, next_deadline_zero_interval,
}
use pid_ctl.Autotune.{AutotuneConfig, AutotuneEngine, RelayEvent, high, low, relay_cv, tick}
use pid_ctl.Autotune.Relay.{Reached, started, ticked, start, reached_relay, settlements}
use pid_ctl.Autotune.Extrema.{recorded_is_crossing}
use pid_ctl.Tests.Fixtures.{num}

next_deadline_on_grid_example :
    (r : ℕ) × (next_deadline_after_tick 100 10 127 ≡ some r)
    × (k : ℕ) × (r ≡ 100 + suc k * 10)
    × (127 < r)
    × ((k ≡ 0) ⊎ (100 + k * 10 ≤ 127))
next_deadline_on_grid_example = next_deadline_on_grid 100 10 127 (omega arith)

next_deadline_zero_interval_example :
    (advance 8 0 5 (5 + 0) ≡ none) × (next_deadline_after_tick 5 0 5 ≡ none)
next_deadline_zero_interval_example = next_deadline_zero_interval 8 5 5 (omega arith)

abbrev relay_config : AutotuneConfig Fixed
relay_config = record { bias = num 50; amp = num 20; out_min = num 0; out_max = num 100 }

-- Two ticks; the second one crosses the reference, the first PV.
abbrev engine : AutotuneEngine Fixed
engine = (tick (num 12) (num 1) (tick (num 10) (num 1) (start relay_config none)).2).2

abbrev output : Fixed
output = (tick (num 12) (num 1) (tick (num 10) (num 1) (start relay_config none)).2).0

abbrev events : List (RelayEvent Fixed)
events =
    (tick (num 12) (num 1) (tick (num 10) (num 1) (start relay_config none)).2).1
    ++ (tick (num 10) (num 1) (start relay_config none)).1

abbrev two_ticks : Reached relay_config none engine output events
two_ticks = ticked (num 12) (num 1) (started (num 10) (num 1))

reached_relay_example :
    (output ≡ relay_cv relay_config engine.relay)
    × (((engine.relay ≡ high) × (length engine.high_peaks ≡ length engine.low_troughs))
        ⊎ ((engine.relay ≡ low) × (length engine.high_peaks ≡ suc (length engine.low_troughs))))
    × (length engine.half_periods ≡ length engine.high_peaks + length engine.low_troughs)
    × (settlements events ≡ (if engine.settled then 1 else 0))
reached_relay_example = reached_relay relay_config none two_ticks

recorded_is_crossing_example :
    (((tick (num 5) (num 1) engine).2.high_peaks ≡ engine.high_peaks)
      ⊎ ((tick (num 5) (num 1) engine).2.high_peaks ≡ engine.high_peaks ++ num 5 ∷ []))
    × (((tick (num 5) (num 1) engine).2.low_troughs ≡ engine.low_troughs)
        ⊎ ((tick (num 5) (num 1) engine).2.low_troughs ≡ engine.low_troughs ++ num 5 ∷ []))
recorded_is_crossing_example =
    recorded_is_crossing Fixed-IsIeee relay_config none (num 5) (num 1) two_ticks
