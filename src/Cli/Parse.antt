-- ===== src/Cli/Parse.antt =====
-- How flags, the state file and defaults make the configuration (crates/pid-ctl/src/cli/parse.rs). The
-- flags are what `clap` has read; error texts are left out.
pub mod Resume
use pid_ctl.Prelude.{
  ℕ, ◌*◌, ◌^◌, max, Option, none, some, unwrap_or, or_some, when_some, is_some, if◌then◌else◌,
  ◌>>=◌,
}
use pid_ctl.Float.{Float, nought, clamp, as_secs}
use pid_ctl.Core.Config.{PidConfig, AntiWindupStrategy, default_config}
use pid_ctl.App.Snapshot.{StateSnapshot}
use pid_ctl.App.StateStore.{FilePath, Files, Json, loaded, load_failed, load}
use pid_ctl.Cli.Outcome.{CliResult, ok, failed, setpoint_required, state_error}
use pid_ctl.App.LoopRuntime.{
  LoopRuntimeConfig, UserSet, explicit, default, min_dt_default, max_dt_default,
  max_dt_interval_multiplier, min_state_flush,
}

-- `PidFlags`: what the command line sets.
pub record PidFlags (F : Type 0) : Type 0 where
  pub setpoint : Option F
  pub kp : Option F
  pub ki : Option F
  pub kd : Option F
  pub out_min : Option F
  pub out_max : Option F
  pub deadband : Option F
  pub setpoint_ramp : Option F
  pub slew_rate : Option F
  pub pv_filter_alpha : Option F
  pub anti_windup : Option AntiWindupStrategy
  pub anti_windup_tt : Option F
  pub feedforward_gain : Option F

-- The flags of `loop` that `parse_loop` makes the runtime controls of; durations in nanoseconds.
pub record RuntimeFlags (F : Type 0) : Type 0 where
  pub interval : Option ℕ
  pub max_dt : Option F
  pub pv_stdin_timeout : Option ℕ
  pub state_write_interval : Option ℕ

-- `map_or_else(|| UserSet::Default(d), UserSet::Explicit)`.
abbrev pub user_set : {T : Type 0} → Option T → T → UserSet T
user_set none d = default d
user_set (some v) d = explicit v

-- `.map(Some)`: an interval that is given is `Some` of a flush interval.
abbrev pub wrapped : Option ℕ → Option (Option ℕ)
wrapped none = none
wrapped (some t) = some (some t)

module _ {F : Type 0} ⦃float : Float F⦄ where
  open float use {lit, times}

  -- `snap.and_then(|s| field s)`.
  abbrev pub from_state : Option (StateSnapshot F) → (StateSnapshot F → Option F) → Option F
  from_state none field = none
  from_state (some s) field = field s

  -- The flag, or the state's value, or the default.
  abbrev pub resolved : Option F → Option F → F → F
  resolved flag stored d = unwrap_or (or_some flag stored) d

  -- `resolve_pid_config`, once the setpoint is known.
  unfoldable pub merge : PidFlags F → Option (StateSnapshot F) → F → PidConfig F
  unfolding default_config
  merge f snap setpoint = record {
    setpoint = setpoint;
    kp = resolved f.kp (from_state snap (λ s. s.kp)) default_config.kp;
    ki = resolved f.ki (from_state snap (λ s. s.ki)) default_config.ki;
    kd = resolved f.kd (from_state snap (λ s. s.kd)) default_config.kd;
    out_min = resolved f.out_min (from_state snap (λ s. s.out_min)) default_config.out_min;
    out_max = resolved f.out_max (from_state snap (λ s. s.out_max)) default_config.out_max;
    deadband = unwrap_or f.deadband default_config.deadband;
    setpoint_ramp = or_some f.setpoint_ramp default_config.setpoint_ramp;
    slew_rate = or_some f.slew_rate default_config.slew_rate;
    pv_filter_alpha = unwrap_or f.pv_filter_alpha default_config.pv_filter_alpha;
    anti_windup = unwrap_or f.anti_windup AntiWindupStrategy.back_calculation;
    anti_windup_tt = f.anti_windup_tt;
    tt_upper_bound = none;
    feedforward_gain = unwrap_or f.feedforward_gain nought;
  }

  unfoldable pub merge_found : PidFlags F → Option (StateSnapshot F) → CliResult (PidConfig F)
  merge_found f snap = elim (or_some f.setpoint (from_state snap (λ s. s.setpoint))) [
    | none ↦ failed setpoint_required
    | some sp ↦ ok (merge f snap sp)
  ]

  unfoldable pub resolve_pid_config :
      {D : Type 0} → Files D → Json F → PidFlags F → Option FilePath → D → CliResult (PidConfig F)
  resolve_pid_config files format f none d = merge_found f none
  resolve_pid_config files format f (some path) d = elim (load files format path d) [
    | load_failed e ↦ failed (state_error e)
    | loaded snap ↦ merge_found f snap
  ]

  abbrev pub anti_windup_tt_interval_multiplier : F
  anti_windup_tt_interval_multiplier = lit 100 1

  -- `parse_loop`: the bound on the tracking time, unless the user set that time.
  unfoldable pub bound_tracking_time : PidFlags F → ℕ → PidConfig F → PidConfig F
  bound_tracking_time f interval c = elim f.anti_windup_tt [
    | some t ↦ c
    | none ↦ record c {
      tt_upper_bound = some (times anti_windup_tt_interval_multiplier (as_secs interval));
    }
  ]

  -- `parse_loop`: the runtime controls for an interval; `none` is a panic of the clamp.
  unfoldable pub runtime_controls : RuntimeFlags F → ℕ → Option (LoopRuntimeConfig F)
  runtime_controls f interval =
      clamp (times (as_secs interval) max_dt_interval_multiplier) min_dt_default max_dt_default
      >>= λ max_dt. some (record {
        interval = interval;
        max_dt = user_set f.max_dt max_dt;
        pv_stdin_timeout = user_set f.pv_stdin_timeout interval;
        state_write_interval =
            user_set (wrapped f.state_write_interval) (some (max interval min_state_flush));
      })
