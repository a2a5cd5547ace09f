-- ===== src/Core/Config.antt =====
-- `PidConfig`, its default and its validation (crates/pid-ctl-core/src/lib.rs).
use pid_ctl.Prelude.{Bool, Option, some, if◌then◌else◌, not, ◌&&◌}
use pid_ctl.Float.{Float, nought, one, gt}

pub data AntiWindupStrategy : Type 0 where
  back_calculation clamp none : AntiWindupStrategy

pub data DTermSkipReason : Type 0 where
  no_pv_prev post_dt_skip post_reset : DTermSkipReason

pub record PidConfig (F : Type 0) : Type 0 where
  pub setpoint : F
  pub kp : F
  pub ki : F
  pub kd : F
  pub out_min : F
  pub out_max : F
  pub deadband : F
  pub setpoint_ramp : Option F
  pub slew_rate : Option F
  pub pv_filter_alpha : F
  pub anti_windup : AntiWindupStrategy
  pub anti_windup_tt : Option F
  pub tt_upper_bound : Option F
  pub feedforward_gain : F

pub data ConfigError (F : Type 0) : Type 0 where
  invalid_pv_filter_alpha : F → ConfigError F
  invalid_output_limits : F → F → ConfigError F
  negative_setpoint_ramp_rate : F → ConfigError F
  negative_slew_rate : F → ConfigError F
  negative_deadband : F → ConfigError F
  non_positive_tt_upper_bound : F → ConfigError F

module _ {F : Type 0} ⦃float : Float F⦄ where
  open float use {lit, le, lt, infinity, neg_infinity}

  -- `impl Default for PidConfig`.
  unfoldable pub default_config : PidConfig F
  default_config = record {
    setpoint = nought;
    kp = one;
    ki = nought;
    kd = nought;
    out_min = neg_infinity;
    out_max = infinity;
    deadband = nought;
    setpoint_ramp = Option.none;
    slew_rate = Option.none;
    pv_filter_alpha = nought;
    anti_windup = back_calculation;
    anti_windup_tt = Option.none;
    tt_upper_bound = Option.none;
    feedforward_gain = nought;
  }

  -- `if let Some(rate) = o && test(rate)`.
  abbrev pub fails : (F → Bool) → Option F → (F → ConfigError F) → Option (ConfigError F)
  fails test Option.none e = Option.none
  fails test (some r) e = if test r then some (e r) else Option.none

  abbrev pub orelse : Option (ConfigError F) → Option (ConfigError F) → Option (ConfigError F)
  orelse (some e) k = some e
  orelse Option.none k = k

  -- `PidConfig::validate`: `none` is `Ok(())`.
  unfoldable pub validate : PidConfig F → Option (ConfigError F)
  validate c =
      if not (le nought c.pv_filter_alpha && lt c.pv_filter_alpha one)
      then some (invalid_pv_filter_alpha c.pv_filter_alpha)
      else if gt c.out_min c.out_max
      then some (invalid_output_limits c.out_min c.out_max)
      else orelse (fails (λ r. lt r nought) c.setpoint_ramp negative_setpoint_ramp_rate) (
          orelse (fails (λ r. lt r nought) c.slew_rate negative_slew_rate) (
            if lt c.deadband nought
            then some (negative_deadband c.deadband)
            else fails (λ b. le b nought) c.tt_upper_bound non_positive_tt_upper_bound))
