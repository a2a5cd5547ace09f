-- ===== src/Tests/Control.antt =====
-- The control law on concrete inputs.
use pid_ctl.Prelude.{◌≡◌, refl, none}
use pid_ctl.Float.{◌≼◌, clamp}
use pid_ctl.Float.Fixed.{fixed_float, Fixed-IsIeee}
use pid_ctl.Core.Config.{validate}
use pid_ctl.Core.Controller.{
  step, apply_anti_windup, tracking_time, apply_slew_rate, finish, d_term, filtered_pv,
  next_effective_sp, ramp_toward,
}
use pid_ctl.Core.Limits.{step_within_limits, step_slew_limited}
use pid_ctl.Core.Returns.{step_panics}
use pid_ctl.Tests.Fixtures.{num, pi_config, slewed_config, controller_of, input_at}

step_within_limits_example : (num 0 ≼ num 40) × (num 40 ≼ num 100)
unfolding step apply_anti_windup tracking_time apply_slew_rate finish d_term filtered_pv
    next_effective_sp ramp_toward clamp validate fixed_float
step_within_limits_example =
    step_within_limits Fixed-IsIeee (controller_of slewed_config) (input_at 40 1 50) refl refl
      (refl, refl) refl refl

step_slew_limited_example : (num 40 ≼ num 40) × (num 40 ≼ num 60)
unfolding step apply_anti_windup tracking_time apply_slew_rate finish d_term filtered_pv
    next_effective_sp ramp_toward clamp fixed_float
step_slew_limited_example =
    step_slew_limited Fixed-IsIeee (controller_of slewed_config) (input_at 40 1 50) (num 10) refl
      refl refl

step_panics_example : step (controller_of pi_config) (input_at 40 200 50) ≡ none
unfolding d_term filtered_pv next_effective_sp ramp_toward fixed_float
step_panics_example =
    step_panics (controller_of pi_config) (input_at 40 200 50) refl refl refl refl refl
