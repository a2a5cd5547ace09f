-- ===== src/Core/Returns.antt =====
-- Where `step` panics: the call of `f64::clamp` for the tracking time.
use pid_ctl.Prelude.{◌≡◌, arith, none, false, unwrap_or}
use pid_ctl.Float.{Float, nought, clamp}
use pid_ctl.Core.Config.{AntiWindupStrategy}
use pid_ctl.Core.Controller.{
  PidController, StepInput, step, apply_anti_windup, unclamped, tracking_time, candidate_i_acc,
}

module _ {F : Type 0} ⦃float : Float F⦄ where
  open float use {lit, minus, plus, times, eq, le}

  windup_panics :
      (c : PidController F) (x p d ff prev dt : F)
      → c.config.anti_windup ≡ AntiWindupStrategy.back_calculation
      → eq c.config.ki nought ≡ false
      → c.config.anti_windup_tt ≡ none
      → le dt (unwrap_or c.config.tt_upper_bound (lit 100 1)) ≡ false
      → le (plus (plus (plus p (times c.config.ki x)) d) ff) c.config.out_max ≡ false
      → apply_anti_windup c x p d ff prev dt ≡ none
  unfolding apply_anti_windup tracking_time clamp
  windup_panics c x p d ff prev dt b on unset late over = ground arith

  -- With back-calculation, an integral gain and no explicit tracking time, when `dt` exceeds the
  -- bound on the tracking time (100 s unless configured) and plain integration would put the output
  -- above the upper limit: `step` panics.
  pub step_panics :
      (c : PidController F) (i : StepInput F)
      → c.config.anti_windup ≡ AntiWindupStrategy.back_calculation
      → eq c.config.ki nought ≡ false
      → c.config.anti_windup_tt ≡ none
      → le i.dt (unwrap_or c.config.tt_upper_bound (lit 100 1)) ≡ false
      → le (unclamped c i (times c.config.ki (candidate_i_acc c i))) c.config.out_max ≡ false
      → step c i ≡ none
  unfolding step
  step_panics c i b on unset late over = rw (windup_panics c _ _ _ _ _ _ b on unset late over)
