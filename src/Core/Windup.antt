-- ===== src/Core/Windup.antt =====
-- The integral: what anti-windup leaves in the accumulator.
use pid_ctl.Prelude.{◌∙◌, ◌≡◌, ap, arith, some, false, true}
use pid_ctl.Float.{Float, nought, ◌≼◌}
use pid_ctl.Core.Config.{AntiWindupStrategy}
use pid_ctl.Core.Controller.{
  PidController, StepInput, StepResult, apply_anti_windup, finish, step, candidate_i_acc, unclamped,
  effective_error,
}
use pid_ctl.Core.Inversion.{step-Stepped}

module _ {F : Type 0} ⦃float : Float F⦄ where
  open float use {minus, plus, times, over, eq}

  windup_frozen :
      (c : PidController F) (x p d ff prev dt : F) {w : F × F}
      → eq c.config.ki nought ≡ true
      → apply_anti_windup c x p d ff prev dt ≡ some w
      → (w.0 ≡ c.i_acc) × (w.1 ≡ nought)
  unfolding apply_anti_windup
  windup_frozen c x p d ff prev dt off e = ground arith

  -- With an integral gain of zero, a `step` that returns leaves the accumulator as it is and has an
  -- integral term of zero, whatever the strategy.
  pub step_frozen :
      (c : PidController F) (i : StepInput F) {out : PidController F × StepResult F}
      → eq c.config.ki nought ≡ true
      → step c i ≡ some out
      → (out.0.i_acc ≡ c.i_acc) × (out.1.i_acc ≡ c.i_acc) × (out.1.i_term ≡ nought)
  unfolding finish
  step_frozen c i off e =
      let s = step-Stepped c i e in
      let f = windup_frozen c _ _ _ _ _ _ off s.windup_eq in rw s.out_eq (f.0, f.0, f.1)

  windup_inside :
      (c : PidController F) (x p d ff prev dt : F) {w : F × F}
      → c.config.anti_windup ≡ AntiWindupStrategy.back_calculation
      → eq c.config.ki nought ≡ false
      → (c.config.out_min ≼ plus (plus (plus p (times c.config.ki x)) d) ff)
      → (plus (plus (plus p (times c.config.ki x)) d) ff ≼ c.config.out_max)
      → apply_anti_windup c x p d ff prev dt ≡ some w
      → (w.0 ≡ x) × (w.1 ≡ times c.config.ki x)
  unfolding apply_anti_windup
  windup_inside c x p d ff prev dt b on lo hi e = ground arith

  -- With back-calculation and an integral gain, while the unclamped output that plain integration
  -- gives stays within the limits, a `step` that returns integrates plainly: the accumulator grows
  -- by effective error * dt, and that output is the one reported.
  step_integrates :
      (c : PidController F) (i : StepInput F) {out : PidController F × StepResult F}
      → c.config.anti_windup ≡ AntiWindupStrategy.back_calculation
      → eq c.config.ki nought ≡ false
      → let next = plus c.i_acc (times (effective_error c i) i.dt) in
        let u = unclamped c i (times c.config.ki next) in
        c.config.out_min ≼ u
        → u ≼ c.config.out_max
        → step c i ≡ some out
        → (out.0.i_acc ≡ next) × (out.1.i_term ≡ times c.config.ki next) × (out.1.u_unclamped ≡ u)
  unfolding finish
  step_integrates c i b on lo hi e =
      let s = step-Stepped c i e in
      let k : candidate_i_acc c i ≡ plus c.i_acc (times (effective_error c i) i.dt) = rw on in
      let f = windup_inside c _ _ _ _ _ _ b on (rw on lo) (rw on hi) s.windup_eq in
      let term = f.1 ∙ ap (times c.config.ki) k in
      rw s.out_eq (f.0 ∙ k, term, ap (unclamped c i) term)
