-- ===== src/Core/Derivative.antt =====
-- The derivative term of `step`: when it is skipped, and what it depends on.
use pid_ctl.Prelude.{◌≡◌, arith, ap, refl, some, none, false}
use pid_ctl.Float.{Float, nought}
use pid_ctl.Core.Config.{DTermSkipReason}
use pid_ctl.Core.Controller.{
  PidController, StepInput, StepResult, d_term, finish, step, mark_dt_skipped, reset_integral,
  set_setpoint, filtered_pv,
}
use pid_ctl.Core.Inversion.{step-Stepped}

module _ {F : Type 0} ⦃float : Float F⦄ where
  open float use {times, over, minus, neg, eq}

  -- After a skipped tick or a reset of the integral, with a derivative gain, the next `step` that
  -- returns has a derivative term of zero and gives the reason (`post_dt_skip`, or `post_reset`),
  -- and the mark is gone after it.
  step_after_mark :
      (c : PidController F) (i : StepInput F) {out out' : PidController F × StepResult F}
      → eq c.config.kd nought ≡ false
      → step (mark_dt_skipped c) i ≡ some out
      → step (reset_integral c) i ≡ some out'
      → (out.1.d_term ≡ nought)
        × (out.1.d_term_skipped ≡ some DTermSkipReason.post_dt_skip)
        × (out.0.next_d_term_skip_reason ≡ none)
        × (out'.1.d_term ≡ nought)
        × (out'.1.d_term_skipped ≡ some DTermSkipReason.post_reset)
        × (out'.0.next_d_term_skip_reason ≡ none)
  unfolding finish d_term mark_dt_skipped reset_integral
  step_after_mark c i kd e e' =
      let s = step-Stepped (mark_dt_skipped c) i e in
      let s' = step-Stepped (reset_integral c) i e' in
      rw (s.out_eq, s'.out_eq) (rw (kd, d_term) (refl, refl, refl, refl, refl, refl))

  d_term_plain :
      (c : PidController F) (x dt previous : F)
      → eq c.config.kd nought ≡ false
      → c.next_d_term_skip_reason ≡ none
      → c.last_pv ≡ some previous
      → d_term c x dt ≡ (times (neg c.config.kd) (over (minus x previous) dt), none)
  unfolding d_term
  d_term_plain c x dt previous kd clear known = ground arith

  -- Two steps in a row that return, with a derivative gain: the derivative term of the second one
  -- is -kd * (difference of the filtered measurements / dt), and nothing is reported as skipped.
  step_twice_derivative :
      (c : PidController F) (i j : StepInput F) {out out' : PidController F × StepResult F}
      → eq c.config.kd nought ≡ false
      → step c i ≡ some out
      → step out.0 j ≡ some out'
      → (out'.1.d_term
          ≡ times
              (neg c.config.kd)
              (over (minus (filtered_pv out.0 j.pv) (filtered_pv c i.pv)) j.dt))
        × (out'.1.d_term_skipped ≡ none)
  unfolding finish d_term
  step_twice_derivative c i j {out} kd e e' =
      let s = step-Stepped c i e in
      let s' = step-Stepped out.0 j e' in
      let same = ap (λ o. o.0.config) s.out_eq in
      let found =
        d_term_plain out.0 (filtered_pv out.0 j.pv) j.dt (filtered_pv c i.pv) (rw same kd)
          (ap (λ o. o.0.next_d_term_skip_reason) s.out_eq) (ap (λ o. o.0.last_pv) s.out_eq) in
      rw (s'.out_eq, found) (rw same (refl, refl))

  -- The derivative acts on the measurement: a change of the setpoint changes neither the
  -- derivative term of the `step` that follows, nor the stored measurement.
  step_no_kick :
      (c : PidController F) (sp : F) (i : StepInput F) {out out' : PidController F × StepResult F}
      → step c i ≡ some out
      → step (set_setpoint c sp) i ≡ some out'
      → (out'.1.d_term ≡ out.1.d_term)
        × (out'.1.d_term_skipped ≡ out.1.d_term_skipped)
        × (out'.0.last_pv ≡ out.0.last_pv)
  unfolding finish d_term set_setpoint filtered_pv
  step_no_kick c sp i e e' =
      let s = step-Stepped c i e in
      let s' = step-Stepped (set_setpoint c sp) i e' in rw (s.out_eq, s'.out_eq) (refl, refl, refl)
