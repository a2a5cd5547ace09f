-- ===== src/Core/Restart.antt =====
-- `step` does not read `last_error` and `last_cv`, and reads `effective_sp` for the ramp alone.
use pid_ctl.Prelude.{◌≡◌, refl, ap, ◌∙◌, Option, some, none, if◌then◌else◌, ◌||◌}
use pid_ctl.Float.{Float, nought}
use pid_ctl.Core.Controller.{
  ff_term, derivative, PidController, StepInput, StepResult, next_effective_sp, windup, unclamped,
  apply_anti_windup, tracking_time, d_term, filtered_pv, apply_slew_rate, finish, step,
}
use pid_ctl.Core.Inversion.{step-Stepped}

module _ {F : Type 0} ⦃float : Float F⦄ where
  abbrev pub restored : PidController F → Option F → Option F → Option F → PidController F
  restored c error cv sp = record c { last_error = error; last_cv = cv; effective_sp = sp }

  -- The parts of `step` over a given effective setpoint.
  abbrev error_at : PidController F → StepInput F → F → F
  error_at c i sp =
      let e = float.minus sp (filtered_pv c i.pv) in
      if float.lt (float.abs e) c.config.deadband then nought else e

  abbrev windup_at : PidController F → StepInput F → F → Option (F × F)
  windup_at c i sp =
      apply_anti_windup c
        (if float.eq c.config.ki nought
          then c.i_acc
          else float.plus c.i_acc (float.times (error_at c i sp) i.dt))
        (float.times c.config.kp (error_at c i sp)) (derivative c i).0 (ff_term c i)
        i.prev_applied_cv i.dt

  abbrev unclamped_at : PidController F → StepInput F → F → F → F
  unclamped_at c i t sp =
      float.plus
        (float.plus (float.plus (float.times c.config.kp (error_at c i sp)) t) (derivative c i).0)
        (ff_term c i)

  abbrev finish_at : PidController F → StepInput F → (a t y sp : F) → PidController F × StepResult F
  finish_at c i a t y sp = (
    record c {
      i_acc = a;
      last_pv = some (filtered_pv c i.pv);
      last_error = some (float.minus sp (filtered_pv c i.pv));
      last_cv = some y;
      effective_sp = some sp;
      next_d_term_skip_reason = none;
    },
    record {
      cv = y;
      u_unclamped = unclamped_at c i t sp;
      p_term = float.times c.config.kp (error_at c i sp);
      i_term = t;
      d_term = (derivative c i).0;
      ff_term = ff_term c i;
      i_acc = a;
      effective_sp = sp;
      saturated =
          float.lt (unclamped_at c i t sp) c.config.out_min
          || float.lt c.config.out_max (unclamped_at c i t sp);
      d_term_skipped = (derivative c i).1;
    },
  )

  windup-restored :
      (c : PidController F) (i : StepInput F) (error cv sp : Option F)
      → next_effective_sp (restored c error cv sp) i.dt ≡ next_effective_sp c i.dt
      → windup (restored c error cv sp) i ≡ windup c i
  unfolding apply_anti_windup tracking_time d_term filtered_pv
  windup-restored c i error cv sp h = ap (windup_at c i) h

  unclamped-restored :
      (c : PidController F) (i : StepInput F) (error cv sp : Option F) (t : F)
      → next_effective_sp (restored c error cv sp) i.dt ≡ next_effective_sp c i.dt
      → unclamped (restored c error cv sp) i t ≡ unclamped c i t
  unfolding d_term filtered_pv
  unclamped-restored c i error cv sp t h = ap (unclamped_at c i t) h

  finish-restored :
      (c : PidController F) (i : StepInput F) (error cv sp : Option F) (a t y : F)
      → next_effective_sp (restored c error cv sp) i.dt ≡ next_effective_sp c i.dt
      → finish (restored c error cv sp) i a t y ≡ finish c i a t y
  unfolding finish d_term filtered_pv
  finish-restored c i error cv sp a t y h = ap (finish_at c i a t y) h

  slew-restored :
      (c : PidController F) (error cv sp : Option F) (x prev dt : F)
      → apply_slew_rate (restored c error cv sp) x prev dt ≡ apply_slew_rate c x prev dt
  unfolding apply_slew_rate
  slew-restored c error cv sp x prev dt = refl

  pub step-restored :
      (c : PidController F) (i : StepInput F) (error cv sp : Option F)
      {out : PidController F × StepResult F}
      → next_effective_sp (restored c error cv sp) i.dt ≡ next_effective_sp c i.dt
      → step c i ≡ some out
      → step (restored c error cv sp) i ≡ some out
  unfolding step
  step-restored c i error cv sp h e =
      let s = step-Stepped c i e in
      rw (windup-restored c i error cv sp h ∙ s.windup_eq) (
        rw (unclamped-restored c i error cv sp s.i_term h) (
          rw s.clamp_eq (
            rw (slew-restored c error cv sp s.clamped i.prev_applied_cv i.dt ∙ s.slew_eq)
              (rw (finish-restored c i error cv sp s.i_acc s.i_term s.cv h, s.out_eq) refl))))
