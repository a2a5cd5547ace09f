-- ===== src/Core/Controller.antt =====
-- `PidController` (crates/pid-ctl-core/src/lib.rs). A call returns `none` where the Rust code panics,
-- which it does in `f64::clamp` alone; a method that changes the controller returns the new one.
use pid_ctl.Prelude.{Bool, Option, none, some, if◌then◌else◌, unwrap_or, ◌||◌, ◌&&◌, ◌>>=◌}
use pid_ctl.Float.{Float, nought, one, gt, ge, clamp}
use pid_ctl.Core.Config.{PidConfig, ConfigError, DTermSkipReason, AntiWindupStrategy, validate}

pub record StepInput (F : Type 0) : Type 0 where
  pub pv : F
  pub dt : F
  pub prev_applied_cv : F
  pub ff : F

pub record StepResult (F : Type 0) : Type 0 where
  pub cv : F
  pub u_unclamped : F
  pub p_term : F
  pub i_term : F
  pub d_term : F
  pub ff_term : F
  pub i_acc : F
  pub effective_sp : F
  pub saturated : Bool
  pub d_term_skipped : Option DTermSkipReason

pub record PidRuntimeState (F : Type 0) : Type 0 where
  pub i_acc : F
  pub last_pv : Option F
  pub last_error : Option F
  pub last_cv : Option F
  pub effective_sp : Option F

pub record PidController (F : Type 0) : Type 0 where
  pub config : PidConfig F
  pub i_acc : F
  pub last_pv : Option F
  pub last_error : Option F
  pub last_cv : Option F
  pub effective_sp : Option F
  pub next_d_term_skip_reason : Option DTermSkipReason

pub data NewResult (F : Type 0) : Type 0 where
  made : PidController F → NewResult F
  rejected : ConfigError F → NewResult F

module _ {F : Type 0} ⦃float : Float F⦄ where
  open float use {lit, plus, minus, times, over, neg, abs, sqrt, mul_add, le, lt, eq}

  -- `PidController::new`.
  unfoldable pub new : PidConfig F → NewResult F
  new config = elim (validate config) [
    | some e ↦ rejected e
    | none ↦ made (record {
      config = config;
      i_acc = nought;
      last_pv = none;
      last_error = none;
      last_cv = none;
      effective_sp = none;
      next_d_term_skip_reason = none;
    })
  ]

  unfoldable pub set_gains : PidController F → F → F → F → PidController F
  set_gains c kp ki kd = record c { config = record c.config { kp = kp; ki = ki; kd = kd } }

  unfoldable pub set_setpoint : PidController F → F → PidController F
  set_setpoint c sp = record c { config = record c.config { setpoint = sp } }

  unfoldable pub restore_state : PidController F → PidRuntimeState F → PidController F
  restore_state c s = record c {
    i_acc = s.i_acc;
    last_pv = s.last_pv;
    last_error = s.last_error;
    last_cv = s.last_cv;
    effective_sp = s.effective_sp;
  }

  unfoldable pub mark_dt_skipped : PidController F → PidController F
  mark_dt_skipped c = record c { next_d_term_skip_reason = some DTermSkipReason.post_dt_skip }

  unfoldable pub reset_integral : PidController F → PidController F
  reset_integral c = record c {
    i_acc = nought;
    next_d_term_skip_reason = some DTermSkipReason.post_reset;
  }

  unfoldable pub ramp_toward : F → F → F → F
  ramp_toward current target max_delta =
      if le (abs (minus target current)) max_delta
      then target
      else if gt target current
      then plus current max_delta
      else minus current max_delta

  unfoldable pub filtered_pv : PidController F → F → F
  filtered_pv c raw = if eq c.config.pv_filter_alpha nought then raw else elim c.last_pv [
    | some prev ↦
        mul_add (minus one c.config.pv_filter_alpha) raw (times c.config.pv_filter_alpha prev)
    | none ↦ raw
  ]

  unfoldable pub next_effective_sp : PidController F → F → F
  next_effective_sp c dt = elim c.config.setpoint_ramp [
    | none ↦ c.config.setpoint
    | some rate ↦ elim c.effective_sp [
      | none ↦ c.config.setpoint
      | some current ↦ ramp_toward current c.config.setpoint (times rate dt)
    ]
  ]

  unfoldable pub d_term : PidController F → F → F → F × Option DTermSkipReason
  d_term c filtered dt =
      if eq c.config.kd nought then (nought, none) else elim c.next_d_term_skip_reason [
        | some reason ↦ (nought, some reason)
        | none ↦ elim c.last_pv [
          | none ↦ (nought, some DTermSkipReason.no_pv_prev)
          | some previous ↦ (times (neg c.config.kd) (over (minus filtered previous) dt), none)
        ]
      ]

  -- `anti_windup_tt`: an explicit time is taken as it is, the computed one is clamped.
  unfoldable pub tracking_time : PidController F → F → Option F
  tracking_time c dt = elim c.config.anti_windup_tt [
    | some tt' ↦ some tt'
    | none ↦
        let auto_tt =
          if eq c.config.ki nought
          then dt
          else if gt c.config.kd nought
          then sqrt (over c.config.kd c.config.ki)
          else over c.config.kp c.config.ki in
        clamp auto_tt dt (unwrap_or c.config.tt_upper_bound (lit 100 1))
  ]

  -- `apply_anti_windup`: the integral accumulator and the integral term.
  unfoldable pub apply_anti_windup :
      PidController F → (candidate p d ff prev dt : F) → Option (F × F)
  apply_anti_windup c candidate p d ff prev dt =
      let ki = c.config.ki in
      let candidate_term = times ki candidate in
      let candidate_u = plus (plus (plus p candidate_term) d) ff in
      if eq ki nought then some (c.i_acc, nought) else elim c.config.anti_windup [
        | AntiWindupStrategy.none ↦ some (candidate, candidate_term)
        | AntiWindupStrategy.clamp ↦
            let pd_ff = plus (plus p d) ff in
            clamp candidate_term (minus c.config.out_min pd_ff) (minus c.config.out_max pd_ff)
            >>= λ clamped. some (over clamped ki, clamped)
        | AntiWindupStrategy.back_calculation ↦
            if ge candidate_u c.config.out_min && le candidate_u c.config.out_max
            then some (candidate, candidate_term)
            else tracking_time c dt >>= λ t.
                let corrected = mul_add (minus prev candidate_u) (over dt t) candidate_term in
                some (over corrected ki, corrected)
      ]

  unfoldable pub apply_slew_rate : PidController F → (clamped prev dt : F) → Option F
  apply_slew_rate c clamped prev dt = elim c.config.slew_rate [
    | none ↦ some clamped
    | some rate ↦
        let max_delta = times rate dt in clamp clamped (minus prev max_delta) (plus prev max_delta)
  ]

  -- `error`, `effective_error`, `candidate_i_acc` of `step`.
  abbrev pub step_error : PidController F → StepInput F → F
  step_error c i = minus (next_effective_sp c i.dt) (filtered_pv c i.pv)

  abbrev pub effective_error : PidController F → StepInput F → F
  effective_error c i =
      if lt (abs (step_error c i)) c.config.deadband then nought else step_error c i

  abbrev pub candidate_i_acc : PidController F → StepInput F → F
  candidate_i_acc c i =
      if eq c.config.ki nought then c.i_acc else plus c.i_acc (times (effective_error c i) i.dt)

  abbrev pub p_term : PidController F → StepInput F → F
  p_term c i = times c.config.kp (effective_error c i)

  abbrev pub ff_term : PidController F → StepInput F → F
  ff_term c i = times c.config.feedforward_gain i.ff

  -- `d_term` and the reason why it was skipped.
  abbrev pub derivative : PidController F → StepInput F → F × Option DTermSkipReason
  derivative c i = d_term c (filtered_pv c i.pv) i.dt

  -- `u_unclamped`.
  abbrev pub unclamped : PidController F → StepInput F → F → F
  unclamped c i i_term = plus (plus (plus (p_term c i) i_term) (derivative c i).0) (ff_term c i)

  abbrev pub windup : PidController F → StepInput F → Option (F × F)
  windup c i =
      apply_anti_windup c (candidate_i_acc c i) (p_term c i) (derivative c i).0 (ff_term c i)
        i.prev_applied_cv i.dt

  -- The end of `step`: the fields that it writes, and its result.
  unfoldable pub finish :
      PidController F → StepInput F → (i_acc i_term cv : F) → PidController F × StepResult F
  finish c i i_acc i_term cv =
      let u = unclamped c i i_term in
      (
        record c {
          i_acc = i_acc;
          last_pv = some (filtered_pv c i.pv);
          last_error = some (step_error c i);
          last_cv = some cv;
          effective_sp = some (next_effective_sp c i.dt);
          next_d_term_skip_reason = none;
        },
        record {
          cv = cv;
          u_unclamped = u;
          p_term = p_term c i;
          i_term = i_term;
          d_term = (derivative c i).0;
          ff_term = ff_term c i;
          i_acc = i_acc;
          effective_sp = next_effective_sp c i.dt;
          saturated = lt u c.config.out_min || gt u c.config.out_max;
          d_term_skipped = (derivative c i).1;
        },
      )

  -- `PidController::step`.
  unfoldable pub step : PidController F → StepInput F → Option (PidController F × StepResult F)
  step c i = windup c i >>= λ w.
      clamp (unclamped c i w.1) c.config.out_min c.config.out_max >>= λ clamped.
      apply_slew_rate c clamped i.prev_applied_cv i.dt >>= λ cv. some (finish c i w.0 w.1 cv)
