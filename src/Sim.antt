-- ===== src/Sim.antt =====
-- The plant simulator (crates/pid-ctl-sim/src/plant.rs and state.rs). Error texts are left out; a
-- validation error keeps the name of what is wrong.
pub mod Steps
use pid_ctl.Prelude.{ℕ, ◌+◌, Bool, not, Option, none, some, if◌then◌else◌, ◌==◌, ◌||◌, ◌>>=◌}
use pid_ctl.Float.{Float, nought, one, clamp}

abbrev pub schema_version : ℕ
schema_version = 1

pub data SimError : Type 0 where
  bad_tau bad_gain bad_ambient bad_heat bad_flow bad_cv_max bad_exponent : SimError
  bad_dt bad_cv bad_schema : SimError

module _ (F : Type 0) where
  pub record FirstOrderParams : Type 0 where
    pub tau : F
    pub gain : F

  pub record ThermalParams : Type 0 where
    pub tau : F
    pub t_ambient : F
    pub k_heat : F

  pub record FanParams : Type 0 where
    pub tau : F
    pub max_flow : F
    pub cv_max : F
    pub exponent : F

  pub data Plant : Type 0 where
    first_order : FirstOrderParams → F → Plant
    thermal : ThermalParams → F → Plant
    fan : FanParams → F → Plant

  pub record SimState : Type 0 where
    pub schema : ℕ
    pub plant : Plant

module _ {F : Type 0} ⦃float : Float F⦄ where
  open float use {plus, minus, times, over, le, is_finite}

  abbrev pub not_positive : F → Bool
  not_positive x = not (is_finite x) || le x nought

  unfoldable pub validate_first_order : FirstOrderParams F → Option SimError
  validate_first_order p =
      if not_positive p.tau
      then some bad_tau
      else if not (is_finite p.gain)
      then some bad_gain
      else none

  unfoldable pub validate_thermal : ThermalParams F → Option SimError
  validate_thermal p =
      if not_positive p.tau
      then some bad_tau
      else if not (is_finite p.t_ambient)
      then some bad_ambient
      else if not (is_finite p.k_heat)
      then some bad_heat
      else none

  unfoldable pub validate_fan : FanParams F → Option SimError
  validate_fan p =
      if not_positive p.tau
      then some bad_tau
      else if not_positive p.max_flow
      then some bad_flow
      else if not_positive p.cv_max
      then some bad_cv_max
      else if not_positive p.exponent
      then some bad_exponent
      else none

  unfoldable pub step_first_order : F → F → F → FirstOrderParams F → F
  step_first_order x cv dt p =
      let dx_dt = over (minus (times p.gain cv) x) p.tau in plus x (times dt dx_dt)

  unfoldable pub step_thermal : F → F → F → ThermalParams F → F
  step_thermal t cv dt p =
      let d_dt = plus (over (minus p.t_ambient t) p.tau) (times p.k_heat cv) in
      plus t (times dt d_dt)

  -- `none` is the panic of `f64::clamp`, whose limits are literals here.
  unfoldable pub target_flow : FanParams F → F → Option F
  target_flow p cv =
      clamp (over cv p.cv_max) nought one >>= λ u. some (times p.max_flow (float.powf u p.exponent))

  unfoldable pub step_fan : F → F → F → FanParams F → Option F
  step_fan speed cv dt p = target_flow p cv >>= λ target.
      let ds_dt = over (minus target speed) p.tau in some (plus speed (times dt ds_dt))

  unfoldable pub validate_params : Plant F → Option SimError
  validate_params (first_order p x) = validate_first_order p
  validate_params (thermal p t) = validate_thermal p
  validate_params (fan p speed) = validate_fan p

  abbrev pub pv : Plant F → F
  pv (first_order p x) = x
  pv (thermal p t) = t
  pv (fan p speed) = speed

  unfoldable pub integrate : Plant F → F → F → Option (Plant F)
  integrate (first_order p x) cv dt = some (first_order p (step_first_order x cv dt p))
  integrate (thermal p t) cv dt = some (thermal p (step_thermal t cv dt p))
  integrate (fan p speed) cv dt = step_fan speed cv dt p >>= λ s. some (fan p s)

  -- The error, if any, and the plant; `none` is a panic.
  unfoldable pub apply_cv : Plant F → F → F → Option (Option SimError × Plant F)
  apply_cv plant cv dt =
      if not_positive dt
      then some (some bad_dt, plant)
      else if not (is_finite cv)
      then some (some bad_cv, plant)
      else integrate plant cv dt >>= λ p. some (none, p)

  unfoldable pub validate : SimState F → Option SimError
  validate s = if not (s.schema == schema_version) then some bad_schema else validate_params s.plant
