-- ===== src/Core/Ramp.antt =====
-- The setpoint ramp: `ramp_toward` and the effective setpoint that `step` reports.
use pid_ctl.Prelude.{arith}
use pid_ctl.Float.{Float, IsIeee, nought, ◌≼◌, ◌≺◌, IsNumber}
use pid_ctl.Core.Controller.{ramp_toward}

module _ {F : Type 0} ⦃float : Float F⦄ (laws : IsIeee F) where
  open float use {minus, plus, times, le, lt, abs}
  open laws use {
    number_of_le, lt-eq-not-le, le_of_lt, le_trans, minus-le, le-plus, plus-le_of_lt,
    le-minus_of_lt, abs-minus, abs-minus_swap,
  }

  -- Upwards: the ramp does not fall, and does not pass the target.
  pub ramp_up :
      (current target d : F)
      → nought ≼ d
      → current ≺ target
      → IsNumber (minus target current)
      → IsNumber (plus current d)
      → (current ≼ ramp_toward current target d) × (ramp_toward current target d ≼ target)
  unfolding ramp_toward
  ramp_up current target d h k m n = ground (
    arith,
    le_of_lt current target k,
    number_of_le current target,
    number_of_le nought d h,
    abs-minus current target k,
    lt-eq-not-le d (minus target current),
    le-plus current d h n,
    plus-le_of_lt current target d,
  )

  -- Downwards, the same.
  pub ramp_down :
      (current target d : F)
      → nought ≼ d
      → target ≺ current
      → IsNumber (minus current target)
      → IsNumber (minus current d)
      → (ramp_toward current target d ≼ current) × (target ≼ ramp_toward current target d)
  unfolding ramp_toward
  ramp_down current target d h k m n = ground (
    arith,
    le_of_lt target current k,
    number_of_le target current,
    lt-eq-not-le current target,
    number_of_le nought d h,
    lt-eq-not-le target current,
    abs-minus_swap target current k,
    lt-eq-not-le d (minus current target),
    minus-le current d h n,
    le-minus_of_lt current target d,
  )
