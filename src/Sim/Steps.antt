-- ===== src/Sim/Steps.antt =====
-- Steps of the plant: what is refused, and that nothing panics.
use pid_ctl.Prelude.{◌≡◌, refl, Bool-cases, inl, inr, ◌⊎◌, arith, true, false, none, some}
use pid_ctl.Float.{Float, IsIeee, clamp}
use pid_ctl.Sim.{
  Plant, first_order, thermal, fan, bad_dt, bad_cv, apply_cv, integrate, step_fan, target_flow,
  validate_params, not_positive,
}

module _ {F : Type 0} ⦃float : Float F⦄ (laws : IsIeee F) where
  integrate_total :
      (plant : Plant F) (cv dt : F)
      → (plant' : Plant F) × (integrate plant cv dt ≡ some plant')
        × (validate_params plant' ≡ validate_params plant)
  unfolding integrate step_fan target_flow clamp validate_params
  integrate_total (first_order p x) cv dt = (_, refl, refl)
  integrate_total (thermal p t) cv dt = (_, refl, refl)
  integrate_total (fan p speed) cv dt = rw laws.nought-le-one (_, refl, refl)

  -- Applying a control value never panics. Either `dt` is not a positive finite number or the value
  -- is not finite, and the plant stays as it is, with an error that says which; or there is no
  -- error, and the new plant is of the same kind with the same parameters, so it is as valid as the
  -- old one.
  apply_cv_total :
      (plant : Plant F) (cv dt : F)
      → ((not_positive dt ≡ true) × (apply_cv plant cv dt ≡ some (some bad_dt, plant)))
        ⊎ ((not_positive dt ≡ false)
            × (float.is_finite cv ≡ false)
            × (apply_cv plant cv dt ≡ some (some bad_cv, plant)))
        ⊎ ((not_positive dt ≡ false)
            × (float.is_finite cv ≡ true)
            × (plant' : Plant F) × (apply_cv plant cv dt ≡ some (none, plant'))
            × (validate_params plant' ≡ validate_params plant))
  unfolding apply_cv
  apply_cv_total plant cv dt =
      let (plant', e, same) = integrate_total plant cv dt in
      elim (Bool-cases (not_positive dt)) [
        | inl bad ↦ inl (bad, ground arith)
        | inr good ↦ elim (Bool-cases (float.is_finite cv)) [
          | inl finite ↦ inr (inr (good, finite, plant', ground arith, same))
          | inr infinite ↦ inr (inl (good, infinite, ground arith))
        ]
      ]
