-- ===== src/Core/Limits.antt =====
-- The output of `step`: the limits, the slew rate, and the `saturated` flag.
use mathlib.Core.Option.{some-injective}
use pid_ctl.Prelude.{
  ◌≡◌, ◌↔◌, arith, some, none, false, inl, inr, Option-cases, Bool-cases, ◌||◌, sym, ◌∙◌, true, ◌⊎◌,
}
use pid_ctl.Float.{Float, IsIeee, nought, ◌≼◌, IsNumber, clamp}
use pid_ctl.Float.Clamp.{Clamped, clamp-Clamped, clamp_bounds, clamp_within}
use pid_ctl.Core.Config.{PidConfig, validate}
use pid_ctl.Core.Controller.{
  PidController, StepInput, StepResult, apply_slew_rate, finish, step, unclamped,
}
use pid_ctl.Core.Inversion.{step-Stepped}

module _ {F : Type 0} ⦃float : Float F⦄ (laws : IsIeee F) where
  open float use {minus, plus, times, le, lt}
  open laws use {
    number_of_le, lt-eq-not-le, le_trans, minus-le, le-plus, times_nonneg, number_of_times,
    number_of_minus, number_lit,
  }

  -- A validated slew rate is not negative, unless it is NaN.
  slew_rate_nonneg :
      (c : PidConfig F) (rate : F)
      → validate c ≡ none
      → c.slew_rate ≡ some rate
      → IsNumber rate
      → nought ≼ rate
  unfolding validate
  slew_rate_nonneg c rate v e n = ground (arith, lt-eq-not-le rate nought n (number_lit 0 1))

  -- A clamp to an interval about `prev` keeps the bounds that both `prev` and the number respect.
  clamp_about :
      (lo hi x prev a b : F) {y : F}
      → (lo ≼ x) × (x ≼ hi)
      → (lo ≼ prev) × (prev ≼ hi)
      → (a ≼ prev) × (prev ≼ b)
      → Clamped x a b y
      → (lo ≼ y) × (y ≼ hi)
  clamp_about lo hi x prev a b h k m e =
      ground (arith, le_trans lo x a, le_trans a prev hi, le_trans lo prev b, le_trans b x hi)

  slew_off :
      (c : PidController F) (x prev dt : F) {cv : F}
      → c.config.slew_rate ≡ none
      → apply_slew_rate c x prev dt ≡ some cv
      → cv ≡ x
  unfolding apply_slew_rate
  slew_off c x prev dt off e = ground arith

  slew_on :
      (c : PidController F) (x prev dt rate : F) {cv : F}
      → c.config.slew_rate ≡ some rate
      → apply_slew_rate c x prev dt ≡ some cv
      → clamp x (minus prev (times rate dt)) (plus prev (times rate dt)) ≡ some cv
  unfolding apply_slew_rate
  slew_on c x prev dt rate on e = rw (on, apply_slew_rate) at e

  slew_bounds :
      (c : PidController F) (clamped prev dt : F) {cv : F}
      → validate c.config ≡ none
      → nought ≼ dt
      → (c.config.out_min ≼ clamped) × (clamped ≼ c.config.out_max)
      → (c.config.out_min ≼ prev) × (prev ≼ c.config.out_max)
      → apply_slew_rate c clamped prev dt ≡ some cv
      → (c.config.out_min ≼ cv) × (cv ≼ c.config.out_max)
  unfolding apply_slew_rate
  slew_bounds c clamped prev dt v t h k e = elim (Option-cases c.config.slew_rate) [
    | inl off ↦ ground arith
    | inr (rate, on) ↦
        let d = times rate dt in
        let at_rate : clamp clamped (minus prev d) (plus prev d) ≡ some _ =
          rw (on, apply_slew_rate) at e in
        let found = clamp-Clamped laws clamped _ _ (number_of_le _ _ h.0).1 at_rate in
        let numbers = number_of_le _ _ found.0 in
        let rate_number = (number_of_times rate dt (number_of_minus prev d numbers.0).1).0 in
        let d_nonneg : nought ≼ d =
          times_nonneg rate dt (slew_rate_nonneg c.config rate v on rate_number) t
            (number_of_minus prev d numbers.0).1 in
        clamp_about c.config.out_min c.config.out_max clamped prev _ _ h k
          (minus-le prev d d_nonneg numbers.0, le-plus prev d d_nonneg numbers.1) found
  ]

  -- Of a validated controller, if `dt` is not negative, the previous output was within the limits
  -- and the unclamped output is not NaN: `step` returns an output within the limits, with a slew
  -- rate as without.
  pub step_within_limits :
      (c : PidController F) (i : StepInput F) {out : PidController F × StepResult F}
      → validate c.config ≡ none
      → nought ≼ i.dt
      → (c.config.out_min ≼ i.prev_applied_cv) × (i.prev_applied_cv ≼ c.config.out_max)
      → step c i ≡ some out
      → IsNumber out.1.u_unclamped
      → (c.config.out_min ≼ out.1.cv) × (out.1.cv ≼ c.config.out_max)
  unfolding finish
  step_within_limits c i v t k e n =
      let s = step-Stepped c i e in
      let n' : IsNumber (unclamped c i s.i_term) = rw s.out_eq at n in
      let inside = clamp_bounds laws _ _ _ n' s.clamp_eq in
      rw s.out_eq (slew_bounds c s.clamped i.prev_applied_cv i.dt v t inside k s.slew_eq)

  -- With a slew rate, if `step` returns and the unclamped output is not NaN: the output is at most
  -- `rate * dt` away from the previous one, on either side, even where that takes it out of the
  -- limits.
  pub step_slew_limited :
      (c : PidController F) (i : StepInput F) (rate : F) {out : PidController F × StepResult F}
      → c.config.slew_rate ≡ some rate
      → step c i ≡ some out
      → IsNumber out.1.u_unclamped
      → let d = times rate i.dt in
        (minus i.prev_applied_cv d ≼ out.1.cv) × (out.1.cv ≼ plus i.prev_applied_cv d)
  unfolding finish
  step_slew_limited c i rate on e n =
      let s = step-Stepped c i e in
      let n' : IsNumber (unclamped c i s.i_term) = rw s.out_eq at n in
      let inside = clamp_bounds laws _ _ _ n' s.clamp_eq in
      let at_rate = slew_on c s.clamped i.prev_applied_cv i.dt rate on s.slew_eq in
      rw s.out_eq (clamp_bounds laws s.clamped _ _ (number_of_le _ _ inside.0).1 at_rate)

  -- If `step` returns and the unclamped output is not NaN, `saturated` is false exactly when the
  -- unclamped output lies within the limits. If it is false, that output is passed on as it is,
  -- unless there is a slew rate.
  step_saturated :
      (c : PidController F) (i : StepInput F) {out : PidController F × StepResult F}
      → step c i ≡ some out
      → IsNumber out.1.u_unclamped
      → ((out.1.saturated ≡ false)
          ↔ ((c.config.out_min ≼ out.1.u_unclamped) × (out.1.u_unclamped ≼ c.config.out_max)))
        × ((out.1.saturated ≡ true)
            ⊎ ((rate : F) × (c.config.slew_rate ≡ some rate))
            ⊎ (out.1.cv ≡ out.1.u_unclamped))
  unfolding finish apply_slew_rate
  step_saturated c i e n =
      let s = step-Stepped c i e in
      let u = unclamped c i s.i_term in
      let n' : IsNumber u = rw s.out_eq at n in
      let c' = clamp-Clamped laws u _ _ n' s.clamp_eq in
      let ends = number_of_le _ _ c'.0 in
      let low = lt-eq-not-le u c.config.out_min n' ends.0 in
      let high = lt-eq-not-le c.config.out_max u ends.1 n' in
      rw s.out_eq (
        ground arith,
        elim (Option-cases c.config.slew_rate) [
          | inr (rate, on) ↦ inr (inl (rate, on))
          | inl off ↦
              let passed = slew_off c s.clamped _ _ off s.slew_eq in
              let within = clamp_within laws u c.config.out_min c.config.out_max in
              elim (Bool-cases (lt u c.config.out_min || lt c.config.out_max u)) [
                | inl outside ↦ inl outside
                | inr within_limits ↦ inr (
                    inr (
                      passed
                      ∙ some-injective _ _ (sym s.clamp_eq ∙ within (ground arith) (ground arith))))
              ]
        ],
      )
