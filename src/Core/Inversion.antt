-- ===== src/Core/Inversion.antt =====
-- What a `step` that returns has computed: one record of equations, from which the properties follow.
use pid_ctl.Prelude.{◌≡◌, refl, sym, ap, ◌∙◌, Option, none, some, ◌>>=◌}
use mathlib.Core.Option.{some-injective}
use pid_ctl.Float.{Float, clamp}
use pid_ctl.Core.Controller.{
  PidController, StepInput, StepResult, windup, unclamped, apply_slew_rate, finish, step,
}

-- Inversion of a bind that returns.
pub >>=-eq-some {ℓ κ} :
    {A : Type ℓ} {B : Type κ} (m : Option A) (f : A → Option B) {b : B}
    → (m >>= f) ≡ some b
    → (a : A) × (m ≡ some a) × (f a ≡ some b)
>>=-eq-some none f h = cc
>>=-eq-some (some a) f h = (a, refl, h)

-- A bind returns what its continuation does.
pub >>=-some {ℓ κ} :
    {A : Type ℓ} {B : Type κ} (m : Option A) (f : A → Option B) {a : A} {b : B}
    → m ≡ some a
    → f a ≡ some b
    → (m >>= f) ≡ some b
>>=-some none f e h = cc
>>=-some (some a) f e h = ap f (some-injective _ _ e) ∙ h

-- What returns.
abbrev pub Ends {ℓ} : {A : Type ℓ} → Option A → Type ℓ
Ends {A = A} m = (a : A) × (m ≡ some a)

pub >>=-Ends {ℓ κ} :
    {A : Type ℓ} {B : Type κ} (m : Option A) (f : A → Option B)
    → Ends m
    → ((a : A) → Ends (f a))
    → Ends (m >>= f)
>>=-Ends m f (a, e) h = let (b, e') = h a in (b, >>=-some m f e e')

module _ {F : Type 0} ⦃float : Float F⦄ where
  pub record Stepped (c : PidController F) (i : StepInput F) (out : PidController F × StepResult F)
      : Type 0 where
    pub i_acc : F
    pub i_term : F
    pub clamped : F
    pub cv : F
    pub windup_eq : windup c i ≡ some (i_acc, i_term)
    pub clamp_eq : clamp (unclamped c i i_term) c.config.out_min c.config.out_max ≡ some clamped
    pub slew_eq : apply_slew_rate c clamped i.prev_applied_cv i.dt ≡ some cv
    pub out_eq : out ≡ finish c i i_acc i_term cv

  pub step-Stepped :
      (c : PidController F) (i : StepInput F) {out : PidController F × StepResult F}
      → step c i ≡ some out
      → Stepped c i out
  unfolding step
  step-Stepped c i h =
      let (w, e, h1) = >>=-eq-some (windup c i) _ h in
      let (clamped, f, h2) =
        >>=-eq-some (clamp (unclamped c i w.1) c.config.out_min c.config.out_max) _ h1 in
      let (cv, g, h3) = >>=-eq-some (apply_slew_rate c clamped i.prev_applied_cv i.dt) _ h2 in
      record {
        i_acc = w.0;
        i_term = w.1;
        clamped = clamped;
        cv = cv;
        windup_eq = e;
        clamp_eq = f;
        slew_eq = g;
        out_eq = sym (some-injective _ _ h3);
      }

  -- The accumulator, the measurement, the error and the setpoint that the controller keeps.
  pub record Kept (i : StepInput F) (out : PidController F × StepResult F) : Type 0 where
    pub i_acc : out.0.i_acc ≡ out.1.i_acc
    pub effective_sp : out.0.effective_sp ≡ some out.1.effective_sp

  pub step-Kept :
      (c : PidController F) (i : StepInput F) {out : PidController F × StepResult F}
      → step c i ≡ some out
      → Kept i out
  unfolding finish
  step-Kept c i e =
      let s = step-Stepped c i e in
      record { i_acc = rw s.out_eq refl; effective_sp = rw s.out_eq refl }
