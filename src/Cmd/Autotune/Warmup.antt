-- ===== src/Cmd/Autotune/Warmup.antt =====
-- What the warmup of `autotune` hands to the actuator.
use pid_ctl.Prelude.{
  ℕ, zero, suc, ◌≡◌, sym, ap, subst, Option, ◌∷◌, arith, Bool, none, some, All, inl, inr,
  Bool-cases, ◌>>=◌,
}
use mathlib.Core.Option.{some-injective}
use pid_ctl.Float.{Float, IsIeee, IsNumber, ◌≼◌}
use pid_ctl.Core.Inversion.{>>=-eq-some}
use pid_ctl.Autotune.{AutotuneConfig, validate}
use pid_ctl.Adapters.Writers.{FloatText, Outside, write_cmd_cv}
use pid_ctl.Cli.Args.{AutotuneArgs}
use pid_ctl.Cmd.Autotune.{
  TuneState, config_of, read_pv, write_output, warmup, warmup_round, cv_sink,
}

module _ {F : Type 0} ⦃float : Float F⦄ where
  open float use {plus, minus}

  -- The limits and the outputs of the relay are numbers.
  pub record IsNumeric (c : AutotuneConfig F) : Type 0 where
    pub low_limit : IsNumber c.out_min
    pub high_limit : IsNumber c.out_max
    pub low_output : IsNumber (minus c.bias c.amp)
    pub high_output : IsNumber (plus c.bias c.amp)
    pub amplitude : IsNumber c.amp

  abbrev pub InLimits : AutotuneConfig F → F → Type 0
  InLimits c cv = (c.out_min ≼ cv) × (cv ≼ c.out_max)

  pub bias-InLimits :
      (laws : IsIeee F) (c : AutotuneConfig F) → validate c ≡ none → IsNumeric c → InLimits c c.bias
  unfolding validate
  bias-InLimits laws c v n =
      let bias = (laws.number_of_minus c.bias c.amp n.low_output).0 in
      ground (
        arith,
        laws.lt-eq-not-le c.bias c.out_min bias n.low_limit,
        laws.lt-eq-not-le c.out_max c.bias n.high_limit bias,
      )

module _ {F : Type 0} ⦃float : Float F⦄ (laws : IsIeee F) (texts : FloatText F) {S : Type 0}
    (out : Outside S) (a : AutotuneArgs F) (valid : validate (config_of a) ≡ none)
    (numeric : IsNumeric (config_of a)) where
  -- What a write leaves: the output is the latest that has been handed to the sink.
  write_output-outputs :
      (cv : F) (t t' : TuneState F S)
      → write_output texts out a cv t ≡ some t'
      → t'.outputs ≡ cv ∷ t.outputs
  unfolding write_output
  write_output-outputs cv t t' e =
      let (q, _, left) =
        >>=-eq-some (write_cmd_cv texts out (cv_sink texts out a) cv t.outside) _ e in
      ap (λ z. z.outputs) (sym (some-injective _ _ left))

  pub write_output-Safe :
      (cv : F) (t t' : TuneState F S)
      → write_output texts out a cv t ≡ some t'
      → InLimits (config_of a) cv
      → All (InLimits (config_of a)) t.outputs
      → All (InLimits (config_of a)) t'.outputs
  write_output-Safe cv t t' e within h = rw (write_output-outputs cv t t' e) (within, h)

  warmup_round-Safe :
      (pv : F) (t : TuneState F S) (q : F × TuneState F S)
      → warmup_round texts out a pv t ≡ some q
      → All (InLimits (config_of a)) t.outputs
      → All (InLimits (config_of a)) q.1.outputs
  unfolding warmup_round
  warmup_round-Safe pv t q e h =
      let (r, _, e1) = >>=-eq-some (read_pv texts out a t.outside) _ e in
      let (t', written, left) =
        >>=-eq-some (write_output texts out a a.bias (record t { outside = r.1 })) _ e1 in
      subst (λ z. All (InLimits (config_of a)) z.1.outputs) (some-injective _ _ left)
        (write_output-Safe a.bias (record t { outside = r.1 }) t' written
          (bias-InLimits laws (config_of a) valid numeric) h)

  pub warmup-Safe :
      (n : ℕ) (stops : ℕ → Bool) (k : ℕ) (pv : F) (t : TuneState F S) (q : Option F × TuneState F S)
      → warmup texts out a n stops k pv t ≡ some q
      → All (InLimits (config_of a)) t.outputs
      → All (InLimits (config_of a)) q.1.outputs
  unfolding warmup
  warmup-Safe zero stops k pv t q e h =
      subst (λ z. All (InLimits (config_of a)) z.1.outputs) (some-injective _ _ e) h
  warmup-Safe (suc n) stops k pv t q e h = elim (Bool-cases (stops k)) [
    | inl stop ↦
        let e' : some (none, t) ≡ some q = rw (stop, warmup) at e in
        subst (λ z. All (InLimits (config_of a)) z.1.outputs) (some-injective _ _ e') h
    | inr on ↦
        let e' : (warmup_round texts out a pv t >>= λ r. warmup texts out a n stops (suc k) r.0 r.1)
            ≡ some q =
          rw (on, warmup) at e in
        let (r, round, rest) = >>=-eq-some (warmup_round texts out a pv t) _ e' in
        warmup-Safe n stops (suc k) r.0 r.1 q rest (warmup_round-Safe pv t r round h)
  ]
