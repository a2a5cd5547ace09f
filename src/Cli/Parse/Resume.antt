-- ===== src/Cli/Parse/Resume.antt =====
-- A controller that is configured again from its own snapshot, and an interval that is set again.
use pid_ctl.Prelude.{
  ℕ, max, subst, ◌≡◌, ◌⊎◌, refl, sym, ap, ◌∙◌, true, Option-cases, Option, none, some, inl, inr,
  Bool-cases, or_some, unwrap_or, ◌>>=◌,
}
use pid_ctl.Float.{Float, clamp, as_secs}
use pid_ctl.Core.Config.{PidConfig, default_config}
use pid_ctl.Core.Controller.{PidController, StepResult}
use pid_ctl.App.Snapshot.{StateSnapshot}
use pid_ctl.App.StateStore.{FilePath, Files, Json, loaded, load}
use pid_ctl.App.Records.{Readings, ControllerSession}
use pid_ctl.App.Session.{build_snapshot, set_flush_interval, finite_value}
use pid_ctl.App.LoopRuntime.{
  LoopRuntimeConfig, apply_runtime_interval, value, set_if_default, max_dt_interval_multiplier,
  min_dt_default, max_dt_default, min_state_flush,
}
use mathlib.Core.Option.{some-injective}
use pid_ctl.Core.Inversion.{>>=-eq-some}
use pid_ctl.Cli.Outcome.{ok}
use pid_ctl.Cli.Parse.{
  user_set, wrapped, PidFlags, RuntimeFlags, merge, merge_found, resolve_pid_config,
  runtime_controls,
}

or_some-none : {A : Type 0} (o : Option A) → or_some o none ≡ o
or_some-none none = refl
or_some-none (some a) = refl

user_set-again :
    {T : Type 0} (o : Option T) (d d' : T) → set_if_default (user_set o d) d' ≡ user_set o d'
user_set-again none d d' = refl
user_set-again (some v) d d' = refl

module _ {F : Type 0} ⦃float : Float F⦄ where
  -- The flags of a configuration that are not in the snapshot, and none of those that are.
  abbrev pub other_flags : PidConfig F → PidFlags F
  other_flags c = record {
    setpoint = none;
    kp = none;
    ki = none;
    kd = none;
    out_min = none;
    out_max = none;
    deadband = some c.deadband;
    setpoint_ramp = c.setpoint_ramp;
    slew_rate = c.slew_rate;
    pv_filter_alpha = some c.pv_filter_alpha;
    anti_windup = some c.anti_windup;
    anti_windup_tt = c.anti_windup_tt;
    feedforward_gain = some c.feedforward_gain;
  }

  -- A limit that is not in the snapshot, since JSON has no infinity, is restored by its default.
  limit_back : (v d : F) → (float.is_finite v ≡ true) ⊎ (v ≡ d) → unwrap_or (finite_value v) d ≡ v
  limit_back v d (inl finite) = rw finite refl
  limit_back v d (inr e) = elim (Bool-cases (float.is_finite v)) [
    | inl finite ↦ rw finite refl
    | inr infinite ↦ rw infinite (sym e)
  ]

  merge-build_snapshot :
      (c : PidController F) (old : StateSnapshot F) (step : StepResult F) (cv : F) (r : Readings)
      → (float.is_finite c.config.out_min ≡ true) ⊎ (c.config.out_min ≡ float.neg_infinity)
      → (float.is_finite c.config.out_max ≡ true) ⊎ (c.config.out_max ≡ float.infinity)
      → merge_found (other_flags c.config) (some (build_snapshot c old step cv r))
        ≡ ok (record c.config { tt_upper_bound = none })
  unfolding merge_found merge build_snapshot default_config
  merge-build_snapshot c old step cv r low high =
      rw
        (
          limit_back c.config.out_min float.neg_infinity low,
          limit_back c.config.out_max float.infinity high,
          or_some-none c.config.setpoint_ramp,
          or_some-none c.config.slew_rate,
        )
        refl

  -- If the state file loads as a snapshot that a step has built, a run that repeats the flags which
  -- the snapshot does not hold and gives none of the others has the configuration of the
  -- controller: its gains, its setpoint as last set, its limits (each finite, or the infinite
  -- default), and all else but the bound on the tracking time.
  pub resolve_resumes :
      {D : Type 0} (files : Files D) (format : Json F) (path : FilePath) (d : D)
      (c : PidController F) (old : StateSnapshot F) (step : StepResult F) (cv : F) (r : Readings)
      → load files format path d ≡ loaded (some (build_snapshot c old step cv r))
      → (float.is_finite c.config.out_min ≡ true) ⊎ (c.config.out_min ≡ float.neg_infinity)
      → (float.is_finite c.config.out_max ≡ true) ⊎ (c.config.out_max ≡ float.infinity)
      → resolve_pid_config files format (other_flags c.config) (some path) d
        ≡ ok (record c.config { tt_upper_bound = none })
  unfolding resolve_pid_config
  resolve_resumes files format path d c old step cv r read low high =
      rw (read, resolve_pid_config) (merge-build_snapshot c old step cv r low high)

  -- An interval that is set at runtime gives the controls that the same flags give with that
  -- interval, and the session's flush interval is then the one of those controls; it panics when
  -- their computation does.
  pub interval_reparses :
      (f : RuntimeFlags F) (d d' : ℕ) (s : ControllerSession F) (c : LoopRuntimeConfig F)
      → runtime_controls f d ≡ some c
      → apply_runtime_interval s c d' ≡ (
          runtime_controls f d' >>= λ c'.
          some (set_flush_interval s (value c'.state_write_interval), c'))
  unfolding runtime_controls apply_runtime_interval
  interval_reparses f d d' s c e =
      let (m, clamped, left) =
        >>=-eq-some
          (clamp (float.times (as_secs d) max_dt_interval_multiplier) min_dt_default max_dt_default)
          _ e in
      subst
        (λ z. apply_runtime_interval s z d' ≡ (
          runtime_controls f d' >>= λ c'.
          some (set_flush_interval s (value c'.state_write_interval), c')))
        (some-injective _ _ left)
        (elim (Option-cases (
          clamp (float.times (as_secs d') max_dt_interval_multiplier) min_dt_default
            max_dt_default)) [
              | inl nothing ↦ rw nothing refl
              | inr (m', found) ↦
                  rw
                    (
                      found,
                      user_set-again f.max_dt m m',
                      user_set-again f.pv_stdin_timeout d d',
                      user_set-again (wrapped f.state_write_interval) (some (max d min_state_flush))
                          (some (max d' min_state_flush)),
                    )
                    refl
            ])

  -- An interval that is set at runtime to the value from which the controls were parsed changes no
  -- control, and the session's flush interval is then the one of the controls.
  same_interval :
      (f : RuntimeFlags F) (d : ℕ) (s : ControllerSession F) (c : LoopRuntimeConfig F)
      → runtime_controls f d ≡ some c
      → apply_runtime_interval s c d ≡ some (set_flush_interval s (value c.state_write_interval), c)
  same_interval f d s c e =
      interval_reparses f d d s c e
      ∙ ap (λ o. o >>= λ c'. some (set_flush_interval s (value c'.state_write_interval), c')) e
