-- ===== src/App/LoopRuntime/Laws.antt =====
-- The measured dt, the runtime interval and the safe output.
use pid_ctl.Prelude.{
  Bool-cases, Option-cases, ◌&&◌, ◌≢◌, ℕ, ◌≡◌, refl, arith, Bool, true, false, Option, none, some,
  max, ◌⊎◌, inl, inr,
}
use pid_ctl.Float.{Float, IsIeee, ◌≼◌, IsNumber, clamp, as_secs}
use pid_ctl.Float.Clamp.{clamp_bounds}
use pid_ctl.Core.Inversion.{>>=-eq-some}
use pid_ctl.App.Persister
use pid_ctl.App.StateStore.{Files, Json, World}
use pid_ctl.App.Records.{CvSink, Readings, ControllerSession}
use pid_ctl.App.Session.{record_confirmed_cv, persist_snapshot, set_flush_interval, session_input}
use pid_ctl.App.Events.{Logger, write_event, dt_skipped, dt_clamped}
use pid_ctl.App.LoopRuntime.{
  UserSet, explicit, default, LoopRuntimeConfig, MeasuredDt, skip, use_dt, apply_measured_dt,
  apply_runtime_interval, min_state_flush, write_safe_cv, value, min_dt_default, max_dt_default,
  set_if_default, max_dt_interval_multiplier,
}

-- `set_if_default`, read as two cases.
user_cases :
    {T : Type 0} (u : UserSet T) (w : T) (u' : UserSet T)
    → u' ≡ set_if_default u w
    → ((v : T) × (u ≡ explicit v) × (u' ≡ explicit v))
      ⊎ ((v : T) × (u ≡ default v) × (u' ≡ default w))
user_cases (explicit v) w u' e = inl (v, refl, e)
user_cases (default v) w u' e = inr (v, refl, e)

module _ {F : Type 0} ⦃float : Float F⦄ where
  -- Of a measured dt that is a number: if it lies between the bounds it is used as it is, with no
  -- event. If not, it is either clamped to a number between them, with one `dt_clamped` event, or
  -- the tick is skipped, with one `dt_skipped` event, as `dt_clamp` says.
  measured_dt_cases :
      (laws : IsIeee F) (raw lo hi : F) (dt_clamp : Bool) (l : Logger F) {m : MeasuredDt F}
      {l' : Logger F}
      → IsNumber raw
      → apply_measured_dt raw lo hi dt_clamp l ≡ some (m, l')
      → ((lo ≼ raw) × (raw ≼ hi) × (m ≡ use_dt raw) × (l' ≡ l))
        ⊎ ((dt_clamp ≡ true)
            × ¬ ((lo ≼ raw) × (raw ≼ hi))
            × (dt : F) × (m ≡ use_dt dt)
            × (lo ≼ dt)
            × (dt ≼ hi)
            × (l' ≡ write_event l (dt_clamped raw dt)))
        ⊎ ((dt_clamp ≡ false)
            × ¬ ((lo ≼ raw) × (raw ≼ hi))
            × (m ≡ skip)
            × (l' ≡ write_event l (dt_skipped raw lo hi)))
  unfolding apply_measured_dt
  measured_dt_cases laws raw lo hi true l n e = elim (Option-cases (clamp raw lo hi)) [
    | inl stuck ↦ ground arith
    | inr (dt, found) ↦
        let inside = clamp_bounds laws raw lo hi n found in
        elim (Bool-cases (float.le lo raw && float.le raw hi)) [
          | inl fits ↦ inl (ground arith, ground arith, ground arith, ground arith)
          | inr out ↦
              inr (
                inl (refl, (λ h. ground arith), dt, ground arith, inside.0, inside.1, ground arith))
        ]
  ]
  measured_dt_cases laws raw lo hi false l n e = ground arith

  max_dt_cases :
      (u : UserSet F) (m : F)
      → (min_dt_default ≼ m) × (m ≼ max_dt_default)
      → (u' : UserSet F) → u' ≡ set_if_default u m
      → ((v : F) × (u ≡ explicit v) × (u' ≡ explicit v))
        ⊎ ((v w : F) × (u ≡ default v)
            × (u' ≡ default w)
            × (min_dt_default ≼ w)
            × (w ≼ max_dt_default))
  max_dt_cases (explicit v) m h u' e = inl (v, refl, e)
  max_dt_cases (default v) m h u' e = inr (v, m, refl, e, h.0, h.1)

  -- A new interval at runtime. What the user set on the command line stays as it is; what was a
  -- default follows the interval: `max_dt` as a number between its two bounds, the timeout as the
  -- interval, the state writes no oftener than every 100 ms. The session's flush interval is the one
  -- that results; its controller and its snapshot are as they were.
  runtime_interval_respects_user :
      (laws : IsIeee F) (s : ControllerSession F) (c : LoopRuntimeConfig F) (d : ℕ)
      {s' : ControllerSession F} {c' : LoopRuntimeConfig F}
      → IsNumber (float.times (as_secs d) max_dt_interval_multiplier)
      → apply_runtime_interval s c d ≡ some (s', c')
      → (c'.interval ≡ d)
        × (((v : F) × (c.max_dt ≡ explicit v) × (c'.max_dt ≡ explicit v))
            ⊎ ((v w : F) × (c.max_dt ≡ default v)
                × (c'.max_dt ≡ default w)
                × (min_dt_default ≼ w)
                × (w ≼ max_dt_default)))
        × (((v : ℕ) × (c.pv_stdin_timeout ≡ explicit v) × (c'.pv_stdin_timeout ≡ explicit v))
            ⊎ ((v : ℕ) × (c.pv_stdin_timeout ≡ default v) × (c'.pv_stdin_timeout ≡ default d)))
        × (((v : Option ℕ) × (c.state_write_interval ≡ explicit v)
              × (c'.state_write_interval ≡ explicit v))
            ⊎ ((v : Option ℕ) × (c.state_write_interval ≡ default v)
                × (c'.state_write_interval ≡ default (some (max d min_state_flush)))))
        × (s'.persister.flush_interval ≡ value c'.state_write_interval)
        × (s'.controller ≡ s.controller)
        × (s'.snapshot ≡ s.snapshot)
  unfolding apply_runtime_interval set_flush_interval Persister.set_flush_interval
  runtime_interval_respects_user laws s c d {s'} {c'} n e =
      let (m, clamped, left) =
        >>=-eq-some
          (clamp (float.times (as_secs d) max_dt_interval_multiplier) min_dt_default max_dt_default)
          _ e in
      let inside = clamp_bounds laws _ _ _ n clamped in
      (
        ground arith,
        max_dt_cases c.max_dt m inside c'.max_dt (ground arith),
        user_cases c.pv_stdin_timeout d c'.pv_stdin_timeout (ground arith),
        user_cases c.state_write_interval (some (max d min_state_flush)) c'.state_write_interval
            (ground arith),
        ground arith,
        ground arith,
        ground arith,
      )

  -- A safe output that the sink takes is the confirmed output, which the next step is given, with
  -- no step of the controller and the same iteration count; if the sink refuses it, the session and
  -- the world stay as they are.
  write_safe_cv_confirmed :
      {D S : Type 0} (files : Files D) (format : Json F) (sink : CvSink F S) (cv pv dt ff : F)
      (s : ControllerSession F) (r : Readings) (a : S) (w : World D)
      → let q = write_safe_cv files format sink (some cv) s r a w in
        (((sink.write_cv cv a).0 ≡ none)
          × (q.0.snapshot.last_cv ≡ some cv)
          × ((session_input q.0 pv dt ff).prev_applied_cv ≡ cv)
          × (q.0.snapshot.iter ≡ s.snapshot.iter)
          × (q.0.controller ≡ s.controller))
        ⊎ (((sink.write_cv cv a).0 ≢ none) × (q.0 ≡ s) × (q.2 ≡ w))
  unfolding write_safe_cv record_confirmed_cv persist_snapshot
  write_safe_cv_confirmed files format sink cv pv dt ff s r a w = ground arith
