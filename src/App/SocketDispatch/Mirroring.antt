-- ===== src/App/SocketDispatch/Mirroring.antt =====
-- Operator requests keep the snapshot a mirror of the controller.
use text.Mathlib.Text.{◌==◌ as str_eq}
use pid_ctl.Prelude.{false, ◌≡◌, ℕ, max, subst, Option, none, some, String, if-both}
use mathlib.Core.Option.{some-injective}
use pid_ctl.Float.{Float, nought, clamp, as_secs}
use pid_ctl.Core.Inversion.{>>=-eq-some}
use pid_ctl.App.StateStore.{Files, Json}
use pid_ctl.App.Persister.{has_store}
use pid_ctl.App.Records.{Readings, ControllerSession}
use pid_ctl.App.Session.Invariant.{Mirrors, edit-Mirrors, write-Mirrors}
use pid_ctl.App.LoopRuntime.{
  LoopRuntimeConfig, apply_runtime_interval, max_dt_interval_multiplier, min_dt_default,
  max_dt_default, value, set_if_default, min_state_flush,
}
use pid_ctl.App.SocketDispatch.{
  Request, status, set_request, reset, hold, resume, save, Response, SocketSideEffect, GainParam,
  gain_kp, gain_ki, gain_kd, Live, with_gain, set_gain, apply_gain_param, set_sp, set_interval,
  handle_socket_set, handle_socket_request, error_unknown_param, settable, no_effect,
}

module _ {F : Type 0} ⦃float : Float F⦄ where
  interval-Mirrors :
      (s : ControllerSession F) (c : LoopRuntimeConfig F) (d : ℕ)
      {p : ControllerSession F × LoopRuntimeConfig F}
      → Mirrors s
      → apply_runtime_interval s c d ≡ some p
      → Mirrors p.0
  unfolding apply_runtime_interval
  interval-Mirrors s c d m e =
      let (top, clamped, left) =
        >>=-eq-some
          (clamp (float.times (as_secs d) max_dt_interval_multiplier) min_dt_default max_dt_default)
          _ e in
      subst (λ z. Mirrors z.0) (some-injective _ _ left)
        (edit-Mirrors s nought nought nought nought
          (value (set_if_default c.state_write_interval (some (max d min_state_flush)))) m).3

module _ {F : Type 0} ⦃float : Float F⦄ {D : Type 0} where
  -- What a request leaves, if it does not panic.
  abbrev pub Leaves : Option (Response F × SocketSideEffect × Live F D) → Type 0
  Leaves o = (q : Response F × SocketSideEffect × Live F D) → o ≡ some q → Mirrors q.2.session

  leaves : (q : Response F × SocketSideEffect × Live F D) → Mirrors q.2.session → Leaves (some q)
  leaves q m q' e = subst (λ z. Mirrors z.2.session) (some-injective _ _ e) m

  set_gain-Mirrors :
      (param : String) (g : GainParam) (v : F) (x : Live F D)
      → Mirrors x.session
      → Mirrors (set_gain param g v x).2.session
  unfolding set_gain apply_gain_param with_gain
  set_gain-Mirrors param gain_kp v x m = (edit-Mirrors x.session v _ _ nought none m).0
  set_gain-Mirrors param gain_ki v x m = (edit-Mirrors x.session _ v _ nought none m).0
  set_gain-Mirrors param gain_kd v x m = (edit-Mirrors x.session _ _ v nought none m).0

  set_interval-Leaves : (v : F) (x : Live F D) → Mirrors x.session → Leaves (set_interval v x)
  unfolding set_interval
  set_interval-Leaves v x m q e =
      let (d, got, e1) = >>=-eq-some (float.from_secs v) _ e in
      let (p, changed, e2) = >>=-eq-some (apply_runtime_interval x.session x.controls d) _ e1 in
      leaves _ (interval-Mirrors x.session x.controls d m changed) q e2

  handle_socket_set-Leaves :
      (param : String) (v : F) (x : Live F D)
      → Mirrors x.session
      → Leaves (handle_socket_set param v x)
  unfolding handle_socket_set set_sp
  handle_socket_set-Leaves param v x m =
      if-both Leaves (str_eq param "kp")
        (leaves (set_gain param gain_kp v x) (set_gain-Mirrors param gain_kp v x m))
        (if-both Leaves (str_eq param "ki")
          (leaves (set_gain param gain_ki v x) (set_gain-Mirrors param gain_ki v x m))
          (if-both Leaves (str_eq param "kd")
            (leaves (set_gain param gain_kd v x) (set_gain-Mirrors param gain_kd v x m))
            (if-both Leaves (str_eq param "sp")
              (leaves (set_sp v x) (edit-Mirrors x.session nought nought nought v none m).1)
              (if-both Leaves (str_eq param "interval") (set_interval-Leaves v x m)
                (leaves (error_unknown_param false param settable, no_effect, x) m)))))

  pub handle_socket_request-Leaves :
      (files : Files D) (format : Json F) (q : Request F) (r : Readings) (x : Live F D)
      → Mirrors x.session
      → Leaves (handle_socket_request files format q r x)
  unfolding handle_socket_request
  handle_socket_request-Leaves files format status r x m = leaves _ m
  handle_socket_request-Leaves files format (set_request param v) r x m =
      handle_socket_set-Leaves param v x m
  handle_socket_request-Leaves files format reset r x m =
      leaves _ (edit-Mirrors x.session nought nought nought nought none m).2
  handle_socket_request-Leaves files format hold r x m = leaves _ m
  handle_socket_request-Leaves files format resume r x m = leaves _ m
  handle_socket_request-Leaves files format save r x m =
      if-both Leaves (has_store x.session.persister)
        (leaves _ (write-Mirrors files format x.session nought r x.world m).2) (leaves _ m)
