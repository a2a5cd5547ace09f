-- ===== src/App/Session/Restart.antt =====
-- A session that is started from a snapshot (`ControllerSession::new`).
use pid_ctl.Prelude.{
  ◌≡◌, ap, sym, ◌∙◌, arith, Option, none, some, true, false, inl, inr, Option-cases, String,
}
use pid_ctl.Float.{Float, nought}
use pid_ctl.Core.Controller.{
  PidController, StepInput, StepResult, made, rejected, next_effective_sp, restore_state,
}
use pid_ctl.Core.Controller
use pid_ctl.Core.Restart.{step-restored, restored}
use pid_ctl.App.Snapshot.{StateSnapshot, runtime_state}
use pid_ctl.App.StateStore.{Files, Json, World, FilePath}
use pid_ctl.App.Records.{Readings, SessionConfig, ControllerSession, session}
use pid_ctl.App.Session.{session_input, start_session, on_dt_skipped, persist_snapshot}
use pid_ctl.App.Session.Invariant.{Mirrors}

module _ {F : Type 0} ⦃float : Float F⦄ {D : Type 0} (files : Files D) (format : Json F) where
  -- The controller and the confirmed output of a session that is started without a reset.
  pub start_controller :
      (cfg : SessionConfig F) (stem : Option String) (old : StateSnapshot F)
      (store : Option FilePath) {t : ControllerSession F}
      → cfg.reset_accumulator ≡ false
      → start_session files format cfg stem old store ≡ session t
      → (t.controller ≡ record {
        config = cfg.pid;
        i_acc = old.i_acc;
        last_pv = old.last_pv;
        last_error = old.last_error;
        last_cv = old.last_cv;
        effective_sp = old.effective_sp;
        next_d_term_skip_reason = none;
      })
        × (t.snapshot.i_acc ≡ old.i_acc)
        × (t.snapshot.last_pv ≡ old.last_pv)
        × (t.snapshot.last_error ≡ old.last_error)
        × (t.snapshot.last_cv ≡ old.last_cv)
        × (t.snapshot.effective_sp ≡ old.effective_sp)
  unfolding start_session Controller.new restore_state runtime_state
  start_controller cfg stem old store keep e = ground arith

  -- A session that is started without a reset mirrors its controller.
  pub start-Mirrors :
      (cfg : SessionConfig F) (stem : Option String) (old : StateSnapshot F)
      (store : Option FilePath) {t : ControllerSession F}
      → cfg.reset_accumulator ≡ false
      → start_session files format cfg stem old store ≡ session t
      → Mirrors t
  start-Mirrors cfg stem old store keep e =
      let (c, i_acc, last_pv, last_error, _, sp) = start_controller cfg stem old store keep e in
      record {
        i_acc = i_acc ∙ sym (ap (λ k. k.i_acc) c);
        last_pv = last_pv ∙ sym (ap (λ k. k.last_pv) c);
        last_error = last_error ∙ sym (ap (λ k. k.last_error) c);
        effective_sp = λ rate on. sp ∙ sym (ap (λ k. k.effective_sp) c);
      }

  same_setpoint :
      (s : ControllerSession F) (dt : F)
      → Mirrors s
      → let old = s.snapshot in
        next_effective_sp (restored s.controller old.last_error old.last_cv old.effective_sp) dt
        ≡ next_effective_sp s.controller dt
  unfolding next_effective_sp
  same_setpoint s dt m = elim (Option-cases s.controller.config.setpoint_ramp) [
    | inl off ↦ ground arith
    | inr (rate, on) ↦ ground (arith, m.effective_sp rate on)
  ]

  -- A restart is not noticed by the control law. Take a session whose snapshot mirrors its
  -- controller and that has no skip mark pending; start another one from that snapshot, with the
  -- same PID configuration and no reset. Whenever the next step of the first returns, the next step
  -- of the second, for the same inputs, returns the same controller and the same result.
  pub restart_continues :
      (s : ControllerSession F) (cfg : SessionConfig F) (stem : Option String)
      (store : Option FilePath) {t : ControllerSession F} (pv dt ff : F)
      {out : PidController F × StepResult F}
      → Mirrors s
      → s.controller.next_d_term_skip_reason ≡ none
      → cfg.pid ≡ s.controller.config
      → cfg.reset_accumulator ≡ false
      → start_session files format cfg stem s.snapshot store ≡ session t
      → Controller.step s.controller (session_input s pv dt ff) ≡ some out
      → Controller.step t.controller (session_input t pv dt ff) ≡ some out
  restart_continues s cfg stem store {t} pv dt ff m clear pid keep e stepped =
      let (c, _, _, _, last_cv, _) = start_controller cfg stem s.snapshot store keep e in
      let old = s.snapshot in
      let same : t.controller ≡ restored s.controller old.last_error old.last_cv old.effective_sp =
        c ∙ (λ j. record {
          config = pid j;
          i_acc = m.i_acc j;
          last_pv = m.last_pv j;
          last_error = old.last_error;
          last_cv = old.last_cv;
          effective_sp = old.effective_sp;
          next_d_term_skip_reason = sym clear j;
        }) in
      rw (same, last_cv) (step-restored s.controller _ _ _ _ (same_setpoint s dt m) stepped)

  -- With `--reset-accumulator`, the controller starts with an integral of zero, but the snapshot
  -- keeps the old one until a tick: if the first tick is skipped for its dt, that old integral is
  -- what is persisted.
  pub reset_accumulator_stale :
      (cfg : SessionConfig F) (stem : Option String) (old : StateSnapshot F)
      (store : Option FilePath) (r : Readings) (w : World D) {t : ControllerSession F}
      → cfg.reset_accumulator ≡ true
      → start_session files format cfg stem old store ≡ session t
      → (t.controller.i_acc ≡ nought)
        × (t.snapshot.i_acc ≡ old.i_acc)
        × ((on_dt_skipped files format t r w).1.snapshot.i_acc ≡ old.i_acc)
  unfolding start_session Controller.new restore_state runtime_state Controller.reset_integral
      on_dt_skipped persist_snapshot
  reset_accumulator_stale cfg stem old store r w reset e = ground arith
