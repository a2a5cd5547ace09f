-- ===== src/App/Session.antt =====
-- `ControllerSession` (crates/pid-ctl/src/app/mod.rs). A method returns the session, the CV sink and
-- the world after it; `none` is a panic of `PidController::step`. The clock is read through
-- `Readings`: what one call reads of the wall clock and of the monotonic clock.
pub mod Invariant
pub mod Ticks
pub mod Restart
use Prim.Native.String.{String}
use pid_ctl.Prelude.{
  ℕ, ◌+◌, ◌-◌, ◌^◌, Bool, Option, none, some, unwrap_or, or_some, when_some, if◌then◌else◌, min,
  ◌>>=◌,
}
use pid_ctl.Float.{Float, nought}
use pid_ctl.Core.Config.{PidConfig, ConfigError, DTermSkipReason}
use pid_ctl.Core.Controller.{PidController, StepInput, StepResult, NewResult, made, rejected}
use pid_ctl.Core.Controller
use pid_ctl.App.Snapshot.{
  StateSnapshot, StateStoreError, IoError, default_snapshot, runtime_state, state_schema_version,
}
use pid_ctl.App.StateStore.{
  FilePath, Files, Json, World, LoadResult, loaded, load_failed, acquire_lock, load,
}
use pid_ctl.App.Persister.{SnapshotPersister, new_persister, persist, force_flush}
use pid_ctl.App.Persister
use pid_ctl.App.Records.{
  u64_max, CvSink, Readings, SessionConfig, ControllerSession, IterationRecord, TickOutcome,
  HoldTickOutcome, TickResult, ticked, cv_write, InitError, config, state, InitResult, session,
  init_failed, resolve_controller_name,
}

module _ {F : Type 0} ⦃float : Float F⦄ where
  open float use {is_finite}

  abbrev pub finite_value : F → Option F
  finite_value v = if is_finite v then some v else none

  -- `build_snapshot`, with the controller after its step.
  unfoldable pub build_snapshot :
      PidController F → StateSnapshot F → StepResult F → F → Readings → StateSnapshot F
  build_snapshot c old step confirmed r = record {
    schema_version = state_schema_version;
    name = old.name;
    kp = some c.config.kp;
    ki = some c.config.ki;
    kd = some c.config.kd;
    setpoint = some c.config.setpoint;
    out_min = finite_value c.config.out_min;
    out_max = finite_value c.config.out_max;
    effective_sp = when_some c.config.setpoint_ramp step.effective_sp;
    target_sp = when_some c.config.setpoint_ramp c.config.setpoint;
    i_acc = step.i_acc;
    last_error = c.last_error;
    last_cv = some confirmed;
    last_pv = c.last_pv;
    iter = min (old.iter + 1) u64_max;
    created_at = or_some old.created_at (some r.created_at);
    updated_at = some r.updated_at;
  }

  -- `sync_pid_fields_from_controller`.
  unfoldable pub sync_pid_fields : ControllerSession F → ControllerSession F
  sync_pid_fields s = record s {
    snapshot = record s.snapshot {
      kp = some s.controller.config.kp;
      ki = some s.controller.config.ki;
      kd = some s.controller.config.kd;
      setpoint = some s.controller.config.setpoint;
      out_min = finite_value s.controller.config.out_min;
      out_max = finite_value s.controller.config.out_max;
    };
  }

  unfoldable pub set_gains : ControllerSession F → F → F → F → ControllerSession F
  unfolding sync_pid_fields Controller.set_gains
  set_gains s kp ki kd =
      sync_pid_fields (record s { controller = Controller.set_gains s.controller kp ki kd })

  unfoldable pub set_setpoint : ControllerSession F → F → ControllerSession F
  unfolding sync_pid_fields Controller.set_setpoint
  set_setpoint s sp =
      sync_pid_fields (record s { controller = Controller.set_setpoint s.controller sp })

  unfoldable pub reset_integral : ControllerSession F → ControllerSession F
  unfolding Controller.reset_integral
  reset_integral s = record s {
    controller = Controller.reset_integral s.controller;
    snapshot = record s.snapshot { i_acc = nought };
  }

  unfoldable pub set_flush_interval : ControllerSession F → Option ℕ → ControllerSession F
  unfolding Persister.set_flush_interval
  set_flush_interval s d = record s { persister = Persister.set_flush_interval s.persister d }

  -- `IterationRecord::new`.
  unfoldable pub new_record :
      StateSnapshot F → F → F → PidController F → StepResult F → F → String → IterationRecord F
  new_record snapshot pv dt c step error ts = record {
    schema_version = state_schema_version;
    ts = ts;
    name = snapshot.name;
    iter = snapshot.iter;
    pv = pv;
    sp = c.config.setpoint;
    effective_sp = when_some c.config.setpoint_ramp step.effective_sp;
    err = error;
    p = step.p_term;
    i = step.i_term;
    d = step.d_term;
    ff = step.ff_term;
    cv = step.cv;
    i_acc = step.i_acc;
    dt = dt;
  }

  abbrev pub session_input : ControllerSession F → F → F → F → StepInput F
  session_input s pv dt ff = record {
    pv = pv;
    dt = dt;
    prev_applied_cv = unwrap_or s.snapshot.last_cv nought;
    ff = ff;
  }

  module _ {D : Type 0} (files : Files D) (format : Json F) where
    -- `persist_snapshot`: the error, the session and the world.
    unfoldable pub persist_snapshot :
        ControllerSession F
        → Readings
        → World D
        → Option StateStoreError × ControllerSession F × World D
    persist_snapshot s r w =
        let q = persist files format s.persister s.snapshot r.before_write r.after_write w in
        (q.0, record s { persister = q.1 }, q.2)

    -- `ControllerSession::force_flush`.
    unfoldable pub flush_session :
        ControllerSession F
        → Readings
        → World D
        → Option StateStoreError × ControllerSession F × World D
    flush_session s r w =
        let q = force_flush files format s.persister s.snapshot r.after_write w in
        (q.0, record s { persister = q.1 }, q.2)

    unfoldable pub on_dt_skipped :
        ControllerSession F
        → Readings
        → World D
        → Option StateStoreError × ControllerSession F × World D
    unfolding Controller.mark_dt_skipped
    on_dt_skipped s r w =
        persist_snapshot
          (record s {
            controller = Controller.mark_dt_skipped s.controller;
            snapshot = record s.snapshot { updated_at = some r.updated_at };
          })
          r w

    unfoldable pub record_confirmed_cv :
        ControllerSession F
        → F
        → Readings
        → World D
        → Option StateStoreError × ControllerSession F × World D
    record_confirmed_cv s cv r w =
        persist_snapshot
          (record s {
            snapshot = record s.snapshot { last_cv = some cv; updated_at = some r.updated_at };
          })
          r w

    -- The session of `ControllerSession::new` once the state is loaded.
    unfoldable pub start_session :
        SessionConfig F → Option String → StateSnapshot F → Option FilePath → InitResult F
    start_session cfg stem snapshot store = elim (Controller.new cfg.pid) [
      | rejected e ↦ init_failed (config e)
      | made c ↦
          let restored = Controller.restore_state c (runtime_state snapshot) in
          session (record {
            controller =
                if cfg.reset_accumulator then Controller.reset_integral restored else restored;
            snapshot = record snapshot {
              name = some (resolve_controller_name cfg.name stem snapshot.name);
            };
            persister = new_persister store store cfg.flush_interval cfg.state_fail_after;
          })
    ]

    -- `ControllerSession::new`: the lock comes before the state is read.
    unfoldable pub new : SessionConfig F → Option String → D → InitResult F × D
    new cfg stem d = elim cfg.state_store [
      | none ↦ (start_session cfg none default_snapshot none, d)
      | some path ↦
          let locked = acquire_lock files path d in
          elim locked.0 [
            | some e ↦ (init_failed (state e), locked.1)
            | none ↦ elim (load files format path locked.1) [
              | load_failed e ↦ (init_failed (state e), locked.1)
              | loaded found ↦
                  (start_session cfg stem (unwrap_or found default_snapshot) (some path), locked.1)
            ]
          ]
    ]

    module _ {S : Type 0} (sink : CvSink F S) where
      open sink use {write_cv}

      -- The part of `process_pv` after the step.
      unfoldable pub apply_step :
          ControllerSession F
          → PidController F
          → StepResult F
          → (pv dt prev : F) → Readings
          → S
          → World D
          → TickResult (TickOutcome F) × ControllerSession F × S × World D
      apply_step s c step pv dt prev r a w =
          let written = write_cv step.cv a in
          elim written.0 [
            | some e ↦
                let held = record s {
                  controller = c;
                  snapshot = build_snapshot c s.snapshot step prev r;
                } in
                let q = persist_snapshot held r w in (cv_write e, q.1, written.1, q.2)
            | none ↦
                let applied = record s {
                  controller = c;
                  snapshot = build_snapshot c s.snapshot step step.cv r;
                } in
                let q = persist_snapshot applied r w in
                (
                  ticked (record {
                    record_of =
                        new_record applied.snapshot pv dt c step (unwrap_or c.last_error nought)
                          r.record_ts;
                    d_term_skipped = step.d_term_skipped;
                    state_write_failed = q.0;
                  }),
                  q.1,
                  written.1,
                  q.2,
                )
          ]

      unfoldable pub process_pv :
          ControllerSession F
          → (pv dt ff : F) → Readings
          → S
          → World D
          → Option (TickResult (TickOutcome F) × ControllerSession F × S × World D)
      process_pv s pv dt ff r a w =
          Controller.step s.controller (session_input s pv dt ff) >>= λ out.
          some (apply_step s out.0 out.1 pv dt (unwrap_or s.snapshot.last_cv nought) r a w)

      unfoldable pub hold_tick_write :
          ControllerSession F
          → (pv held_cv : F) → Readings
          → S
          → World D
          → TickResult (HoldTickOutcome F) × ControllerSession F × S × World D
      hold_tick_write s pv held_cv r a w =
          let written = write_cv held_cv a in
          elim written.0 [
            | some e ↦ (cv_write e, s, written.1, w)
            | none ↦
                let q =
                  persist_snapshot
                    (record s { snapshot = record s.snapshot { updated_at = some r.updated_at } }) r
                    w in
                (ticked (record { pv = pv; state_write_failed = q.0 }), q.1, written.1, q.2)
          ]
