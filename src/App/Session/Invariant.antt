-- ===== src/App/Session/Invariant.antt =====
-- The snapshot that a session persists mirrors the controller that it runs.
use pid_ctl.Prelude.{
  subst, ℕ, ◌≡◌, refl, sym, Option, none, some, List, [], ◌∷◌, ◌>>=◌, inl, inr, Option-cases,
}
use mathlib.Core.Option.{some-injective}
use pid_ctl.Float.{Float, nought}
use pid_ctl.Core.Controller.{PidController, StepInput, StepResult}
use pid_ctl.Core.Controller
use pid_ctl.Core.Inversion.{Kept, step-Kept, >>=-eq-some}
use pid_ctl.App.StateStore.{Files, Json, World}
use pid_ctl.App.Records.{CvSink, Readings, ControllerSession, TickOutcome, TickResult}
use pid_ctl.App.Session.{
  build_snapshot, set_gains, set_setpoint, reset_integral, set_flush_interval, persist_snapshot,
  flush_session, on_dt_skipped, record_confirmed_cv, apply_step, process_pv, hold_tick_write,
  session_input,
}

-- An operation on a session, with what it reads.
pub data Op (F : Type 0) : Type 0 where
  gains : F → F → F → Op F
  setpoints : F → Op F
  resets : Op F
  intervals : Option ℕ → Op F
  skips : Readings → Op F
  confirms : F → Readings → Op F
  flushes : Readings → Op F
  ticks : F → F → F → Readings → Op F
  holds : F → F → Readings → Op F

module _ {F : Type 0} ⦃float : Float F⦄ where
  -- The integral, the last measurement and the last error are the controller's; so is the effective
  -- setpoint, when a setpoint ramp is configured.
  pub record Mirrors (s : ControllerSession F) : Type 0 where
    pub i_acc : s.snapshot.i_acc ≡ s.controller.i_acc
    pub last_pv : s.snapshot.last_pv ≡ s.controller.last_pv
    pub last_error : s.snapshot.last_error ≡ s.controller.last_error
    pub effective_sp :
        (rate : F)
        → s.controller.config.setpoint_ramp ≡ some rate
        → s.snapshot.effective_sp ≡ s.controller.effective_sp

  pub edit-Mirrors :
      (s : ControllerSession F) (kp ki kd sp : F) (d : Option ℕ)
      → Mirrors s
      → Mirrors (set_gains s kp ki kd)
        × Mirrors (set_setpoint s sp)
        × Mirrors (reset_integral s)
        × Mirrors (set_flush_interval s d)
  unfolding set_gains set_setpoint reset_integral set_flush_interval
  edit-Mirrors s kp ki kd sp d m = (
    record {
      i_acc = m.i_acc;
      last_pv = m.last_pv;
      last_error = m.last_error;
      effective_sp = m.effective_sp;
    },
    record {
      i_acc = m.i_acc;
      last_pv = m.last_pv;
      last_error = m.last_error;
      effective_sp = m.effective_sp;
    },
    record {
      i_acc = refl;
      last_pv = m.last_pv;
      last_error = m.last_error;
      effective_sp = m.effective_sp;
    },
    record {
      i_acc = m.i_acc;
      last_pv = m.last_pv;
      last_error = m.last_error;
      effective_sp = m.effective_sp;
    },
  )

  module _ {D : Type 0} (files : Files D) (format : Json F) where
    persist-Mirrors :
        (s : ControllerSession F) (r : Readings) (w : World D)
        → Mirrors s
        → Mirrors (persist_snapshot files format s r w).1
    unfolding persist_snapshot
    persist-Mirrors s r w m = record {
      i_acc = m.i_acc;
      last_pv = m.last_pv;
      last_error = m.last_error;
      effective_sp = m.effective_sp;
    }

    pub write-Mirrors :
        (s : ControllerSession F) (cv : F) (r : Readings) (w : World D)
        → Mirrors s
        → Mirrors (on_dt_skipped files format s r w).1
          × Mirrors (record_confirmed_cv files format s cv r w).1
          × Mirrors (flush_session files format s r w).1
    unfolding on_dt_skipped record_confirmed_cv flush_session
    write-Mirrors s cv r w m = (
      persist-Mirrors _ r w (record {
        i_acc = m.i_acc;
        last_pv = m.last_pv;
        last_error = m.last_error;
        effective_sp = m.effective_sp;
      }),
      persist-Mirrors _ r w (record {
        i_acc = m.i_acc;
        last_pv = m.last_pv;
        last_error = m.last_error;
        effective_sp = m.effective_sp;
      }),
      record {
        i_acc = m.i_acc;
        last_pv = m.last_pv;
        last_error = m.last_error;
        effective_sp = m.effective_sp;
      },
    )

  module _ {D S : Type 0} (files : Files D) (format : Json F) (sink : CvSink F S) where
    -- The session, the sink's state and the world.
    abbrev pub Running : Type 0
    Running = ControllerSession F × S × World D

    -- One operation, what it returns aside; `none` is a panic.
    unfoldable pub perform : Running → Op F → Option Running
    perform (s, a, w) (gains kp ki kd) = some (set_gains s kp ki kd, a, w)
    perform (s, a, w) (setpoints sp) = some (set_setpoint s sp, a, w)
    perform (s, a, w) resets = some (reset_integral s, a, w)
    perform (s, a, w) (intervals d) = some (set_flush_interval s d, a, w)
    perform (s, a, w) (skips r) = let q = on_dt_skipped files format s r w in some (q.1, a, q.2)
    perform (s, a, w) (confirms cv r) =
        let q = record_confirmed_cv files format s cv r w in some (q.1, a, q.2)
    perform (s, a, w) (flushes r) = let q = flush_session files format s r w in some (q.1, a, q.2)
    perform (s, a, w) (ticks pv dt ff r) =
        process_pv files format sink s pv dt ff r a w >>= λ q. some (q.1, q.2, q.3)
    perform (s, a, w) (holds pv cv r) =
        let q = hold_tick_write files format sink s pv cv r a w in some (q.1, q.2, q.3)

    unfoldable pub perform_all : Running → List (Op F) → Option Running
    perform_all x [] = some x
    perform_all x (o ∷ os) = perform x o >>= λ y. perform_all y os

    into : (x : Running) {y : Running} → some x ≡ some y → Mirrors x.0 → Mirrors y.0
    into x e m = subst (λ z. Mirrors z.0) (some-injective _ _ e) m

    build-Mirrors :
        (s : ControllerSession F) (i : StepInput F) (out : PidController F × StepResult F) (cv : F)
        (r : Readings)
        → Kept i out
        → Mirrors
            (record s { controller = out.0; snapshot = build_snapshot out.0 s.snapshot out.1 cv r })
    unfolding build_snapshot
    build-Mirrors s i out cv r k = record {
      i_acc = sym k.i_acc;
      last_pv = refl;
      last_error = refl;
      effective_sp = λ rate on. rw on (sym k.effective_sp);
    }

    apply_step-Mirrors :
        (s : ControllerSession F) (i : StepInput F) (out : PidController F × StepResult F)
        (pv dt prev : F) (r : Readings) (a : S) (w : World D)
        → Kept i out
        → Mirrors (apply_step files format sink s out.0 out.1 pv dt prev r a w).1
    unfolding apply_step
    apply_step-Mirrors s i out pv dt prev r a w k =
        elim (Option-cases (sink.write_cv out.1.cv a).0) [
          | inl fine ↦
              rw (fine, apply_step)
                (persist-Mirrors files format _ r w (build-Mirrors s i out out.1.cv r k))
          | inr (e, refused) ↦
              rw (refused, apply_step)
                (persist-Mirrors files format _ r w (build-Mirrors s i out prev r k))
        ]

    hold-Mirrors :
        (s : ControllerSession F) (pv cv : F) (r : Readings) (a : S) (w : World D)
        → Mirrors s
        → Mirrors (hold_tick_write files format sink s pv cv r a w).1
    unfolding hold_tick_write
    hold-Mirrors s pv cv r a w m = elim (Option-cases (sink.write_cv cv a).0) [
      | inl fine ↦
          rw (fine, hold_tick_write)
            (persist-Mirrors files format _ r w (record {
              i_acc = m.i_acc;
              last_pv = m.last_pv;
              last_error = m.last_error;
              effective_sp = m.effective_sp;
            }))
      | inr (e, refused) ↦ rw (refused, hold_tick_write) m
    ]

    pub tick-Mirrors :
        (s : ControllerSession F) (pv dt ff : F) (r : Readings) (a : S) (w : World D)
        {q : TickResult (TickOutcome F) × ControllerSession F × S × World D}
        → process_pv files format sink s pv dt ff r a w ≡ some q
        → Mirrors q.1
    unfolding process_pv
    tick-Mirrors s pv dt ff r a w e =
        let i = session_input s pv dt ff in
        let (out, stepped, left) = >>=-eq-some (Controller.step s.controller i) _ e in
        subst (λ q. Mirrors q.1) (some-injective _ _ left)
          (apply_step-Mirrors s i out pv dt _ r a w (step-Kept s.controller i stepped))

    perform-Mirrors :
        (s : ControllerSession F) (a : S) (w : World D) (o : Op F) {y : Running}
        → Mirrors s
        → perform (s, a, w) o ≡ some y
        → Mirrors y.0
    unfolding perform
    perform-Mirrors s a w (gains kp ki kd) m e = into _ e (edit-Mirrors s kp ki kd nought none m).0
    perform-Mirrors s a w (setpoints sp) m e =
        into _ e (edit-Mirrors s nought nought nought sp none m).1
    perform-Mirrors s a w resets m e =
        into _ e (edit-Mirrors s nought nought nought nought none m).2
    perform-Mirrors s a w (intervals d) m e =
        into _ e (edit-Mirrors s nought nought nought nought d m).3
    perform-Mirrors s a w (skips r) m e = into _ e (write-Mirrors files format s nought r w m).0
    perform-Mirrors s a w (confirms cv r) m e = into _ e (write-Mirrors files format s cv r w m).1
    perform-Mirrors s a w (flushes r) m e = into _ e (write-Mirrors files format s nought r w m).2
    perform-Mirrors s a w (ticks pv dt ff r) m e =
        let (q, ran, left) = >>=-eq-some (process_pv files format sink s pv dt ff r a w) _ e in
        into _ left (tick-Mirrors s pv dt ff r a w ran)
    perform-Mirrors s a w (holds pv cv r) m e = into _ e (hold-Mirrors s pv cv r a w m)

    -- Whatever is done to a session, in whatever order and with whatever results of the sink and the
    -- disk: if its snapshot mirrored the controller (the integral, the last measurement and error,
    -- and the effective setpoint when a ramp is configured), it still does, unless a step panicked.
    pub perform_all-Mirrors :
        (s : ControllerSession F) (a : S) (w : World D) (os : List (Op F)) {y : Running}
        → Mirrors s
        → perform_all (s, a, w) os ≡ some y
        → Mirrors y.0
    unfolding perform_all
    perform_all-Mirrors s a w [] m e = into _ e m
    perform_all-Mirrors s a w (o ∷ os) m e =
        let (y, first, rest) = >>=-eq-some (perform (s, a, w) o) _ e in
        perform_all-Mirrors y.0 y.1 y.2 os (perform-Mirrors s a w o m first) rest
