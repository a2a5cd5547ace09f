-- ===== src/App/Session/Ticks.antt =====
-- What a tick leaves behind: the confirmed output, the iteration count, the record, and what a
-- session that is started again from the snapshot does next.
use pid_ctl.Prelude.{◌+◌, ◌≡◌, arith, none, some, min, unwrap_or}
use pid_ctl.Float.{Float, nought}
use pid_ctl.Core.Controller.{
  PidController, StepInput, StepResult, NewResult, made, rejected, next_effective_sp, restore_state,
}
use pid_ctl.Core.Controller
use pid_ctl.Core.Inversion.{>>=-eq-some}
use pid_ctl.App.Snapshot.{IoError}
use pid_ctl.App.StateStore.{Files, Json, World}
use pid_ctl.App.Records.{
  u64_max, CvSink, Readings, ControllerSession, TickOutcome, ticked, cv_write,
}
use pid_ctl.App.Session.{
  build_snapshot, persist_snapshot, new_record, apply_step, process_pv, session_input,
}

module _ {F : Type 0} ⦃float : Float F⦄ {D S : Type 0} (files : Files D) (format : Json F)
    (sink : CvSink F S) where
  -- A tick that succeeds: the sink took the value that the record reports, the snapshot has it as
  -- the confirmed output, which the next step is given, and the iteration count has gone up by one
  -- (up to the largest u64) and is the record's.
  pub process_pv_applied :
      (s : ControllerSession F) (pv dt ff : F) (r : Readings) (a : S) (w : World D)
      {o : TickOutcome F} {s' : ControllerSession F} {a' : S} {w' : World D}
      → process_pv files format sink s pv dt ff r a w ≡ some (ticked o, s', a', w')
      → (sink.write_cv o.record_of.cv a ≡ (none, a'))
        × (s'.snapshot.last_cv ≡ some o.record_of.cv)
        × ((session_input s' pv dt ff).prev_applied_cv ≡ o.record_of.cv)
        × (s'.snapshot.iter ≡ min (s.snapshot.iter + 1) u64_max)
        × (o.record_of.iter ≡ s'.snapshot.iter)
  unfolding process_pv apply_step persist_snapshot build_snapshot new_record
  process_pv_applied s pv dt ff r a w e = ground arith

  pub process_pv_refused :
      (s : ControllerSession F) (pv dt ff : F) (r : Readings) (a : S) (w : World D) {err : IoError}
      {s' : ControllerSession F} {a' : S} {w' : World D}
      → process_pv files format sink s pv dt ff r a w ≡ some (cv_write err, s', a', w')
      → ((out : PidController F × StepResult F) × (Controller.step s.controller
              (session_input s pv dt ff)
            ≡ some out)
          × (s'.controller ≡ out.0)
          × (sink.write_cv out.1.cv a ≡ (some err, a')))
        × (s'.snapshot.last_cv ≡ some (unwrap_or s.snapshot.last_cv nought))
        × ((session_input s' pv dt ff).prev_applied_cv ≡ (session_input s pv dt ff).prev_applied_cv)
        × (s'.snapshot.iter ≡ min (s.snapshot.iter + 1) u64_max)
  unfolding process_pv apply_step persist_snapshot build_snapshot
  process_pv_refused s pv dt ff r a w e =
      let i = session_input s pv dt ff in
      let (out, stepped, left) = >>=-eq-some (Controller.step s.controller i) _ e in
      ((out, stepped, ground arith, ground arith), ground arith, ground arith, ground arith)
