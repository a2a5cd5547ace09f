-- ===== src/Cmd/Replay/Records.antt =====
-- The record of a tick, as it is read back from the log and written again by a replay.
use text.Mathlib.Text.{◌==◌ as str_eq}
use pid_ctl.Prelude.{
  Option, ◌≡◌, refl, arith, false, none, some, List, [], ◌∷◌, if◌then◌else◌, unwrap_or, String,
  Bool-cases, inl, inr,
}
use pid_ctl.Float.{Float, nought}
use pid_ctl.Core.Controller.{PidController, StepInput, StepResult, step, finish}
use pid_ctl.Core.Inversion.{>>=-eq-some, step-Stepped}
use pid_ctl.App.Snapshot.{StateSnapshot}
use pid_ctl.App.StateStore.{Files, Json, World}
use pid_ctl.App.Records.{CvSink, Readings, ControllerSession, IterationRecord, TickOutcome, ticked}
use pid_ctl.App.Session.{
  process_pv, apply_step, build_snapshot, persist_snapshot, new_record, session_input,
}
use pid_ctl.Cmd.Replay.{
  LogRecord, object, parsed, parse_log_line, parse_object, object_of, replayed_record,
}

module _ {F : Type 0} ⦃float : Float F⦄ where
  -- The record that a line of the log is read as.
  unfoldable pub log_record : IterationRecord F → LogRecord F
  log_record r = record {
    iter = r.iter;
    ts = r.ts;
    name = r.name;
    pv = r.pv;
    sp = r.sp;
    dt = r.dt;
    ff = unwrap_or (if float.eq r.ff nought then none else some r.ff) nought;
    original_cv = r.cv;
  }

  -- The floats of a record that the log gives back as they are printed.
  pub record IsReread (reread : F → Option F) (r : IterationRecord F) : Type 0 where
    pub pv : reread r.pv ≡ some r.pv
    pub dt : reread r.dt ≡ some r.dt
    pub sp : reread r.sp ≡ some r.sp
    pub cv : reread r.cv ≡ some r.cv
    pub ff : reread r.ff ≡ some r.ff

  pub parse-object_of :
      (reread : F → Option F) (r : IterationRecord F)
      → IsReread reread r
      → parse_log_line (object (object_of reread r)) ≡ parsed (log_record r)
  unfolding parse_log_line parse_object object_of log_record
  parse-object_of reread r h = rw (h.pv, h.dt, h.sp, h.cv, h.ff) refl

  pub step-config :
      (c : PidController F) (i : StepInput F) (out : PidController F × StepResult F)
      → step c i ≡ some out
      → out.0.config ≡ c.config
  unfolding finish
  step-config c i out e = let s = step-Stepped c i e in rw s.out_eq refl

  pub step-ff_term :
      (c : PidController F) (i : StepInput F) (out : PidController F × StepResult F)
      → step c i ≡ some out
      → c.config.feedforward_gain ≡ nought
      → float.times nought i.ff ≡ nought
      → out.1.ff_term ≡ nought
  unfolding finish
  step-ff_term c i out e gain zero = let s = step-Stepped c i e in rw (s.out_eq, gain) zero

  module _ {D S : Type 0} (files : Files D) (format : Json F) (sink : CvSink F S) where
    -- The records of ticks in a row that all succeed, with no feed-forward.
    pub data Logged : ControllerSession F → S → World D → List (IterationRecord F) → Type 0 where
      no_tick : {s : ControllerSession F} {a : S} {w : World D} → Logged s a w []
      tick :
          {s : ControllerSession F} {a : S} {w : World D} (pv dt : F) (r : Readings)
          {o : TickOutcome F} {s' : ControllerSession F} {a' : S} {w' : World D}
          {rs : List (IterationRecord F)}
          → process_pv files format sink s pv dt nought r a w ≡ some (ticked o, s', a', w')
          → Logged s' a' w' rs
          → Logged s a w (o.record_of ∷ rs)

    -- A tick that succeeds, in terms of its step.
    pub record Ticked (s : ControllerSession F) (pv dt : F) (o : TickOutcome F)
        (s' : ControllerSession F) (r : Readings) : Type 0 where
      pub out : PidController F × StepResult F
      pub stepped : step s.controller (session_input s pv dt nought) ≡ some out
      pub controller : s'.controller ≡ out.0
      pub last_cv : s'.snapshot.last_cv ≡ some out.1.cv
      pub written :
          o.record_of
          ≡ new_record
              (build_snapshot out.0 s.snapshot out.1 out.1.cv r)
              pv
              dt
              out.0
              out.1
              (unwrap_or out.0.last_error nought)
              r.record_ts

    pub process_pv-Ticked :
        (s : ControllerSession F) (pv dt : F) (r : Readings) (a : S) (w : World D)
        {o : TickOutcome F} {s' : ControllerSession F} {a' : S} {w' : World D}
        → process_pv files format sink s pv dt nought r a w ≡ some (ticked o, s', a', w')
        → Ticked s pv dt o s' r
    unfolding process_pv apply_step persist_snapshot build_snapshot
    process_pv-Ticked s pv dt r a w e =
        let (out, stepped, left) =
          >>=-eq-some (step s.controller (session_input s pv dt nought)) _ e in
        record {
          out = out;
          stepped = stepped;
          controller = ground arith;
          last_cv = ground arith;
          written = ground arith;
        }

  -- A record that is read back, with the step that made it, is written as it was.
  pub replayed_record-log_record :
      (snapshot : StateSnapshot F) (pv dt : F) (c : PidController F) (s : StepResult F)
      (ts now : String)
      → str_eq ts "" ≡ false
      → c.config.setpoint_ramp ≡ none
      → let r = new_record snapshot pv dt c s (unwrap_or c.last_error nought) ts in
        replayed_record
          (log_record r)
          (record c { config = record c.config { setpoint = r.sp } })
          s
          now
        ≡ r
  unfolding replayed_record log_record new_record
  replayed_record-log_record snapshot pv dt c s ts now stamped ramp = rw (stamped, ramp) refl

  pub ff_read_back :
      (f : F) → f ≡ nought → unwrap_or (if float.eq f nought then none else some f) nought ≡ nought
  ff_read_back f e = elim (Bool-cases (float.eq f nought)) [
    | inl zero ↦ rw zero refl
    | inr other ↦ rw other e
  ]
