-- ===== src/Cmd/Replay/OwnLog.antt =====
-- Replaying a log that the session itself has written.
use text.Mathlib.Text.{◌==◌ as str_eq}
use pid_ctl.Prelude.{
  ◌≡◌, refl, sym, ap, ◌∙◌, subst, arith, Bool, false, Option, none, some, List, [], ◌∷◌, ◌++◌,
  unwrap_or, String, map, All,
}
use mathlib.Core.List.{append-nil, append_assoc}
use pid_ctl.Float.{Float, nought}
use pid_ctl.Core.Config.{PidConfig, default_config}
use pid_ctl.Core.Controller.{set_setpoint, step, new, made}
use pid_ctl.App.Snapshot.{StateSnapshot}
use pid_ctl.App.StateStore.{Files, Json, World}
use pid_ctl.App.Records.{CvSink, Readings, ControllerSession, IterationRecord, TickOutcome}
use pid_ctl.App.Session.{build_snapshot, new_record, session_input}
use pid_ctl.Cmd.Replay.Records.{
  log_record, IsReread, parse-object_of, step-config, Logged, no_tick, tick, Ticked,
  process_pv-Ticked, replayed_record-log_record, ff_read_back, step-ff_term,
}
use pid_ctl.App.Snapshot.{default_snapshot, StateSnapshot}
use pid_ctl.App.StateStore.{FilePath}
use pid_ctl.App.Records.{SessionConfig, session}
use pid_ctl.App.Session.{start_session}
use pid_ctl.App.Session.Restart.{start_controller}
use pid_ctl.Core.Config.{validate}
use pid_ctl.Cmd.Replay.{
  ReplayArgs, LogRecord, LogLine, object, parsed, parse_log_line, object_of, Replay, replayed,
  replay_config, replayed_record, note_step, replay_record, replay_lines, run_replay, no_diff,
}

module _ {F : Type 0} ⦃float : Float F⦄ where
  -- The lines of a log, each read at the time `now`.
  abbrev pub lines_of :
      (F → Option F) → String → List (IterationRecord F) → List (LogLine F × String)
  lines_of reread now rs = map (λ r. (object (object_of reread r), now)) rs

  abbrev pub Stamped : IterationRecord F → Type 0
  Stamped r = str_eq r.ts "" ≡ false

  -- The replay is where the session is, but for the setpoint.
  record Abreast (x : Replay F) (s : ControllerSession F) : Type 0 where
    controller : set_setpoint x.controller s.controller.config.setpoint ≡ s.controller
    prev : x.prev_applied_cv ≡ unwrap_or s.snapshot.last_cv nought
    ramp : s.controller.config.setpoint_ramp ≡ none
    gain : s.controller.config.feedforward_gain ≡ nought

  module _ (reread : F → Option F) {D S : Type 0} (files : Files D) (format : Json F)
      (sink : CvSink F S) (zero : float.times nought nought ≡ nought) where
    replay_tick :
        (x : Replay F) (s : ControllerSession F) (pv dt : F) (r : Readings) (now : String)
        {o : TickOutcome F} {s' : ControllerSession F}
        → Abreast x s
        → Ticked files format sink s pv dt o s' r
        → Stamped o.record_of
        → (y : Replay F) × (replay_record false (log_record o.record_of) now x ≡ some y)
          × (y.output ≡ x.output ++ (o.record_of ∷ []))
          × Abreast y s'
    unfolding replay_record note_step log_record new_record set_setpoint
    replay_tick x s pv dt r now {o} {s'} b t stamped =
        let i = session_input s pv dt nought in
        let kept = step-config s.controller i t.out t.stepped in
        let sp = ap (λ k. k.sp) t.written ∙ ap (λ k. k.setpoint) kept in
        let pv_eq = ap (λ k. k.pv) t.written in
        let dt_eq = ap (λ k. k.dt) t.written in
        let term = step-ff_term s.controller i t.out t.stepped b.gain zero in
        let ff = ff_read_back o.record_of.ff (ap (λ k. k.ff) t.written ∙ term) in
        let again : step (set_setpoint x.controller o.record_of.sp) (record {
          pv = o.record_of.pv;
          dt = o.record_of.dt;
          prev_applied_cv = x.prev_applied_cv;
          ff = (log_record o.record_of).ff;
        })
            ≡ some t.out =
          rw (sp, b.controller, pv_eq, dt_eq, b.prev, ff) t.stepped in
        let ramp = ap (λ k. k.setpoint_ramp) kept ∙ b.ramp in
        let same =
          subst (λ k. replayed_record (log_record k) t.out.0 t.out.1 now ≡ k) (sym t.written)
            (replayed_record-log_record (build_snapshot t.out.0 s.snapshot t.out.1 t.out.1.cv r) pv
              dt t.out.0 t.out.1 r.record_ts now (subst Stamped t.written stamped) ramp) in
        (
          note_step false (log_record o.record_of) now t.out x,
          rw again refl,
          ap (λ k. x.output ++ (k ∷ [])) same,
          record {
            controller = rw t.controller refl;
            prev = rw t.last_cv refl;
            ramp = ap (λ k. k.config.setpoint_ramp) t.controller ∙ ramp;
            gain =
                ap (λ k. k.config.feedforward_gain) t.controller
                ∙ (ap (λ k. k.feedforward_gain) kept ∙ b.gain);
          },
        )

    replay_lines-cons :
        (diff : Bool) (l : LogLine F) (now : String) (ls : List (LogLine F × String))
        (x y : Replay F) (r : LogRecord F)
        → parse_log_line l ≡ parsed r
        → replay_record diff r now x ≡ some y
        → replay_lines diff ((l, now) ∷ ls) x ≡ replay_lines diff ls y
    unfolding replay_lines
    replay_lines-cons diff l now ls x y r p q = rw (p, q, replay_lines) refl

    replay_from :
        (x : Replay F) (now : String) {s : ControllerSession F} {a : S} {w : World D}
        {rs : List (IterationRecord F)}
        → Abreast x s
        → Logged files format sink s a w rs
        → All Stamped rs
        → All (IsReread reread) rs
        → (y : Replay F) × (replay_lines false (lines_of reread now rs) x ≡ some (replayed y))
          × (y.output ≡ x.output ++ rs)
    unfolding replay_lines
    replay_from x now {rs = []} b no_tick stamps rereads = (x, refl, sym (append-nil x.output))
    replay_from x now {s = s} {a = a} {w = w} b (tick pv dt r {o = o} {rs = rs} e more)
          (stamp, stamps) (good, rereads) =
        let (y, done, out, b') =
          replay_tick x s pv dt r now b (process_pv-Ticked files format sink s pv dt r a w e)
            stamp in
        let (z, rest, all) = replay_from y now b' more stamps rereads in
        (
          z,
          replay_lines-cons false (object (object_of reread o.record_of)) now
                (lines_of reread now rs) x y (log_record o.record_of)
                (parse-object_of reread o.record_of good) done
              ∙ rest,
          all ∙ (ap (λ k. k ++ rs) out ∙ append_assoc x.output (o.record_of ∷ []) rs),
        )

    validate-setpoint :
        (c : PidConfig F) (sp : F)
        → validate (record c { setpoint = sp }) ≡ none
        → validate c ≡ none
    unfolding validate
    validate-setpoint c sp e = e

    started-valid :
        (cfg : SessionConfig F) (stem : Option String) (old : StateSnapshot F)
        (store : Option FilePath) {s : ControllerSession F}
        → start_session files format cfg stem old store ≡ session s
        → validate cfg.pid ≡ none
    unfolding start_session new
    started-valid cfg stem old store e = ground arith

    abbrev replay_start : ReplayArgs F → Replay F
    replay_start args = record {
      controller = record {
        config = replay_config args;
        i_acc = nought;
        last_pv = none;
        last_error = none;
        last_cv = none;
        effective_sp = none;
        next_d_term_skip_reason = none;
      };
      prev_applied_cv = nought;
      diff_acc = no_diff;
      output = [];
    }

    new-made :
        (args : ReplayArgs F)
        → validate (replay_config args) ≡ none
        → new (replay_config args) ≡ made (replay_start args).controller
    unfolding new
    new-made args valid = rw (valid, new) refl

    run_replay-replay_lines :
        (args : ReplayArgs F) (ls : List (LogLine F × String))
        → validate (replay_config args) ≡ none
        → args.diff ≡ false
        → run_replay args ls ≡ replay_lines false ls (replay_start args)
    unfolding run_replay
    run_replay-replay_lines args ls valid off =
        rw (new-made args valid, run_replay) (ap (λ d. replay_lines d ls (replay_start args)) off)

    start-Abreast :
        (args : ReplayArgs F) (sp : F) (cfg : SessionConfig F) (stem : Option String)
        (store : Option FilePath) {s : ControllerSession F}
        → cfg.pid ≡ record (replay_config args) { setpoint = sp }
        → cfg.reset_accumulator ≡ false
        → start_session files format cfg stem default_snapshot store ≡ session s
        → Abreast (replay_start args) s
    unfolding default_snapshot set_setpoint replay_config default_config
    start-Abreast args sp cfg stem store same keep started =
        let t = start_controller files format cfg stem default_snapshot store keep started in
        record {
          controller = rw (t.0, same) refl;
          prev = rw t.4 refl;
          ramp = rw (t.0, same) refl;
          gain = rw (t.0, same) refl;
        }

    pub replay_own_log :
        (args : ReplayArgs F) (sp : F) (cfg : SessionConfig F) (stem : Option String)
        (store : Option FilePath) (now : String) {s : ControllerSession F} {a : S} {w : World D}
        {rs : List (IterationRecord F)}
        → args.diff ≡ false
        → cfg.pid ≡ record (replay_config args) { setpoint = sp }
        → cfg.reset_accumulator ≡ false
        → start_session files format cfg stem default_snapshot store ≡ session s
        → Logged files format sink s a w rs
        → All Stamped rs
        → All (IsReread reread) rs
        → (y : Replay F) × (run_replay args (lines_of reread now rs) ≡ some (replayed y))
          × (y.output ≡ rs)
    replay_own_log args sp cfg stem store now {s} {rs = rs} off same keep started log stamps
          rereads =
        let b = start-Abreast args sp cfg stem store same keep started in
        let valid =
          subst (λ c. validate c ≡ none) same
            (started-valid cfg stem default_snapshot store started) in
        let (y, ran, all) = replay_from (replay_start args) now b log stamps rereads in
        (
          y,
          run_replay-replay_lines args (lines_of reread now rs)
                (validate-setpoint (replay_config args) sp valid) off
              ∙ ran,
          all,
        )
