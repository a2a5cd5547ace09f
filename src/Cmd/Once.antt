-- ===== src/Cmd/Once.antt =====
-- The `once` subcommand (crates/pid-ctl/src/cmd/cmd_once.rs). Messages on stderr are left out.
pub mod Saved
use pid_ctl.Prelude.{
  ℕ, String, Bool, true, false, Option, none, some, List, if◌then◌else◌, is_some, ◌>>=◌,
}
use pid_ctl.Float.{Float, nought, ge, gt}
use pid_ctl.App.Snapshot.{StateStoreError}
use pid_ctl.App.StateStore.{FilePath, Files, Json, World, IoResult, ok, err}
use pid_ctl.App.Records.{
  Readings, ControllerSession, IterationRecord, TickOutcome, TickResult, ticked, cv_write, CvSink,
  session, init_failed,
}
use pid_ctl.App.Session.{new, process_pv}
use pid_ctl.App.Events.{
  Logger, open_log, write_event, write_iteration_line, dt_clamped, d_term_skipped, cv_write_failed,
  state_write_failed, Line,
}
use pid_ctl.Adapters.Writers.{FloatText, Outside}
use pid_ctl.Adapters.Build.{resolve_pv, resolve_once_ff, build_cv_mode_sink}
use pid_ctl.Cli.Args.{OnceArgs, once_session}
use pid_ctl.Cli.Commands.{is_json}

-- How a command ends: with `Ok`, or with the exit code of its error.
pub data Exit : Type 0 where
  success : Exit
  code : ℕ → Exit

-- What the command reads beside sources and state: the file stem of the state file, the log file
-- (`none` if it cannot be opened), the seconds since the state was updated, if they are known,
-- the exit code of a failure to print the record, and the clocks.
pub record OnceInputs (F : Type 0) : Type 0 where
  pub stem : Option String
  pub log : Option (Option (List (Line F)))
  pub since_update : Option F
  pub print_fails : Option ℕ
  pub clocks : Readings

-- What is left after the command. The session is there if it could be started.
pub record OnceWorld (F S D : Type 0) : Type 0 where
  pub outside : S
  pub world : World D
  pub session : Option (ControllerSession F)
  pub logger : Option (Logger F)
  pub printed : Option (IterationRecord F)

module _ {F : Type 0} ⦃float : Float F⦄ where
  -- `f64::max` of a number, or NaN, and zero.
  abbrev pub max_nought : F → F
  max_nought x = if ge x nought then x else nought

  -- `clamp_once_wall_clock_dt`: the dt and the log.
  unfoldable pub clamp_once_wall_clock_dt : F → F → F → Logger F → F × Logger F
  clamp_once_wall_clock_dt raw min_dt max_dt l =
      let r = max_nought raw in
      if float.lt r min_dt
      then (min_dt, write_event l (dt_clamped r min_dt))
      else if gt r max_dt
      then (max_dt, write_event l (dt_clamped r max_dt))
      else (r, l)

  unfoldable pub resolve_once_dt : OnceArgs F → Option F → Logger F → F × Logger F
  resolve_once_dt a since l = if a.dt_explicit then (a.dt, l) else elim a.state_path [
    | none ↦ (a.dt, l)
    | some path ↦ elim since [
      | none ↦ (a.dt, l)
      | some raw ↦ clamp_once_wall_clock_dt raw a.min_dt a.max_dt l
    ]
  ]

  abbrev pub note_skip : TickOutcome F → Logger F → Logger F
  note_skip o l = elim o.d_term_skipped [
    | none ↦ l
    | some reason ↦ write_event l (d_term_skipped reason o.record_of.iter)
  ]

  -- `if let Some(path) = &args.state_path`.
  abbrev pub note_state_failure : Option FilePath → StateStoreError → Logger F → Logger F
  note_state_failure none e l = l
  note_state_failure (some path) e l = write_event l (state_write_failed path e)

  -- After a tick that succeeded: the exit, the log and what was printed.
  unfoldable pub report :
      OnceArgs F
      → Option ℕ
      → TickOutcome F
      → Logger F
      → Exit × Logger F × Option (IterationRecord F)
  report a print_fails o l =
      let noted = note_skip o l in
      let logged = write_iteration_line noted o.record_of in
      let printed = if is_json a.output_format then some o.record_of else none in
      elim (if is_json a.output_format then print_fails else none) [
        | some failure ↦ (code failure, noted, none)
        | none ↦ elim o.state_write_failed [
          | none ↦ (success, logged, printed)
          | some e ↦ (code 4, note_state_failure a.state_path e logged, printed)
        ]
      ]

  -- After the tick.
  unfoldable pub finish_once :
      {S D : Type 0}
      → OnceArgs F
      → OnceInputs F
      → Logger F
      → TickResult (TickOutcome F)
      → ControllerSession F
      → S
      → World D
      → Exit × OnceWorld F S D
  finish_once a i l (ticked o) s b w =
      let (exit, l', printed) = report a i.print_fails o l in
      (
        exit,
        record { outside = b; world = w; session = some s; logger = some l'; printed = printed },
      )
  finish_once a i l (cv_write e) s b w = (
    code 5,
    record {
      outside = b;
      world = w;
      session = some s;
      logger = some (write_event l (cv_write_failed e 1));
      printed = none;
    },
  )

  module _ (texts : FloatText F) {D S : Type 0} (files : Files D) (format : Json F)
      (out : Outside S) where
    -- From the measurement on; `none` is a panic of the step, or a command that does not return.
    unfoldable pub tick_once :
        OnceArgs F
        → OnceInputs F
        → ControllerSession F
        → F × Logger F
        → F
        → S
        → World D
        → Option (Exit × OnceWorld F S D)
    tick_once a i s0 dt raw b w = resolve_once_ff texts out a.ff_source a.cmd_timeout b >>= λ ff.
        process_pv files format
          (build_cv_mode_sink texts out a.cv_mode a.cv_precision a.cmd_timeout) s0
          (float.times raw a.scale) dt.0 ff.0 i.clocks (some ff.1) w
        >>= λ q. q.2 >>= λ b'. some (finish_once a i dt.1 q.0 q.1 b' q.3)

    unfoldable pub run_once :
        OnceArgs F → OnceInputs F → S → World D → Option (Exit × OnceWorld F S D)
    run_once a i b w =
        let (started, disk) = new files format (once_session a) i.stem w.disk in
        let w' = record w { disk = disk } in
        elim started [
          | init_failed e ↦ some (
            code 3,
            record { outside = b; world = w'; session = none; logger = none; printed = none },
          )
          | session s0 ↦ elim i.log [
            | none ↦ some (
              code 1,
              record { outside = b; world = w'; session = some s0; logger = none; printed = none },
            )
            | some lines ↦
                let dt = resolve_once_dt a i.since_update (open_log lines) in
                resolve_pv texts out a.pv_source a.pv_cmd_timeout b >>= λ pv. elim pv.0 [
                  | err e ↦ some (
                    code 1,
                    record {
                      outside = pv.1;
                      world = w';
                      session = some s0;
                      logger = some dt.1;
                      printed = none;
                    },
                  )
                  | ok raw ↦ tick_once a i s0 dt raw pv.1 w'
                ]
          ]
        ]
