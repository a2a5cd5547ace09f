-- ===== src/Cmd/Pipe.antt =====
-- The `pipe` subcommand (crates/pid-ctl/src/cmd/cmd_pipe.rs): a tick for each line of stdin. Messages
-- on stderr are left out.
pub mod Lines
pub mod Flush
use pid_ctl.Prelude.{ℕ, ◌-◌, String, Option, none, some, List, [], ◌∷◌, ◌>>=◌}
use pid_ctl.Float.{Float, nought, as_secs}
use pid_ctl.App.StateStore.{Text, Files, Json, World, IoResult, ok, err}
use pid_ctl.App.Records.{
  Readings, ControllerSession, TickOutcome, TickResult, ticked, cv_write, CvSink, session,
  init_failed,
}
use pid_ctl.App.Session.{process_pv, new}
use pid_ctl.App.Events.{Logger, Line, open_log, write_iteration_line}
use pid_ctl.App.LoopRuntime.{handle_dt_skip_state_write}
use pid_ctl.Adapters.Readers.{trim}
use pid_ctl.Adapters.Writers.{FloatText, Outside, write_stdout_cv}
use pid_ctl.Cli.Args.{PipeArgs, pipe_session}
use pid_ctl.Cmd.Once.{Exit, success, code, note_skip}

-- A line of stdin, with the clock that is read after it and what its tick reads.
pub record Arrival : Type 0 where
  pub text : IoResult Text
  pub now : ℕ
  pub clocks : Readings

-- What the loop changes.
pub record PipeState (F S D : Type 0) : Type 0 where
  pub session : ControllerSession F
  pub logger : Logger F
  pub last_tick : Option ℕ
  pub outside : S
  pub world : World D

module _ {F : Type 0} ⦃float : Float F⦄ where
  -- The dt of a line: the time since the line before it that was not blank.
  abbrev pub dt_since : F → Option ℕ → ℕ → F
  dt_since first none now = first
  dt_since first (some prev) now = as_secs (now - prev)

  -- After the tick: how the line ends, and what is left. Warnings are not quiet.
  unfoldable pub finish_line :
      {S D : Type 0}
      → PipeArgs F
      → PipeState F S D
      → TickResult (TickOutcome F)
      → ControllerSession F
      → S
      → World D
      → Exit × PipeState F S D
  finish_line a x (cv_write e) s b w = (code 1, record x { session = s; outside = b; world = w })
  finish_line a x (ticked o) s b w =
      let logged = write_iteration_line (note_skip o x.logger) o.record_of in
      (
        success,
        record x {
          session = s;
          outside = b;
          world = w;
          logger = handle_dt_skip_state_write o.state_write_failed s a.state_path logged;
        },
      )

  module _ (texts : FloatText F) {D S : Type 0} (files : Files D) (format : Json F)
      (out : Outside S) where
    abbrev pub pipe_sink : PipeArgs F → CvSink F S
    pipe_sink a = record { write_cv = write_stdout_cv texts out a.cv_precision }

    -- The body of the loop from the number of a line on; `none` is a panic of the step.
    unfoldable pub tick_line :
        PipeArgs F → PipeState F S D → Arrival → F → Option (Exit × PipeState F S D)
    tick_line a x i v =
        process_pv files format (pipe_sink a) x.session (float.times v a.scale)
          (dt_since a.dt x.last_tick i.now) nought i.clocks x.outside x.world
        >>= λ q. some (finish_line a (record x { last_tick = some i.now }) q.0 q.1 q.2 q.3)

    -- For a line that has been read and trimmed.
    unfoldable pub pipe_text :
        PipeArgs F → PipeState F S D → Arrival → Text → Option (Exit × PipeState F S D)
    pipe_text a x i [] = some (success, x)
    pipe_text a x i (c ∷ cs) = elim (texts.parse (c ∷ cs)) [
      | none ↦ some (code 3, record x { last_tick = some i.now })
      | some v ↦ tick_line a x i v
    ]

    unfoldable pub pipe_line :
        PipeArgs F → PipeState F S D → Arrival → Option (Exit × PipeState F S D)
    pipe_line a x i = elim i.text [
      | err e ↦ some (code 1, x)
      | ok line ↦ pipe_text a x i (trim line)
    ]

    -- The loop, until stdin ends or a line ends it.
    unfoldable pub pipe_lines :
        PipeArgs F → PipeState F S D → List Arrival → Option (Exit × PipeState F S D)
    pipe_lines a x [] = some (success, x)
    pipe_lines a x (i ∷ is) = pipe_line a x i >>= λ q. elim q.0 [
      | success ↦ pipe_lines a q.1 is
      | code n ↦ some (code n, q.1)
    ]

    -- The command, given the file stem of the state file and the log file (`none` if it cannot be
    -- opened): the exit and, if the loop was begun, what it left.
    unfoldable pub run_pipe :
        PipeArgs F
        → Option String
        → Option (Option (List (Line F)))
        → List Arrival
        → S
        → World D
        → Option (Exit × Option (PipeState F S D))
    run_pipe a stem log is b w =
        let (started, disk) = new files format (pipe_session a) stem w.disk in
        elim started [
          | init_failed e ↦ some (code 3, none)
          | session s0 ↦ elim log [
            | none ↦ some (code 1, none)
            | some lines ↦
                pipe_lines a
                  (record {
                    session = s0;
                    logger = open_log lines;
                    last_tick = none;
                    outside = b;
                    world = record w { disk = disk };
                  })
                  is
                >>= λ q. some (q.0, some q.1)
          ]
        ]
