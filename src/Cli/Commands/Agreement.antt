-- ===== src/Cli/Commands/Agreement.antt =====
-- What the arguments of `loop` and `once` are sure of, once they are parsed.
use pid_ctl.Prelude.{ℕ, ◌≤◌, ◌≡◌, arith, Bool, true, false, Option, min}
use pid_ctl.Float.{Float}
use pid_ctl.App.StateStore.{Files, Json}
use pid_ctl.Cli.Outcome.{
  ok, Ensures, >>=-Ensures, eq-ok-Ensures, required, returned, seconds, seconds_or,
  pv_source_required, interval_required,
}
use pid_ctl.Cli.Raw.{LoopRawArgs}
use pid_ctl.Cli.Parse.{resolve_pid_config, runtime_controls}
use pid_ctl.Cli.Sources.{
  to_loop_pv_source, to_cv_sink_config, output_format, to_pid_flags, parse_loop_ff_source,
}
use pid_ctl.Cli.Args.{LoopArgs, CvMode, CvSinkConfig, OutputFormat, cv_mode, mode_of, LoopPvSource}
use pid_ctl.Cli.Commands.{
  is_json, is_stdout, is_stdin, check_tune, check_sink, completed, parse_loop, apply_verify_cv,
  apply_cv_cmd_timeout, runtime_flags, in_seconds,
}

-- The parts of the arguments of `loop` agree with one another.
pub record Agrees {F : Type 0} (is_terminal : Bool) (r : LoopArgs F) : Type 0 where
  pub simulated : cv_mode r ≡ CvMode.dry_run → r.dry_run ≡ true
  pub stdout_free : is_json r.output_format ≡ true → is_stdout r.cv_sink ≡ false
  pub tune_text : r.tune ≡ true → is_json r.output_format ≡ false
  pub tune_loud : r.tune ≡ true → r.quiet ≡ false
  pub tune_keys : r.tune ≡ true → is_stdin r.pv_source ≡ false
  pub tune_terminal : r.tune ≡ true → is_terminal ≡ true
  pub history : 1 ≤ r.tune_history

is_stdout-completed :
    (t : Option ℕ) (v : Bool) (s : Option CvSinkConfig) → is_stdout (completed t v s) ≡ is_stdout s
unfolding completed apply_verify_cv apply_cv_cmd_timeout
is_stdout-completed t v s = ground arith

-- A sink passes the checks only if it is there or the run is dry, and it is not stdout beside JSON.
check_sink-Ensures :
    (dry : Bool) (format : OutputFormat) (t : Option ℕ) (v : Bool) (s : Option CvSinkConfig)
    (u : Unit {0})
    → check_sink dry format s ≡ ok u
    → (mode_of dry (completed t v s) ≡ CvMode.dry_run → dry ≡ true)
      × (is_json format ≡ true → is_stdout (completed t v s) ≡ false)
unfolding check_sink mode_of completed apply_verify_cv apply_cv_cmd_timeout
check_sink-Ensures dry format t v s u h = (λ e. ground arith, λ e. ground arith)

module _ {F : Type 0} where
  check_tune-Ensures :
      (is_terminal : Bool) (a : LoopRawArgs F) (source : LoopPvSource) (format : OutputFormat)
      (u : Unit {0})
      → check_tune is_terminal a source format ≡ ok u
      → a.tune ≡ true
      → (is_json format ≡ false)
        × (a.common.quiet ≡ false)
        × (is_stdin source ≡ false)
        × (is_terminal ≡ true)
  unfolding check_tune
  check_tune-Ensures is_terminal a source format u h e = ground arith

module _ {F : Type 0} ⦃float : Float F⦄ {D : Type 0} (files : Files D) (format : Json F) where
  parse_loop-Ensures :
      (is_terminal : Bool) (a : LoopRawArgs F) (d : D)
      → Ensures (Agrees is_terminal) (parse_loop files format is_terminal a d)
  unfolding parse_loop cv_mode
  parse_loop-Ensures is_terminal a d =
      let P = Agrees {F = F} is_terminal in
      >>=-Ensures P (to_loop_pv_source a.pv) _ λ found _.
        >>=-Ensures P (required found pv_source_required) _ λ source _.
          >>=-Ensures P (check_tune is_terminal a source (output_format a.common.format)) _
            λ u tuned. >>=-Ensures P (to_cv_sink_config a.cv) _ λ s _.
              >>=-Ensures P (check_sink a.dry_run (output_format a.common.format) s) _ λ u' sinks.
                >>=-Ensures P (seconds a.common.cv_cmd_timeout) _ λ t _.
                  >>=-Ensures P (required a.interval interval_required) _ λ interval _.
                    >>=-Ensures P (to_pid_flags a.pid) _ λ flags _.
                      >>=-Ensures P (resolve_pid_config files format flags a.common.state d) _
                        λ c _.
                          >>=-Ensures P (returned (runtime_controls (runtime_flags a) interval)) _
                            λ controls _.
                              >>=-Ensures P
                                (seconds_or a.common.cmd_timeout (min interval (in_seconds 30))) _
                                λ t' _.
                                  >>=-Ensures P (seconds_or a.common.pv_cmd_timeout t') _ λ t'' _.
                                    >>=-Ensures P (parse_loop_ff_source a.ff) _ λ ff _.
                                      let tune =
                                        check_tune-Ensures is_terminal a source
                                          (output_format a.common.format) u tuned in
                                      let (dry, free) =
                                        check_sink-Ensures a.dry_run (output_format a.common.format)
                                          t a.cv.verify_cv s u' sinks in
                                      record {
                                        simulated = dry;
                                        stdout_free = free;
                                        tune_text = λ e. (tune e).0;
                                        tune_loud = λ e. (tune e).1;
                                        tune_keys = λ e. (tune e).2;
                                        tune_terminal = λ e. (tune e).3;
                                        history = omega arith;
                                      }

  -- If the flags of `loop` are accepted: no output is simulated unless a dry run was asked for; JSON
  -- records and raw outputs do not both go to stdout; the dashboard runs only on a terminal, with
  -- no JSON, not quiet and with a PV source other than stdin; and its history has a tick at least.
  pub parse_loop-Agrees :
      (is_terminal : Bool) (a : LoopRawArgs F) (d : D) (r : LoopArgs F)
      → parse_loop files format is_terminal a d ≡ ok r
      → Agrees is_terminal r
  parse_loop-Agrees is_terminal a d r e =
      eq-ok-Ensures (Agrees is_terminal) _ r e (parse_loop-Ensures is_terminal a d)
