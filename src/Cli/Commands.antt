-- ===== src/Cli/Commands.antt =====
-- From the flags of each command to its arguments: the `parse_` functions of
-- crates/pid-ctl/src/cli/parse.rs. What they read of the world is the state file, and for `loop`
-- whether stdout is a terminal.
pub mod Agreement
use pid_ctl.Prelude.{
  ℕ, ◌*◌, ◌^◌, min, max, Bool, true, false, not, Option, none, some, if◌then◌else◌, ◌&&◌, is_some,
  map_some, unwrap_or,
}
use pid_ctl.Float.{Float, as_secs}
use pid_ctl.Autotune.{AutotuneConfig, validate}
use pid_ctl.App.StateStore.{FilePath, Files, Json}
use pid_ctl.App.LoopRuntime.{UserSet, min_dt_default, max_dt_default}
use pid_ctl.Cli.Outcome.{
  CliResult, ok, failed, ◌>>=◌, ◌>>◌, reject, required, returned, seconds, seconds_or, bad_autotune,
  pv_source_required, cv_sink_required, interval_required, json_and_cv_stdout, pipe_json,
  tune_and_json, tune_and_quiet, tune_and_pv_stdin, tune_needs_tty, state_required,
  status_source_required, diff_and_output_log, duration_too_short,
}
use pid_ctl.Cli.Raw.{
  CommonRawArgs, CvSinkRawArgs, LoopRawArgs, OnceRawArgs, PipeRawArgs, StatusRawArgs, ReplayRawArgs,
  AutotuneRawArgs,
}
use pid_ctl.Cli.Sources.{
  output_format, tuning_rule, to_pid_flags, to_cv_sink_config, to_once_pv_source, to_loop_pv_source,
  check_pipe, check_once, parse_once_ff_source, parse_loop_ff_source,
}
use pid_ctl.Cli.Args.{
  CvSinkConfig, CvMode, LoopPvSource, OutputFormat, OnceArgs, PipeArgs, LoopArgs, StatusFlags,
  ReplayArgs, AutotuneArgs, mode_of,
}
use pid_ctl.Cli.Parse.{
  RuntimeFlags, PidFlags, user_set, resolve_pid_config, bound_tracking_time, runtime_controls,
}

abbrev pub is_json : OutputFormat → Bool
is_json OutputFormat.json = true
is_json OutputFormat.text = false

-- `matches!(cv_sink, Some(CvSinkConfig::Stdout))`.
abbrev pub is_stdout : Option CvSinkConfig → Bool
is_stdout (some CvSinkConfig.stdout) = true
is_stdout (some (CvSinkConfig.file path v)) = false
is_stdout (some (CvSinkConfig.cmd c t)) = false
is_stdout none = false

abbrev pub is_stdin : LoopPvSource → Bool
is_stdin LoopPvSource.stdin = true
is_stdin (LoopPvSource.file path) = false
is_stdin (LoopPvSource.cmd c) = false

unfoldable pub apply_cv_cmd_timeout : Option ℕ → CvSinkConfig → CvSinkConfig
apply_cv_cmd_timeout (some t) (CvSinkConfig.cmd c slot) = CvSinkConfig.cmd c (some t)
apply_cv_cmd_timeout (some t) (CvSinkConfig.file path v) = CvSinkConfig.file path v
apply_cv_cmd_timeout (some t) CvSinkConfig.stdout = CvSinkConfig.stdout
apply_cv_cmd_timeout none s = s

unfoldable pub apply_verify_cv : Bool → CvSinkConfig → CvSinkConfig
apply_verify_cv verify (CvSinkConfig.file path slot) = CvSinkConfig.file path verify
apply_verify_cv verify CvSinkConfig.stdout = CvSinkConfig.stdout
apply_verify_cv verify (CvSinkConfig.cmd c t) = CvSinkConfig.cmd c t

-- What `parse_once` and `parse_loop` do to a sink that is given.
unfoldable pub completed : Option ℕ → Bool → Option CvSinkConfig → Option CvSinkConfig
completed timeout verify s =
    map_some (λ c. apply_verify_cv verify (apply_cv_cmd_timeout timeout c)) s

abbrev pub in_seconds : ℕ → ℕ
in_seconds n = n * 10 ^ 9

unfoldable pub parse_status_flags : StatusRawArgs → CliResult StatusFlags
parse_status_flags a =
    reject (not (is_some a.state) && not (is_some a.socket)) status_source_required
    >> ok (record { state_path = a.state; socket_path = a.socket })

unfoldable pub get_state_path : Option FilePath → CliResult FilePath
get_state_path state = required state state_required

-- `if tune { ... }`.
unfoldable pub check_tune :
    {F : Type 0} → Bool → LoopRawArgs F → LoopPvSource → OutputFormat → CliResult (Unit {0})
check_tune is_terminal a source format =
    reject (a.tune && is_json format) tune_and_json
    >> reject (a.tune && a.common.quiet) tune_and_quiet
    >> reject (a.tune && is_stdin source) tune_and_pv_stdin
    >> reject (a.tune && not is_terminal) tune_needs_tty

-- The checks of a sink against a dry run and the output format.
unfoldable pub check_sink : Bool → OutputFormat → Option CvSinkConfig → CliResult (Unit {0})
check_sink dry format s =
    reject (not (is_some s) && not dry) cv_sink_required
    >> reject (is_json format && is_stdout s) json_and_cv_stdout

module _ {F : Type 0} ⦃float : Float F⦄ where
  open float use {lit, neg_infinity, infinity}

  unfoldable pub parse_replay : ReplayRawArgs F → CliResult (ReplayArgs F)
  parse_replay a =
      reject (a.diff && is_some a.output_log) diff_and_output_log
      >> ok (record {
        log = a.log;
        kp = a.kp;
        ki = a.ki;
        kd = a.kd;
        out_min = unwrap_or a.out_min neg_infinity;
        out_max = unwrap_or a.out_max infinity;
        output_log = a.output_log;
        diff = a.diff;
      })

  -- `cfg.validate().map_err(CliError::config)`.
  unfoldable pub validated : AutotuneConfig F → CliResult (Unit {0})
  validated c = elim (validate c) [ none ↦ ok tt | some e ↦ failed (bad_autotune e) ]

  unfoldable pub parse_autotune : AutotuneRawArgs F → CliResult (AutotuneArgs F)
  parse_autotune a =
      reject (float.lt (as_secs a.duration) (lit 10 1)) duration_too_short
      >> (seconds_or a.cmd_timeout (min a.interval (in_seconds 5)) >>= λ cmd_timeout.
          validated
            (record { bias = a.bias; amp = a.amp; out_min = a.out_min; out_max = a.out_max })
          >> ok (record {
            pv_cmd = a.pv_cmd;
            cv_cmd = a.cv_cmd;
            bias = a.bias;
            amp = a.amp;
            duration = a.duration;
            rule = tuning_rule a.rule;
            out_min = a.out_min;
            out_max = a.out_max;
            interval = a.interval;
            cmd_timeout = cmd_timeout;
            cv_precision = a.cv_precision;
            state = a.state;
          }))

  -- The flags that make the runtime controls.
  abbrev pub runtime_flags : LoopRawArgs F → RuntimeFlags F
  runtime_flags a = record {
    interval = a.interval;
    max_dt = a.common.max_dt;
    pv_stdin_timeout = a.pv.pv_stdin_timeout;
    state_write_interval = a.common.state_write_interval;
  }

  module _ {D : Type 0} (files : Files D) (format : Json F) where
    unfoldable pub parse_once : OnceRawArgs F → D → CliResult (OnceArgs F)
    parse_once a d =
        check_once a.rejected
        >> (to_once_pv_source a.pv >>= λ found. required found pv_source_required >>= λ pv_source.
            to_cv_sink_config a.cv >>= λ cv_sink.
            check_sink a.dry_run (output_format a.common.format) cv_sink
            >> (to_pid_flags a.pid >>= λ flags.
                resolve_pid_config files format flags a.common.state d >>= λ pid_config.
                seconds a.common.cv_cmd_timeout >>= λ cv_cmd_timeout.
                seconds_or a.common.cmd_timeout (in_seconds 5) >>= λ cmd_timeout.
                seconds_or a.common.pv_cmd_timeout cmd_timeout >>= λ pv_cmd_timeout.
                parse_once_ff_source a.ff >>= λ ff_source. ok (record {
                  pv_source = pv_source;
                  ff_source = ff_source;
                  cmd_timeout = cmd_timeout;
                  pv_cmd_timeout = pv_cmd_timeout;
                  dt = unwrap_or a.common.dt (lit 1 1);
                  dt_explicit = is_some a.common.dt;
                  min_dt = unwrap_or a.common.min_dt min_dt_default;
                  max_dt = unwrap_or a.common.max_dt max_dt_default;
                  output_format = output_format a.common.format;
                  cv_mode = mode_of a.dry_run (completed cv_cmd_timeout a.cv.verify_cv cv_sink);
                  pid_config = pid_config;
                  state_path = a.common.state;
                  name = a.common.name;
                  reset_accumulator = a.common.reset_accumulator;
                  scale = unwrap_or a.common.scale (lit 1 1);
                  cv_precision = unwrap_or a.common.cv_precision 2;
                  log_path = a.common.log;
                })))

    unfoldable pub parse_pipe : PipeRawArgs F → D → CliResult (PipeArgs F)
    parse_pipe a d =
        check_pipe a.rejected
        >> reject (is_json (output_format a.common.format)) pipe_json
        >> (to_pid_flags a.pid >>= λ flags.
            resolve_pid_config files format flags a.common.state d >>= λ pid_config. ok (record {
              dt = unwrap_or a.common.dt (lit 1 1);
              pid_config = pid_config;
              state_path = a.common.state;
              name = a.common.name;
              reset_accumulator = a.common.reset_accumulator;
              scale = unwrap_or a.common.scale (lit 1 1);
              cv_precision = unwrap_or a.common.cv_precision 2;
              log_path = a.common.log;
              state_write_interval = some (unwrap_or a.common.state_write_interval (in_seconds 1));
              state_fail_after = unwrap_or a.common.state_fail_after 10;
            }))

    -- `is_terminal` is `io::stdout().is_terminal()`.
    unfoldable pub parse_loop : Bool → LoopRawArgs F → D → CliResult (LoopArgs F)
    parse_loop is_terminal a d = to_loop_pv_source a.pv >>= λ found.
        required found pv_source_required >>= λ pv_source.
        check_tune is_terminal a pv_source (output_format a.common.format)
        >> (to_cv_sink_config a.cv >>= λ cv_sink.
            check_sink a.dry_run (output_format a.common.format) cv_sink
            >> (seconds a.common.cv_cmd_timeout >>= λ cv_cmd_timeout.
                required a.interval interval_required >>= λ interval.
                to_pid_flags a.pid >>= λ flags.
                resolve_pid_config files format flags a.common.state d >>= λ pid_config.
                returned (runtime_controls (runtime_flags a) interval) >>= λ runtime.
                seconds_or a.common.cmd_timeout (min interval (in_seconds 30)) >>= λ cmd_timeout.
                seconds_or a.common.pv_cmd_timeout cmd_timeout >>= λ pv_cmd_timeout.
                parse_loop_ff_source a.ff >>= λ ff_source. ok (record {
                  runtime = runtime;
                  pv_source = pv_source;
                  ff_source = ff_source;
                  cv_sink = completed cv_cmd_timeout a.cv.verify_cv cv_sink;
                  pid_config = bound_tracking_time flags interval pid_config;
                  state_path = a.common.state;
                  name = a.common.name;
                  reset_accumulator = a.common.reset_accumulator;
                  scale = unwrap_or a.common.scale (lit 1 1);
                  cv_precision = unwrap_or a.common.cv_precision 2;
                  output_format = output_format a.common.format;
                  cmd_timeout = cmd_timeout;
                  pv_cmd_timeout = pv_cmd_timeout;
                  safe_cv = a.common.safe_cv;
                  cv_fail_after = unwrap_or a.common.cv_fail_after 10;
                  fail_after = a.common.fail_after;
                  min_dt = user_set a.common.min_dt (lit 1 100);
                  dt_clamp = a.common.dt_clamp;
                  log_path = a.common.log;
                  dry_run = a.dry_run;
                  verify_cv = a.cv.verify_cv;
                  state_fail_after = unwrap_or a.common.state_fail_after 10;
                  tune = a.tune;
                  tune_history = max (unwrap_or a.tune_history 60) 1;
                  tune_step_kp = unwrap_or a.tune_step_kp (lit 1 10);
                  tune_step_ki = unwrap_or a.tune_step_ki (lit 1 100);
                  tune_step_kd = unwrap_or a.tune_step_kd (lit 5 100);
                  tune_step_sp = unwrap_or a.tune_step_sp (lit 1 10);
                  units = a.common.units;
                  quiet = a.common.quiet;
                  verbose = a.common.verbose;
                  socket_path = a.socket;
                  socket_mode = unwrap_or a.socket_mode 384;
                  max_iterations = a.max_iterations;
                })))
