-- ===== src/Tests/CommandLine.antt =====
-- The parsing of the command line on concrete flags.
use pid_ctl.Prelude.{
  arith, ℕ, ◌≡◌, refl, true, false, Option, none, some, [], ◌∷◌, ◌++◌, if◌then◌else◌, is_some, leb,
  ◌&&◌, ◌-◌, ◌==◌, ◌*◌,
}
use pid_ctl.Prelude.Int.{pos, negsuc}
use pid_ctl.Float.{as_secs, clamp}
use pid_ctl.Float.Fixed.{Fixed, fixed_float, fin}
use pid_ctl.App.StateStore.{Text, Json}
use pid_ctl.App.LoopRuntime.{explicit, default}
use pid_ctl.Cli.Outcome.{
  ok, failed, returned, ◌>>=◌, one_cv_sink, one_pv_source, one_ff_source, pv_stdin_only_loop,
  literal_pv_only_once, ff_value_only_once, not_a_duration,
}
use pid_ctl.Cli.Raw.{
  OutputFormatArg, PidRawArgs, FfRawArgs, CommonRawArgs, CvSinkRawArgs, OncePvRawArgs,
  LoopPvRawArgs, LoopRawArgs,
}
use pid_ctl.Cli.Args.{
  OnceFfSource, LoopFfSource, LoopPvSource, CvSinkConfig, OutputFormat, LoopArgs,
}
use pid_ctl.Cli.Parse.{
  merge, merge_found, resolve_pid_config, bound_tracking_time, runtime_controls,
}
use pid_ctl.Cli.Sources.{
  to_cv_sink_config, to_once_pv_source, to_loop_pv_source, first_loop_source, to_pid_flags,
  strategy_of, output_format, parse_once_ff_source, parse_loop_ff_source, parse_duration_flag,
}
use pid_ctl.Cli.Sources.Exclusive.{
  at_most_one, named_sinks, named_once, named_loop, named_once_ff, named_loop_ff, or_zero,
  sources_exclusive,
}
use pid_ctl.Cli.Sources.Durations.{IsFloatText, duration_units}
use pid_ctl.Cli.Commands.{
  parse_loop, check_tune, check_sink, completed, apply_verify_cv, apply_cv_cmd_timeout,
}
use pid_ctl.Cli.Commands.Agreement.{Agrees, parse_loop-Agrees}
use pid_ctl.Tests.Fixtures.{num, pi_config, disk_files, state_path, empty_disk}

abbrev one_file : CvSinkRawArgs
one_file = record { cv_stdout = false; cv_file = some state_path; cv_cmd = none; verify_cv = true }

abbrev two_values : OncePvRawArgs Fixed
two_values = record { pv = num 1 ∷ num 2 ∷ []; pv_file = none; pv_cmd = none; pv_stdin = false }

abbrev from_stdin : LoopPvRawArgs Fixed
from_stdin = record {
  pv = none;
  pv_file = none;
  pv_cmd = none;
  pv_stdin = true;
  pv_stdin_timeout = some 7;
}

abbrev no_ff : FfRawArgs Fixed
no_ff = record { value = none; from_file = none; cmd = none }

sources_exclusive_example :
    (to_cv_sink_config one_file ≡ at_most_one one_cv_sink (named_sinks one_file))
    × (to_once_pv_source two_values ≡ (
        if two_values.pv_stdin
        then failed pv_stdin_only_loop
        else at_most_one one_pv_source (named_once two_values)))
    × (to_loop_pv_source from_stdin ≡ (
        if is_some from_stdin.pv
        then failed literal_pv_only_once
        else at_most_one one_pv_source (named_loop from_stdin)))
    × (parse_once_ff_source no_ff ≡ (
        at_most_one one_ff_source (named_once_ff no_ff) >>= λ s.
        ok (or_zero OnceFfSource.zero_ff s)))
    × (parse_loop_ff_source no_ff ≡ (
        if is_some no_ff.value
        then failed ff_value_only_once
        else at_most_one one_ff_source (named_loop_ff no_ff) >>= λ s.
            ok (or_zero LoopFfSource.zero_ff s)))
sources_exclusive_example = sources_exclusive one_file two_values from_stdin no_ff

-- A parser of numbers of one digit, with a minus sign or without.
unfoldable digit : Text → Option Fixed
digit [] = none
digit (c ∷ []) = if leb b'0' c && leb c b'9' then some (num (c - b'0')) else none
digit (s ∷ c ∷ []) =
    if s == b'-' && (leb b'1' c && leb c b'9')
    then some (fin (negsuc ((c - b'0') * 1000 - 1)))
    else none
digit (s ∷ c ∷ d ∷ cs) = none

digit-long : (s c : ℕ) (xs : Text) (d : ℕ) → digit (s ∷ c ∷ (xs ++ (d ∷ []))) ≡ none
unfolding digit
digit-long s c [] d = refl
digit-long s c (x ∷ xs) d = refl

digit-m : (x : Text) → digit (x ++ (b'm' ∷ [])) ≡ none
unfolding digit
digit-m [] = refl
digit-m (c ∷ []) = ground arith
digit-m (s ∷ c ∷ xs) = digit-long s c xs b'm'

digit-s : (x : Text) → digit (x ++ (b's' ∷ [])) ≡ none
unfolding digit
digit-s [] = refl
digit-s (c ∷ []) = ground arith
digit-s (s ∷ c ∷ xs) = digit-long s c xs b's'

digit-IsFloatText : IsFloatText digit
digit-IsFloatText = record { no_m = digit-m; no_s = digit-s }

duration_units_example :
    (parse_duration_flag digit (b'5' ∷ b'm' ∷ b's' ∷ [])
      ≡ returned (fixed_float.from_secs (fixed_float.over (num 5) (fixed_float.lit 1000 1))))
    × (parse_duration_flag digit (b'5' ∷ b's' ∷ []) ≡ returned (fixed_float.from_secs (num 5)))
    × (parse_duration_flag digit (b'5' ∷ []) ≡ returned (fixed_float.from_secs (num 5)))
    × (parse_duration_flag digit (b'5' ∷ b'm' ∷ []) ≡ failed not_a_duration)
unfolding digit
duration_units_example = duration_units digit digit-IsFloatText (b'5' ∷ []) (num 5) refl

abbrev pid_flags : PidRawArgs Fixed
pid_flags = record {
  setpoint = some (num 50);
  kp = some (num 2);
  ki = some (num 1);
  kd = none;
  out_min = some (num 0);
  out_max = some (num 100);
  deadband = none;
  setpoint_ramp = none;
  slew_rate = none;
  pv_filter = none;
  anti_windup = none;
  anti_windup_tt = none;
  ff_gain = none;
}

abbrev common_flags : CommonRawArgs Fixed
common_flags = record {
  dt = none;
  dt_clamp = false;
  format = OutputFormatArg.json;
  state = none;
  name = none;
  reset_accumulator = false;
  scale = none;
  cv_precision = none;
  cmd_timeout = none;
  cv_cmd_timeout = none;
  pv_cmd_timeout = none;
  safe_cv = some (num 0);
  cv_fail_after = none;
  fail_after = none;
  min_dt = none;
  max_dt = none;
  log = none;
  state_write_interval = none;
  state_fail_after = none;
  units = none;
  quiet = false;
  verbose = false;
}

abbrev loop_flags : LoopRawArgs Fixed
loop_flags = record {
  pid = pid_flags;
  common = common_flags;
  pv = from_stdin;
  ff = no_ff;
  cv = one_file;
  interval = some 1000000000;
  dry_run = false;
  tune = false;
  tune_history = some 0;
  tune_step_kp = none;
  tune_step_ki = none;
  tune_step_kd = none;
  tune_step_sp = none;
  socket = none;
  socket_mode = none;
  max_iterations = none;
}

-- What they are parsed to.
abbrev loop_args : LoopArgs Fixed
loop_args = record {
  runtime = record {
    interval = 1000000000;
    max_dt = default (num 3);
    pv_stdin_timeout = explicit 7;
    state_write_interval = default (some 1000000000);
  };
  pv_source = LoopPvSource.stdin;
  ff_source = LoopFfSource.zero_ff;
  cv_sink = some (CvSinkConfig.file state_path true);
  pid_config = record pi_config { tt_upper_bound = some (num 100) };
  state_path = none;
  name = none;
  reset_accumulator = false;
  scale = num 1;
  cv_precision = 2;
  output_format = OutputFormat.json;
  cmd_timeout = 1000000000;
  pv_cmd_timeout = 1000000000;
  safe_cv = some (num 0);
  cv_fail_after = 10;
  fail_after = none;
  min_dt = default (fin (pos 10));
  dt_clamp = false;
  log_path = none;
  dry_run = false;
  verify_cv = true;
  state_fail_after = 10;
  tune = false;
  tune_history = 1;
  tune_step_kp = fin (pos 100);
  tune_step_ki = fin (pos 10);
  tune_step_kd = fin (pos 50);
  tune_step_sp = fin (pos 100);
  units = none;
  quiet = false;
  verbose = false;
  socket_path = none;
  socket_mode = 384;
  max_iterations = none;
}

abbrev no_codec : Json Fixed
no_codec = record { to_string_pretty = λ s. none; from_str = λ t. none }

parse_loop-Agrees_example : Agrees false loop_args
unfolding parse_loop check_tune check_sink completed apply_verify_cv apply_cv_cmd_timeout
    to_cv_sink_config to_loop_pv_source first_loop_source to_pid_flags strategy_of output_format
    parse_loop_ff_source merge merge_found resolve_pid_config bound_tracking_time runtime_controls
    as_secs clamp fixed_float
parse_loop-Agrees_example =
    parse_loop-Agrees disk_files no_codec false loop_flags empty_disk loop_args refl
