-- ===== src/Cli/Sources.antt =====
-- How the raw flags become sources, sinks and PID flags: the methods of the structs of
-- crates/pid-ctl/src/cli/raw.rs, with the feed-forward sources and `parse_duration_flag` of parse.rs.
pub mod Exclusive
pub mod Durations
use text.Mathlib.Text.{◌==◌ as str_eq}
use pid_ctl.Prelude.{
  ℕ, ◌+◌, String, Bool, true, false, Option, none, some, List, [], ◌∷◌, length, if◌then◌else◌, ltb,
  ◌==◌, ◌&&◌, ◌||◌, is_some, map_some,
}
use pid_ctl.Float.{Float}
use pid_ctl.Core.Config.{AntiWindupStrategy}
use pid_ctl.Autotune.{TuningRule, pi_rule, pid_rule, tl_rule}
use pid_ctl.App.StateStore.{Text}
use pid_ctl.Cli.Outcome.{
  CliError, CliResult, ok, failed, ◌>>=◌, ◌>>◌, reject, returned, bad_anti_windup, one_cv_sink,
  one_pv_source, one_ff_source, pv_stdin_only_loop, literal_pv_only_once, ff_value_only_once,
  tune_only_loop, pipe_reads_stdin, pipe_writes_stdout, pipe_dry_run, pipe_tune, not_a_duration,
}
use pid_ctl.Cli.Raw.{
  OutputFormatArg, TuningRuleArg, PidRawArgs, FfRawArgs, CvSinkRawArgs, OncePvRawArgs,
  LoopPvRawArgs, PipeRejectedArgs, OnceRejectedArgs,
}
use pid_ctl.Cli.Args.{
  OnceFfSource, LoopFfSource, OncePvSource, LoopPvSource, CvSinkConfig, OutputFormat,
}
use pid_ctl.Cli.Parse.{PidFlags}

-- `impl From<OutputFormatArg> for OutputFormat`.
unfoldable pub output_format : OutputFormatArg → OutputFormat
output_format OutputFormatArg.text = OutputFormat.text
output_format OutputFormatArg.json = OutputFormat.json

-- `impl From<TuningRuleArg> for TuningRule`.
unfoldable pub tuning_rule : TuningRuleArg → TuningRule
tuning_rule TuningRuleArg.pi = pi_rule
tuning_rule TuningRuleArg.pid = pid_rule
tuning_rule TuningRuleArg.tl = tl_rule

-- The closure in `to_pid_flags`.
unfoldable pub strategy : String → CliResult AntiWindupStrategy
strategy v =
    if str_eq v "back-calc" || str_eq v "back-calculation"
    then ok AntiWindupStrategy.back_calculation
    else if str_eq v "clamp"
    then ok AntiWindupStrategy.clamp
    else if str_eq v "none"
    then ok AntiWindupStrategy.none
    else failed bad_anti_windup

-- `.map(strategy).transpose()`.
unfoldable pub strategy_of : Option String → CliResult (Option AntiWindupStrategy)
strategy_of none = ok none
strategy_of (some v) = strategy v >>= λ s. ok (some s)

unfoldable pub to_pid_flags : {F : Type 0} → PidRawArgs F → CliResult (PidFlags F)
to_pid_flags a = strategy_of a.anti_windup >>= λ s. ok (record {
  setpoint = a.setpoint;
  kp = a.kp;
  ki = a.ki;
  kd = a.kd;
  out_min = a.out_min;
  out_max = a.out_max;
  deadband = a.deadband;
  setpoint_ramp = a.setpoint_ramp;
  slew_rate = a.slew_rate;
  pv_filter_alpha = a.pv_filter;
  anti_windup = s;
  anti_windup_tt = a.anti_windup_tt;
  feedforward_gain = a.ff_gain;
})

-- `u32::from(test)`.
abbrev pub bit : Bool → ℕ
bit true = 1
bit false = 0

unfoldable pub to_cv_sink_config : CvSinkRawArgs → CliResult (Option CvSinkConfig)
to_cv_sink_config a =
    let count = bit a.cv_stdout + bit (is_some a.cv_file) + bit (is_some a.cv_cmd) in
    if ltb 1 count
    then failed one_cv_sink
    else if a.cv_stdout
    then ok (some CvSinkConfig.stdout)
    else elim a.cv_file [
      | some path ↦ ok (some (CvSinkConfig.file path false))
      | none ↦ ok (map_some (λ command. CvSinkConfig.cmd command none) a.cv_cmd)
    ]

abbrev pub is_empty {ℓ} : {A : Type ℓ} → List A → Bool
is_empty [] = true
is_empty (x ∷ xs) = false

module _ {F : Type 0} where
  -- The last `if` of `OncePvRawArgs::to_pv_source_config`.
  unfoldable pub first_once_source : OncePvRawArgs F → List F → Option (OncePvSource F)
  first_once_source a (v ∷ vs) = some (OncePvSource.literal v)
  first_once_source a [] = elim a.pv_file [
    | some path ↦ some (OncePvSource.file path)
    | none ↦ map_some OncePvSource.cmd a.pv_cmd
  ]

  unfoldable pub to_once_pv_source : OncePvRawArgs F → CliResult (Option (OncePvSource F))
  to_once_pv_source a =
      let count =
        bit (if is_empty a.pv then false else true)
        + bit (is_some a.pv_file)
        + bit (is_some a.pv_cmd) in
      if a.pv_stdin
      then failed pv_stdin_only_loop
      else if ltb 1 (length a.pv) || ltb 1 count
      then failed one_pv_source
      else ok (first_once_source a a.pv)

  unfoldable pub first_loop_source : LoopPvRawArgs F → Option LoopPvSource
  first_loop_source a = elim a.pv_file [
    | some path ↦ some (LoopPvSource.file path)
    | none ↦ elim a.pv_cmd [
      | some command ↦ some (LoopPvSource.cmd command)
      | none ↦ if a.pv_stdin then some LoopPvSource.stdin else none
    ]
  ]

  unfoldable pub to_loop_pv_source : LoopPvRawArgs F → CliResult (Option LoopPvSource)
  to_loop_pv_source a =
      let count = bit (is_some a.pv_file) + bit (is_some a.pv_cmd) + bit a.pv_stdin in
      if is_some a.pv
      then failed literal_pv_only_once
      else if ltb 1 count
      then failed one_pv_source
      else ok (first_loop_source a)

  -- `PipeRejectedArgs::check`.
  unfoldable pub check_pipe : PipeRejectedArgs F → CliResult (Unit {0})
  check_pipe a =
      reject (is_some a.pv || is_some a.pv_file || is_some a.pv_cmd || a.pv_stdin) pipe_reads_stdin
      >> reject (a.cv_stdout || is_some a.cv_file || is_some a.cv_cmd || a.verify_cv)
          pipe_writes_stdout
      >> reject a.dry_run pipe_dry_run
      >> reject a.tune pipe_tune

  unfoldable pub parse_once_ff_source : FfRawArgs F → CliResult (OnceFfSource F)
  parse_once_ff_source a =
      let count = bit (is_some a.value) + bit (is_some a.from_file) + bit (is_some a.cmd) in
      if ltb 1 count then failed one_ff_source else elim a.value [
        | some v ↦ ok (OnceFfSource.literal v)
        | none ↦ elim a.from_file [
          | some path ↦ ok (OnceFfSource.file path)
          | none ↦ elim a.cmd [
            | some command ↦ ok (OnceFfSource.cmd command)
            | none ↦ ok OnceFfSource.zero_ff
          ]
        ]
      ]

  unfoldable pub parse_loop_ff_source : FfRawArgs F → CliResult LoopFfSource
  parse_loop_ff_source a =
      let count = bit (is_some a.from_file) + bit (is_some a.cmd) in
      if is_some a.value
      then failed ff_value_only_once
      else if ltb 1 count
      then failed one_ff_source
      else elim a.from_file [
        | some path ↦ ok (LoopFfSource.file path)
        | none ↦ elim a.cmd [
          | some command ↦ ok (LoopFfSource.cmd command)
          | none ↦ ok LoopFfSource.zero_ff
        ]
      ]

-- `OnceRejectedArgs::check`.
unfoldable pub check_once : OnceRejectedArgs → CliResult (Unit {0})
check_once a = reject a.tune tune_only_loop

abbrev pub text_eq : Text → Text → Bool
text_eq [] [] = true
text_eq [] (y ∷ ys) = false
text_eq (x ∷ xs) [] = false
text_eq (x ∷ xs) (y ∷ ys) = (x == y) && text_eq xs ys

-- `strip_suffix`, of a suffix that is not empty.
unfoldable pub strip_suffix : Text → Text → Option Text
strip_suffix suffix [] = none
strip_suffix suffix (x ∷ xs) =
    let rest = strip_suffix suffix xs in
    if text_eq (x ∷ xs) suffix then some [] else map_some (λ front. x ∷ front) rest

module _ {F : Type 0} ⦃float : Float F⦄ where
  open float use {lit, over, from_secs}

  -- `parse_duration_flag`, given `str::parse::<f64>`.
  unfoldable pub parse_duration_flag : (Text → Option F) → Text → CliResult ℕ
  parse_duration_flag parse_f64 value = elim (strip_suffix (b'm' ∷ b's' ∷ []) value) [
    | some ms_str ↦ elim (parse_f64 ms_str) [
      | none ↦ failed not_a_duration
      | some ms ↦ returned (from_secs (over ms (lit 1000 1)))
    ]
    | none ↦ elim (strip_suffix (b's' ∷ []) value) [
      | some secs_str ↦ elim (parse_f64 secs_str) [
        | none ↦ failed not_a_duration
        | some secs ↦ returned (from_secs secs)
      ]
      | none ↦ elim (parse_f64 value) [
        | none ↦ failed not_a_duration
        | some secs ↦ returned (from_secs secs)
      ]
    ]
  ]
