-- ===== src/Cli/Args.antt =====
-- The resolved arguments of the commands (crates/pid-ctl/src/cli/types.rs), and the sources and
-- sinks they name (crates/pid-ctl/src/app/adapters_build.rs).
use pid_ctl.Prelude.{ℕ, String, Bool, true, false, Option, none, some}
use pid_ctl.Core.Config.{PidConfig}
use pid_ctl.Autotune.{TuningRule}
use pid_ctl.App.StateStore.{Text, FilePath}
use pid_ctl.App.Records.{SessionConfig}
use pid_ctl.App.LoopRuntime.{LoopRuntimeConfig, UserSet, value}

pub data OnceFfSource (F : Type 0) : Type 0 where
  zero_ff : OnceFfSource F
  literal : F → OnceFfSource F
  file : FilePath → OnceFfSource F
  cmd : Text → OnceFfSource F

pub data LoopFfSource : Type 0 where
  zero_ff : LoopFfSource
  file : FilePath → LoopFfSource
  cmd : Text → LoopFfSource

pub data OncePvSource (F : Type 0) : Type 0 where
  literal : F → OncePvSource F
  file : FilePath → OncePvSource F
  cmd : Text → OncePvSource F

pub data LoopPvSource : Type 0 where
  file : FilePath → LoopPvSource
  cmd : Text → LoopPvSource
  stdin : LoopPvSource

-- A file is verified or not; a command has a timeout of its own or not.
pub data CvSinkConfig : Type 0 where
  stdout : CvSinkConfig
  file : FilePath → Bool → CvSinkConfig
  cmd : Text → Option ℕ → CvSinkConfig

pub data CvMode : Type 0 where
  dry_run : CvMode
  sink : CvSinkConfig → CvMode

pub data OutputFormat : Type 0 where
  text json : OutputFormat

pub record OnceArgs (F : Type 0) : Type 0 where
  pub pv_source : OncePvSource F
  pub ff_source : OnceFfSource F
  pub cmd_timeout : ℕ
  pub pv_cmd_timeout : ℕ
  pub dt : F
  pub dt_explicit : Bool
  pub min_dt : F
  pub max_dt : F
  pub output_format : OutputFormat
  pub cv_mode : CvMode
  pub pid_config : PidConfig F
  pub state_path : Option FilePath
  pub name : Option String
  pub reset_accumulator : Bool
  pub scale : F
  pub cv_precision : ℕ
  pub log_path : Option FilePath

pub record PipeArgs (F : Type 0) : Type 0 where
  pub dt : F
  pub pid_config : PidConfig F
  pub state_path : Option FilePath
  pub name : Option String
  pub reset_accumulator : Bool
  pub scale : F
  pub cv_precision : ℕ
  pub log_path : Option FilePath
  pub state_write_interval : Option ℕ
  pub state_fail_after : ℕ

pub record LoopArgs (F : Type 0) : Type 0 where
  pub runtime : LoopRuntimeConfig F
  pub pv_source : LoopPvSource
  pub ff_source : LoopFfSource
  pub cv_sink : Option CvSinkConfig
  pub pid_config : PidConfig F
  pub state_path : Option FilePath
  pub name : Option String
  pub reset_accumulator : Bool
  pub scale : F
  pub cv_precision : ℕ
  pub output_format : OutputFormat
  pub cmd_timeout : ℕ
  pub pv_cmd_timeout : ℕ
  pub safe_cv : Option F
  pub cv_fail_after : ℕ
  pub fail_after : Option ℕ
  pub min_dt : UserSet F
  pub dt_clamp : Bool
  pub log_path : Option FilePath
  pub dry_run : Bool
  pub verify_cv : Bool
  pub state_fail_after : ℕ
  pub tune : Bool
  pub tune_history : ℕ
  pub tune_step_kp : F
  pub tune_step_ki : F
  pub tune_step_kd : F
  pub tune_step_sp : F
  pub units : Option String
  pub quiet : Bool
  pub verbose : Bool
  pub socket_path : Option FilePath
  pub socket_mode : ℕ
  pub max_iterations : Option ℕ

pub record StatusFlags : Type 0 where
  pub state_path : Option FilePath
  pub socket_path : Option FilePath

pub record ReplayArgs (F : Type 0) : Type 0 where
  pub log : FilePath
  pub kp : F
  pub ki : F
  pub kd : F
  pub out_min : F
  pub out_max : F
  pub output_log : Option FilePath
  pub diff : Bool

pub record AutotuneArgs (F : Type 0) : Type 0 where
  pub pv_cmd : Text
  pub cv_cmd : Text
  pub bias : F
  pub amp : F
  pub duration : ℕ
  pub rule : TuningRule
  pub out_min : F
  pub out_max : F
  pub interval : ℕ
  pub cmd_timeout : ℕ
  pub cv_precision : ℕ
  pub state : Option FilePath

-- What becomes of the outputs: with a dry run, the sink is ignored.
unfoldable pub mode_of : Bool → Option CvSinkConfig → CvMode
mode_of true s = dry_run
mode_of false none = dry_run
mode_of false (some s) = sink s

module _ {F : Type 0} where
  -- `OnceArgs::session_config`.
  unfoldable pub once_session : OnceArgs F → SessionConfig F
  once_session a = record {
    name = a.name;
    pid = a.pid_config;
    state_store = a.state_path;
    reset_accumulator = a.reset_accumulator;
    flush_interval = none;
    state_fail_after = 10;
  }

  unfoldable pub pipe_session : PipeArgs F → SessionConfig F
  pipe_session a = record {
    name = a.name;
    pid = a.pid_config;
    state_store = a.state_path;
    reset_accumulator = a.reset_accumulator;
    flush_interval = a.state_write_interval;
    state_fail_after = a.state_fail_after;
  }

  unfoldable pub loop_session : LoopArgs F → SessionConfig F
  loop_session a = record {
    name = a.name;
    pid = a.pid_config;
    state_store = a.state_path;
    reset_accumulator = a.reset_accumulator;
    flush_interval = value a.runtime.state_write_interval;
    state_fail_after = a.state_fail_after;
  }

  -- `LoopArgs::cv_mode`.
  unfoldable pub cv_mode : LoopArgs F → CvMode
  unfolding mode_of
  cv_mode a = mode_of a.dry_run a.cv_sink
