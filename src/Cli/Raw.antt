-- ===== src/Cli/Raw.antt =====
-- The flags as `clap` reads them (the structs of crates/pid-ctl/src/cli/raw.rs), with the features
-- `tui` and `unix`. Which flags may be missing is in the types; durations are in nanoseconds.
use pid_ctl.Prelude.{ℕ, String, Bool, Option, List}
use pid_ctl.App.StateStore.{Text, FilePath}

pub data OutputFormatArg : Type 0 where
  text json : OutputFormatArg

pub data TuningRuleArg : Type 0 where
  pi pid tl : TuningRuleArg

pub record PidRawArgs (F : Type 0) : Type 0 where
  pub setpoint : Option F
  pub kp : Option F
  pub ki : Option F
  pub kd : Option F
  pub out_min : Option F
  pub out_max : Option F
  pub deadband : Option F
  pub setpoint_ramp : Option F
  pub slew_rate : Option F
  pub pv_filter : Option F
  pub anti_windup : Option String
  pub anti_windup_tt : Option F
  pub ff_gain : Option F

pub record FfRawArgs (F : Type 0) : Type 0 where
  pub value : Option F
  pub from_file : Option FilePath
  pub cmd : Option Text

pub record CommonRawArgs (F : Type 0) : Type 0 where
  pub dt : Option F
  pub dt_clamp : Bool
  pub format : OutputFormatArg
  pub state : Option FilePath
  pub name : Option String
  pub reset_accumulator : Bool
  pub scale : Option F
  pub cv_precision : Option ℕ
  pub cmd_timeout : Option F
  pub cv_cmd_timeout : Option F
  pub pv_cmd_timeout : Option F
  pub safe_cv : Option F
  pub cv_fail_after : Option ℕ
  pub fail_after : Option ℕ
  pub min_dt : Option F
  pub max_dt : Option F
  pub log : Option FilePath
  pub state_write_interval : Option ℕ
  pub state_fail_after : Option ℕ
  pub units : Option String
  pub quiet : Bool
  pub verbose : Bool

pub record CvSinkRawArgs : Type 0 where
  pub cv_stdout : Bool
  pub cv_file : Option FilePath
  pub cv_cmd : Option Text
  pub verify_cv : Bool

pub record OncePvRawArgs (F : Type 0) : Type 0 where
  pub pv : List F
  pub pv_file : Option FilePath
  pub pv_cmd : Option Text
  pub pv_stdin : Bool

pub record LoopPvRawArgs (F : Type 0) : Type 0 where
  pub pv : Option F
  pub pv_file : Option FilePath
  pub pv_cmd : Option Text
  pub pv_stdin : Bool
  pub pv_stdin_timeout : Option ℕ

pub record PipeRejectedArgs (F : Type 0) : Type 0 where
  pub pv : Option F
  pub pv_file : Option FilePath
  pub pv_cmd : Option Text
  pub pv_stdin : Bool
  pub cv_stdout : Bool
  pub cv_file : Option FilePath
  pub cv_cmd : Option Text
  pub verify_cv : Bool
  pub dry_run : Bool
  pub tune : Bool

pub record OnceRejectedArgs : Type 0 where
  pub tune : Bool

pub record OnceRawArgs (F : Type 0) : Type 0 where
  pub pid : PidRawArgs F
  pub common : CommonRawArgs F
  pub pv : OncePvRawArgs F
  pub ff : FfRawArgs F
  pub cv : CvSinkRawArgs
  pub dry_run : Bool
  pub rejected : OnceRejectedArgs

pub record LoopRawArgs (F : Type 0) : Type 0 where
  pub pid : PidRawArgs F
  pub common : CommonRawArgs F
  pub pv : LoopPvRawArgs F
  pub ff : FfRawArgs F
  pub cv : CvSinkRawArgs
  pub interval : Option ℕ
  pub dry_run : Bool
  pub tune : Bool
  pub tune_history : Option ℕ
  pub tune_step_kp : Option F
  pub tune_step_ki : Option F
  pub tune_step_kd : Option F
  pub tune_step_sp : Option F
  pub socket : Option FilePath
  pub socket_mode : Option ℕ
  pub max_iterations : Option ℕ

pub record PipeRawArgs (F : Type 0) : Type 0 where
  pub pid : PidRawArgs F
  pub common : CommonRawArgs F
  pub rejected : PipeRejectedArgs F

pub record StatusRawArgs : Type 0 where
  pub state : Option FilePath
  pub socket : Option FilePath

pub record ReplayRawArgs (F : Type 0) : Type 0 where
  pub log : FilePath
  pub kp : F
  pub ki : F
  pub kd : F
  pub out_min : Option F
  pub out_max : Option F
  pub output_log : Option FilePath
  pub diff : Bool

pub record AutotuneRawArgs (F : Type 0) : Type 0 where
  pub pv_cmd : Text
  pub cv_cmd : Text
  pub bias : F
  pub amp : F
  pub duration : ℕ
  pub rule : TuningRuleArg
  pub out_min : F
  pub out_max : F
  pub interval : ℕ
  pub cmd_timeout : Option F
  pub cv_precision : ℕ
  pub state : Option FilePath
