-- ===== src/App/Records.antt =====
-- The records of the session layer (crates/pid-ctl/src/app/mod.rs), and what a call reads from the
-- clocks.
use Prim.Native.String.{String}
use pid_ctl.Prelude.{ℕ, ◌-◌, ◌^◌, Bool, Option, unwrap_or}
use pid_ctl.Core.Config.{PidConfig, ConfigError, DTermSkipReason}
use pid_ctl.Core.Controller.{PidController}
use pid_ctl.App.Snapshot.{StateSnapshot, StateStoreError, IoError}
use pid_ctl.App.StateStore.{FilePath}
use pid_ctl.App.Persister.{SnapshotPersister}

abbrev pub u64_max : ℕ
u64_max = 2 ^ 64 - 1

-- `trait CvSink`: what the actuator does with a value.
pub record CvSink (F S : Type 0) : Type 0 where
  pub write_cv : F → S → Option IoError × S

-- What a call reads: `now_iso8601()` for `created_at`, `updated_at` and the record, and the
-- monotonic clock before and after a write of the state.
pub record Readings : Type 0 where
  pub created_at : String
  pub updated_at : String
  pub record_ts : String
  pub before_write : ℕ
  pub after_write : ℕ

pub record SessionConfig (F : Type 0) : Type 0 where
  pub name : Option String
  pub pid : PidConfig F
  pub state_store : Option FilePath
  pub reset_accumulator : Bool
  pub flush_interval : Option ℕ
  pub state_fail_after : ℕ

pub record ControllerSession (F : Type 0) : Type 0 where
  pub controller : PidController F
  pub snapshot : StateSnapshot F
  pub persister : SnapshotPersister

pub record IterationRecord (F : Type 0) : Type 0 where
  pub schema_version : ℕ
  pub ts : String
  pub name : Option String
  pub iter : ℕ
  pub pv : F
  pub sp : F
  pub effective_sp : Option F
  pub err : F
  pub p : F
  pub i : F
  pub d : F
  pub ff : F
  pub cv : F
  pub i_acc : F
  pub dt : F

pub record TickOutcome (F : Type 0) : Type 0 where
  pub record_of : IterationRecord F
  pub d_term_skipped : Option DTermSkipReason
  pub state_write_failed : Option StateStoreError

pub record HoldTickOutcome (F : Type 0) : Type 0 where
  pub pv : F
  pub state_write_failed : Option StateStoreError

-- `Result<_, TickError>`.
pub data TickResult (A : Type 0) : Type 0 where
  ticked : A → TickResult A
  cv_write : IoError → TickResult A

pub data InitError (F : Type 0) : Type 0 where
  config : ConfigError F → InitError F
  state : StateStoreError → InitError F

pub data InitResult (F : Type 0) : Type 0 where
  session : ControllerSession F → InitResult F
  init_failed : InitError F → InitResult F

-- `resolve_controller_name`; `stem` is `Path::file_stem` of the state file.
unfoldable pub resolve_controller_name : Option String → Option String → Option String → String
resolve_controller_name cli_name stem snapshot_name =
    unwrap_or cli_name (unwrap_or snapshot_name (unwrap_or stem "pid-ctl"))
