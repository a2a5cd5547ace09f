-- ===== src/App/Snapshot.antt =====
-- `StateSnapshot` and `StateStoreError` (crates/pid-ctl/src/app/state_store.rs).
use pid_ctl.Prelude.{ℕ, Option, none, some, List, String, ltb, if◌then◌else◌}
use pid_ctl.Float.{Float, nought}
use pid_ctl.Core.Controller.{PidRuntimeState}

abbrev pub state_schema_version : ℕ
state_schema_version = 1

pub record StateSnapshot (F : Type 0) : Type 0 where
  pub schema_version : ℕ
  pub name : Option String
  pub kp : Option F
  pub ki : Option F
  pub kd : Option F
  pub setpoint : Option F
  pub out_min : Option F
  pub out_max : Option F
  pub effective_sp : Option F
  pub target_sp : Option F
  pub i_acc : F
  pub last_error : Option F
  pub last_cv : Option F
  pub last_pv : Option F
  pub iter : ℕ
  pub created_at : Option String
  pub updated_at : Option String

-- What the operating system says of a failed call (`std::io::ErrorKind`), as far as the code asks.
-- The path of an error is given by its file name.
pub data IoError : Type 0 where
  not_found would_block : IoError
  other : String → IoError

pub data StateStoreError : Type 0 where
  io : Option (List ℕ) → IoError → StateStoreError
  json : StateStoreError
  lock_held : Option (List ℕ) → StateStoreError
  unsupported_schema_version : ℕ → ℕ → StateStoreError

module _ {F : Type 0} ⦃float : Float F⦄ where
  -- `impl Default for StateSnapshot`.
  unfoldable pub default_snapshot : StateSnapshot F
  default_snapshot = record {
    schema_version = state_schema_version;
    name = none;
    kp = none;
    ki = none;
    kd = none;
    setpoint = none;
    out_min = none;
    out_max = none;
    effective_sp = none;
    target_sp = none;
    i_acc = nought;
    last_error = none;
    last_cv = none;
    last_pv = none;
    iter = 0;
    created_at = none;
    updated_at = none;
  }

module _ {F : Type 0} where
  -- `StateSnapshot::validate`: `none` is `Ok(())`.
  unfoldable pub validate : StateSnapshot F → Option StateStoreError
  validate s =
      if ltb state_schema_version s.schema_version
      then some (unsupported_schema_version s.schema_version state_schema_version)
      else none

  unfoldable pub runtime_state : StateSnapshot F → PidRuntimeState F
  runtime_state s = record {
    i_acc = s.i_acc;
    last_pv = s.last_pv;
    last_error = s.last_error;
    last_cv = s.last_cv;
    effective_sp = s.effective_sp;
  }
