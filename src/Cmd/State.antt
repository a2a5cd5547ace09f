-- ===== src/Cmd/State.antt =====
-- The subcommands that work on a state file alone (`purge` and `init` of
-- crates/pid-ctl/src/cmd/cmd_state.rs). Printing, and the messages on stderr, are left out.
pub mod Purge
use pid_ctl.Prelude.{ℕ, String, Bool, Option, none, some, if◌then◌else◌}
use pid_ctl.Float.{Float, nought}
use pid_ctl.App.Snapshot.{StateSnapshot, StateStoreError, IoError, io, default_snapshot}
use pid_ctl.App.StateStore.{
  FilePath, Files, Json, World, loaded, load_failed, load, save, acquire_lock,
}

-- Why a command ends with exit code 1.
pub data StateError : Type 0 where
  store : StateStoreError → StateError
  file_not_found : StateError
  not_removed : IoError → StateError

module _ {F : Type 0} ⦃float : Float F⦄ where
  -- The snapshot with its runtime fields cleared.
  unfoldable pub purged : StateSnapshot F → String → StateSnapshot F
  purged s now = record {
    schema_version = s.schema_version;
    name = s.name;
    kp = s.kp;
    ki = s.ki;
    kd = s.kd;
    setpoint = s.setpoint;
    out_min = s.out_min;
    out_max = s.out_max;
    effective_sp = none;
    target_sp = none;
    i_acc = nought;
    last_error = none;
    last_cv = none;
    last_pv = none;
    iter = 0;
    created_at = s.created_at;
    updated_at = some now;
  }

  unfoldable pub fresh : String → StateSnapshot F
  fresh now = record default_snapshot { created_at = some now; updated_at = some now }

  module _ {D : Type 0} (files : Files D) (format : Json F) where
    -- The result of `save`, as the commands pass it on.
    abbrev pub stored : Option StateStoreError × World D → Option StateError × World D
    stored r = elim r.0 [ none ↦ (none, r.1) | some e ↦ (some (store e), r.1) ]

    -- `run_purge`: the error, if any. The lock comes before the state is read.
    unfoldable pub run_purge : FilePath → String → World D → Option StateError × World D
    run_purge path now w =
        let (refused, disk) = acquire_lock files path w.disk in
        let w' = record w { disk = disk } in
        elim refused [
          | some e ↦ (some (store e), w')
          | none ↦ elim (load files format path disk) [
            | load_failed e ↦ (some (store e), w')
            | loaded none ↦ (some file_not_found, w')
            | loaded (some s) ↦ stored (save files format path (purged s now) w')
          ]
        ]

    -- `run_init`; `exists` is `Path::exists`.
    unfoldable pub run_init :
        (FilePath → D → Bool) → FilePath → String → World D → Option StateError × World D
    run_init exists path now w =
        let (refused, disk) = acquire_lock files path w.disk in
        let w' = record w { disk = disk } in
        elim refused [
          | some e ↦ (some (store e), w')
          | none ↦
              let (fault, emptied) =
                if exists path disk then files.remove_file path disk else (none, disk) in
              elim fault [
                | some e ↦ (some (not_removed e), record w { disk = emptied })
                | none ↦ stored (save files format path (fresh now) (record w { disk = emptied }))
              ]
        ]
