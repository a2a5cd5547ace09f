-- ===== src/Tests/OnceRun.antt =====
-- The `once` command on concrete inputs.
use pid_ctl.Prelude.{◌≡◌, ◌≢◌, ◌⊎◌, refl, false, true, Option, none, some, [], ◌∷◌, ◌>>=◌}
use pid_ctl.Float.{clamp}
use pid_ctl.Float.Fixed.{Fixed, fixed_float}
use pid_ctl.App.Snapshot.{
  StateSnapshot, IoError, not_found, validate, runtime_state, default_snapshot,
}
use pid_ctl.App.StateStore.{
  Json, load, loaded, err, acquire_lock, lock_path, save, save_text, write_and_rename, ◌andthen◌,
  at_path, clean_up, temp_path,
}
use pid_ctl.App.Records.{ControllerSession, resolve_controller_name}
use pid_ctl.Core.Config
use pid_ctl.Core.Controller
use pid_ctl.Core.Controller.{
  step, apply_anti_windup, tracking_time, apply_slew_rate, finish, d_term, filtered_pv,
  next_effective_sp, restore_state,
}
use pid_ctl.App.Persister.{persist, is_coalesced, attempt, after_save, new_persister}
use pid_ctl.App.Session.{
  new, start_session, process_pv, apply_step, build_snapshot, new_record, persist_snapshot,
}
use pid_ctl.App.Events.{open_log, write_iteration_line}
use pid_ctl.Adapters.Writers.{write_stdout_cv}
use pid_ctl.Adapters.Build.{resolve_pv, resolve_once_ff, build_cv_mode_sink, build_cv_sink}
use pid_ctl.Cli.Args.{
  OnceArgs, OncePvSource, OnceFfSource, CvMode, CvSinkConfig, OutputFormat, once_session,
}
use pid_ctl.Cmd.Once.{
  Exit, OnceInputs, OnceWorld, run_once, tick_once, finish_once, report, resolve_once_dt,
}
use pid_ctl.Cmd.Once.Saved.{once_sink, once_saved}
use pid_ctl.Tests.Fixtures.{
  Disk, disk_files, disk-IsPosix, state_path, empty_disk, empty_world, num, pi_config, readings,
  session_of,
}
use pid_ctl.Tests.Outside.{sevens, outside}

abbrev once_args : OnceArgs Fixed
once_args = record {
  pv_source = OncePvSource.literal (num 40);
  ff_source = OnceFfSource.zero_ff;
  cmd_timeout = 5000000000;
  pv_cmd_timeout = 5000000000;
  dt = num 1;
  dt_explicit = true;
  min_dt = num 0;
  max_dt = num 60;
  output_format = OutputFormat.json;
  cv_mode = CvMode.sink CvSinkConfig.stdout;
  pid_config = pi_config;
  state_path = some state_path;
  name = none;
  reset_accumulator = false;
  scale = num 1;
  cv_precision = 2;
  log_path = none;
}

abbrev once_inputs : OnceInputs Fixed
once_inputs = record {
  stem = some "s";
  log = some none;
  since_update = none;
  print_fails = none;
  clocks = readings;
}

-- A codec that reads one snapshot, which is to be the one that is stored.
abbrev codec_of : Option (StateSnapshot Fixed) → Json Fixed
codec_of s = record { to_string_pretty = λ t. some (0 ∷ []); from_str = λ t. s }

abbrev ran : Json Fixed → Option (Exit × OnceWorld Fixed Disk Disk)
ran format = run_once sevens disk_files format outside once_args once_inputs empty_disk empty_world

abbrev session_left : Option (Exit × OnceWorld Fixed Disk Disk) → Option (ControllerSession Fixed)
session_left none = none
session_left (some (e, x)) = x.session

abbrev snapshot_left : Option (StateSnapshot Fixed)
snapshot_left = session_left (ran (codec_of none)) >>= λ s. some s.snapshot

abbrev world_left : Option (Exit × OnceWorld Fixed Disk Disk) → OnceWorld Fixed Disk Disk
world_left none = record {
  outside = empty_disk;
  world = empty_world;
  session = none;
  logger = none;
  printed = none;
}
world_left (some (e, x)) = x

abbrev or_start : Option (ControllerSession Fixed) → ControllerSession Fixed
or_start none = session_of pi_config
or_start (some s) = s

abbrev left : OnceWorld Fixed Disk Disk
left = world_left (ran (codec_of snapshot_left))

abbrev held : ControllerSession Fixed
held = or_start left.session

once_saved_example :
    ((cv : Fixed) × (before : Disk) × ((once_sink sevens disk_files
            (codec_of snapshot_left)
            outside
            once_args).write_cv
          cv
          (some before)
        ≡ (none, some left.outside))
      × (held.snapshot.last_cv ≡ some cv))
    × ((load disk_files (codec_of snapshot_left) state_path left.world.disk
          ≡ loaded (some held.snapshot))
        ⊎ ((e : IoError) × (disk_files.read_to_string state_path left.world.disk ≡ err e)
            × (e ≢ not_found)))
unfolding run_once tick_once finish_once report resolve_once_dt new once_session acquire_lock
    lock_path load start_session Controller.new Config.validate restore_state runtime_state
    resolve_controller_name new_persister resolve_pv resolve_once_ff build_cv_mode_sink
    build_cv_sink write_stdout_cv open_log write_iteration_line process_pv apply_step build_snapshot
    new_record persist_snapshot persist is_coalesced attempt after_save save validate save_text
    write_and_rename ◌andthen◌ at_path clean_up temp_path step apply_anti_windup tracking_time
    apply_slew_rate finish d_term filtered_pv next_effective_sp clamp default_snapshot disk_files
    fixed_float
once_saved_example =
    once_saved sevens disk_files (codec_of snapshot_left) outside disk-IsPosix once_args once_inputs
      empty_disk empty_world left state_path held refl refl refl (λ text e. refl)
