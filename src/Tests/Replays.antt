-- ===== src/Tests/Replays.antt =====
-- A tick that is logged and replayed.
use pid_ctl.Prelude.{◌≡◌, refl, Option, some, none, false, List, [], ◌∷◌}
use pid_ctl.Float.{clamp, nought}
use pid_ctl.Float.Fixed.{Fixed, nan, bottom, top, fin, fixed_float}
use pid_ctl.Core.Config.{validate, default_config}
use pid_ctl.Core.Controller.{
  new, restore_state, step, apply_anti_windup, tracking_time, apply_slew_rate, finish, d_term,
  filtered_pv, next_effective_sp, ramp_toward,
}
use pid_ctl.App.Snapshot.{default_snapshot, runtime_state}
use pid_ctl.App.Persister.{new_persister, persist, attempt, after_save, is_coalesced}
use pid_ctl.App.StateStore.{World}
use pid_ctl.App.Records.{
  ControllerSession, IterationRecord, session, init_failed, TickResult, TickOutcome, ticked,
  cv_write,
}
use pid_ctl.App.Session.{
  start_session, process_pv, apply_step, persist_snapshot, build_snapshot, new_record,
}
use pid_ctl.Cmd.Replay.{ReplayArgs, Replay, replayed, replay_config, run_replay}
use pid_ctl.Cmd.Replay.Records.{Logged, no_tick, tick}
use pid_ctl.Cmd.Replay.OwnLog.{lines_of, replay_own_log}
use pid_ctl.Tests.Fixtures.{
  num, pi_config, session_of, session_config, disk_files, codec, valve, readings, empty_world, Disk,
}

abbrev args : ReplayArgs Fixed
args = record {
  kp = num 2;
  ki = num 1;
  kd = num 0;
  out_min = num 0;
  out_max = num 100;
  diff = false;
}

abbrev begun : ControllerSession Fixed
begun =
    elim (start_session disk_files codec
      (session_config (record (replay_config args) { setpoint = num 50 }) false) none
      default_snapshot none) [ session s ↦ s | init_failed e ↦ session_of pi_config ]

begun_eq :
    start_session disk_files codec
      (session_config (record (replay_config args) { setpoint = num 50 }) false)
      none
      default_snapshot
      none
    ≡ session begun
unfolding start_session new validate default_config replay_config default_snapshot restore_state
    runtime_state new_persister fixed_float
begun_eq = refl

abbrev records : List (IterationRecord Fixed)
records =
    written (
      process_pv disk_files codec valve begun (num 40) (num 1) nought readings (num 90) empty_world)
  where
    written :
        Option (TickResult (TickOutcome Fixed) × ControllerSession Fixed × Fixed × World Disk)
        → List (IterationRecord Fixed)
    written none = []
    written (some (cv_write e, s, a, w)) = []
    written (some (ticked o, s, a, w)) = o.record_of ∷ []

logged : Logged disk_files codec valve begun (num 90) empty_world records
unfolding process_pv apply_step persist_snapshot persist attempt after_save is_coalesced
    build_snapshot new_record step apply_anti_windup tracking_time apply_slew_rate finish d_term
    filtered_pv next_effective_sp ramp_toward clamp valve start_session new validate default_config
    replay_config default_snapshot restore_state runtime_state new_persister fixed_float
logged = tick (num 40) (num 1) readings refl no_tick

-- What is not finite is not read back.
abbrev whole : Fixed → Option Fixed
whole nan = none
whole bottom = none
whole top = none
whole (fin z) = some (fin z)

replay_own_log_example :
    (y : Replay Fixed) × (run_replay args (lines_of whole "now" records) ≡ some (replayed y))
    × (y.output ≡ records)
unfolding process_pv apply_step persist_snapshot persist attempt after_save is_coalesced
    build_snapshot new_record step apply_anti_windup tracking_time apply_slew_rate finish d_term
    filtered_pv next_effective_sp ramp_toward clamp valve start_session new validate default_config
    replay_config default_snapshot restore_state runtime_state new_persister fixed_float
replay_own_log_example =
    replay_own_log whole disk_files codec valve refl args (num 50)
      (session_config (record (replay_config args) { setpoint = num 50 }) false) none none "now"
      refl refl refl begun_eq logged (refl, tt)
      (record { pv = refl; dt = refl; sp = refl; cv = refl; ff = refl }, tt)
