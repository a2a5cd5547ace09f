-- ===== src/Tests/Sessions.antt =====
-- Sessions and ticks on concrete inputs.
use pid_ctl.Prelude.{ℕ, ◌≡◌, ◌+◌, min, refl, arith, Option, some, none, true, false, List, [], ◌∷◌}
use pid_ctl.Float.{clamp, nought}
use pid_ctl.Float.Fixed.{Fixed, fixed_float}
use pid_ctl.Core.Config as Config
use pid_ctl.Core.Controller.{
  PidController, StepResult, step, apply_anti_windup, tracking_time, apply_slew_rate, finish,
  d_term, filtered_pv, next_effective_sp, ramp_toward, restore_state,
}
use pid_ctl.Core.Controller
use pid_ctl.App.Snapshot.{other, runtime_state}
use pid_ctl.App.Persister.{new_persister}
use pid_ctl.App.Records.{u64_max, ControllerSession, resolve_controller_name}
use pid_ctl.App.Session.{
  start_session, session_input, process_pv, apply_step, persist_snapshot, build_snapshot,
  new_record, on_dt_skipped,
}
use pid_ctl.App.Session
use pid_ctl.App.Session.Invariant.{
  Mirrors, Op, gains, resets, ticks, skips, perform, perform_all, perform_all-Mirrors, Running,
}
use pid_ctl.App.Session.Ticks.{process_pv_refused}
use pid_ctl.App.Session.Restart.{restart_continues, reset_accumulator_stale}
use pid_ctl.App.LoopRuntime.{default}
use pid_ctl.App.Ticker.{TickObserver, TickContext, Loop, TickStepResult}
use pid_ctl.App.Ticker as Ticker
use pid_ctl.App.Ticker.Exhaustion.{Counted, step-Counted}
use pid_ctl.App.SocketDispatch.{Live}
use pid_ctl.Tests.Fixtures.{
  num, thousandths, Disk, disk_files, codec, valve, readings, empty_world, snapshot_of, pid_config,
  session_of, session_config, state_path,
}

abbrev fresh : ControllerSession Fixed
fresh = session_of pid_config

abbrev ops : List (Op Fixed)
ops =
    ticks (num 40) (num 1) (num 0) readings
    ∷ gains (num 1) (num 1) (num 0)
    ∷ ticks (num 43) (num 1) (num 0) readings
    ∷ resets
    ∷ skips readings
    ∷ []

fresh-Mirrors : Mirrors fresh
fresh-Mirrors = record {
  i_acc = refl;
  last_pv = refl;
  last_error = refl;
  effective_sp = λ rate e. ground arith;
}

-- The session that a run leaves.
abbrev session_after : Option (Running disk_files codec valve) → ControllerSession Fixed
session_after none = fresh
session_after (some y) = y.0

perform_all-Mirrors_example :
    Mirrors (session_after (perform_all disk_files codec valve (fresh, num 90, empty_world) ops))
unfolding perform_all perform process_pv apply_step build_snapshot new_record persist_snapshot
    on_dt_skipped step apply_anti_windup tracking_time apply_slew_rate finish d_term filtered_pv
    next_effective_sp ramp_toward clamp valve Session.set_gains fixed_float
perform_all-Mirrors_example =
    perform_all-Mirrors disk_files codec valve fresh (num 90) empty_world ops fresh-Mirrors refl

abbrev shut : ControllerSession Fixed
shut = session_after (
    perform disk_files codec valve (fresh, num 20, empty_world)
      (ticks (num 40) (num 1) (num 0) readings))

process_pv_refused_example :
    ((out : PidController Fixed × StepResult Fixed) × (step fresh.controller
          (session_input fresh (num 40) (num 1) (num 0))
        ≡ some out)
      × (shut.controller ≡ out.0)
      × (valve.write_cv out.1.cv (num 20) ≡ (some (other "stuck"), num 20)))
    × (shut.snapshot.last_cv ≡ some (num 0))
    × ((session_input shut (num 40) (num 1) (num 0)).prev_applied_cv ≡ num 0)
    × (shut.snapshot.iter ≡ min (0 + 1) u64_max)
unfolding perform process_pv apply_step build_snapshot new_record persist_snapshot step
    apply_anti_windup tracking_time apply_slew_rate finish d_term filtered_pv next_effective_sp
    ramp_toward clamp valve fixed_float
process_pv_refused_example =
    process_pv_refused disk_files codec valve fresh (num 40) (num 1) (num 0) readings (num 20)
      empty_world refl

abbrev restarted : ControllerSession Fixed
restarted = record {
  controller = record fresh.controller { last_pv = none };
  snapshot = record (snapshot_of 0 0) { name = some "loop" };
  persister = new_persister (some state_path) (some state_path) none 3;
}

restart_continues_example :
    step restarted.controller (session_input restarted (num 40) (num 1) (num 0))
    ≡ step fresh.controller (session_input fresh (num 40) (num 1) (num 0))
unfolding start_session Controller.new Controller.restore_state runtime_state new_persister
    resolve_controller_name Config.validate step apply_anti_windup tracking_time apply_slew_rate
    finish d_term filtered_pv next_effective_sp ramp_toward clamp fixed_float
restart_continues_example =
    restart_continues disk_files codec fresh (session_config pid_config false) none
      (some state_path) (num 40) (num 1) (num 0) fresh-Mirrors refl refl refl refl refl

abbrev reset_session : ControllerSession Fixed
reset_session = record {
  controller = record fresh.controller {
    next_d_term_skip_reason = some Config.DTermSkipReason.post_reset;
  };
  snapshot = record (snapshot_of 1500 2) { name = some "loop" };
  persister = new_persister (some state_path) (some state_path) none 3;
}

reset_accumulator_stale_example :
    (num 0 ≡ nought)
    × (thousandths 1500 ≡ thousandths 1500)
    × ((on_dt_skipped disk_files codec reset_session readings empty_world).1.snapshot.i_acc
        ≡ thousandths 1500)
unfolding start_session Controller.new Controller.restore_state Controller.reset_integral
    runtime_state new_persister resolve_controller_name Config.validate fixed_float
reset_accumulator_stale_example =
    reset_accumulator_stale disk_files codec (session_config pid_config true) none
      (snapshot_of 1500 2) (some state_path) readings empty_world refl refl

abbrev live : Live Fixed Disk
live = record {
  session = fresh;
  controls = record {
    interval = 1_000_000_000;
    max_dt = default (num 3);
    pv_stdin_timeout = default 7;
    state_write_interval = default none;
  };
  logger = record { file = none; suppress_stderr = false; stderr = [] };
  world = empty_world;
}

abbrev silent : TickObserver Fixed ℕ
silent = record { on_success = λ o n. n; on_cv_fail = λ e c n. n }

abbrev context : TickContext Fixed
context = record {
  scaled_pv = num 40;
  dt = num 1;
  ff = num 0;
  state_path = none;
  cv_fail_after = 2;
  safe_cv = some (num 5);
}

abbrev stuck_loop : Loop Fixed Fixed Disk ℕ
stuck_loop = record {
  session = fresh;
  sink = num 20;
  logger = live.logger;
  world = empty_world;
  cv_fail_count = 1;
  observer = 0;
}

step-Counted_example : Counted {F = Fixed} 2 1 2 (Ticker.cv_fail_exhausted (other "stuck"))
unfolding Ticker.step Ticker.settle Ticker.on_refused process_pv apply_step build_snapshot
    new_record persist_snapshot step apply_anti_windup tracking_time apply_slew_rate finish d_term
    filtered_pv next_effective_sp ramp_toward clamp valve fixed_float
step-Counted_example =
    step-Counted disk_files codec valve silent context stuck_loop readings readings (omega arith)
      refl
