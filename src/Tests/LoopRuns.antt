-- ===== src/Tests/LoopRuns.antt =====
-- The loop on concrete readings.
use pid_ctl.Prelude.{
  ℕ, suc, ◌+◌, ◌*◌, ◌<◌, ◌≡◌, ◌≢◌, ◌⊎◌, refl, arith, some, none, true, false, List, [], ◌∷◌,
  unwrap_or,
}
use pid_ctl.Float.{clamp, as_secs}
use pid_ctl.Float.Fixed.{Fixed, fixed_float}
use pid_ctl.Core.Controller.{
  step, apply_anti_windup, tracking_time, apply_slew_rate, finish, d_term, filtered_pv,
  next_effective_sp, ramp_toward,
}
use pid_ctl.App.Session.Invariant.{Mirrors}
use pid_ctl.App.Snapshot.{IoError, StateStoreError, not_found, other}
use pid_ctl.App.StateStore.{load, loaded, err}
use pid_ctl.App.Events.{write_event, write_iteration_line, state_write_failed}
use pid_ctl.App.LoopRuntime.{
  default, millis_round_u64, apply_measured_dt, write_safe_cv, flush_state_at_shutdown,
}
use pid_ctl.App.Ticker.{
  TickObserver, Loop, settle, on_ticked, on_refused, log_skip, log_write_failure,
}
use pid_ctl.App.Ticker as Ticker
use pid_ctl.App.SocketDispatch.{hold, handle_socket_request}
use pid_ctl.Cmd.Loop.{
  LoopArgs, LoopState, begin, Inputs, Iteration, continues, request, rejected, pv_ok, pv_error,
}
use pid_ctl.Cmd.Loop.{log_interval_slip, sleep_until_next_deadline, sleep_with_socket, service}
use pid_ctl.Cmd.Loop.Steps.{
  iterate, run, finalize_shutdown, wake, measure, noted, resolve_tick_dt, resolve, resolved,
  tick_with, read_pv_with_escalation, escalate, pv_failed, write_safe, conclude, after_tick,
  proceed,
}
use pid_ctl.Schedule.{next_deadline_after_tick}
use pid_ctl.App.Session.{
  process_pv, apply_step, build_snapshot, new_record, persist_snapshot, record_confirmed_cv,
  flush_session,
}
use pid_ctl.App.Persister.{persist, attempt, after_save, is_coalesced}
use pid_ctl.Cmd.Loop.Invariant.{state_of}
use pid_ctl.Cmd.Loop.Runs.{run-Mirrors}
use pid_ctl.Cmd.Loop.Sleep.{SameTicks, hold_freezes}
use pid_ctl.Cmd.Loop.Safety.{SafeWritten, is_over, iterate_ends_safe}
use pid_ctl.Cmd.Loop.Limits.{Limited, run-Limited}
use pid_ctl.Cmd.Loop.Shutdown.{shutdown_persists}
use pid_ctl.Tests.Fixtures.{
  num, pi_config, controller_of, disk_files, disk-IsPosix, codec, valve, readings, state_path,
  empty_world, snapshot_of, persister, Disk,
}

abbrev silent : TickObserver Fixed ℕ
silent = record { on_success = λ o n. suc n; on_cv_fail = λ e c n. n }

abbrev args : LoopArgs Fixed
args = record {
  scale = num 1;
  min_dt = num 0;
  dt_clamp = false;
  state_path = some state_path;
  safe_cv = some (num 50);
  cv_fail_after = 2;
  fail_after = some 1;
  max_iterations = none;
  has_socket = true;
}

abbrev start : LoopState Fixed Fixed Disk ℕ
start = record {
  ticking = record {
    session = record {
      controller = controller_of pi_config;
      snapshot = snapshot_of 0 0;
      persister = persister;
    };
    sink = num 90;
    logger = record { file = none; suppress_stderr = false; stderr = [] };
    world = empty_world;
    cv_fail_count = 0;
    observer = 0;
  };
  controls = record {
    interval = 1000000000;
    max_dt = default (num 60);
    pv_stdin_timeout = default 1000000000;
    state_write_interval = default none;
  };
  hold = false;
  pv_fail_count = 0;
  next_deadline = 1000000000;
  last_tick = 0;
}

abbrev inputs : Inputs Fixed
inputs = record {
  shutdown_before = false;
  sleep_from = 0;
  chunks = record { now = 0; shutdown = false; connections = rejected ∷ [] } ∷ [];
  shutdown_after = false;
  now = 1000000000;
  pv = pv_ok (num 40);
  ff = none;
  at_skip = readings;
  at_pv_failure = readings;
  at_tick = readings;
  at_cv_failure = readings;
  at_safe_cv = readings;
  at_flush = readings;
}

-- A tick, then a read that fails, which is one too many.
abbrev two : List (Inputs Fixed)
two = inputs ∷ record inputs { pv = pv_error (other "gone"); now = 2000000000 } ∷ []

abbrev outcome : Iteration (LoopState Fixed Fixed Disk ℕ)
outcome = unwrap_or (run disk_files codec valve silent args two start) (continues start)

start-Mirrors : Mirrors start.ticking.session
start-Mirrors = record {
  i_acc = refl;
  last_pv = refl;
  last_error = refl;
  effective_sp = λ rate e. ground arith;
}

ran : run disk_files codec valve silent args two start ≡ some outcome
unfolding run iterate sleep_until_next_deadline sleep_with_socket service wake
    next_deadline_after_tick measure noted resolve_tick_dt resolve resolved tick_with
    read_pv_with_escalation escalate pv_failed write_safe conclude after_tick finalize_shutdown
    proceed log_interval_slip millis_round_u64 apply_measured_dt write_safe_cv Ticker.step settle
    on_ticked on_refused log_skip log_write_failure process_pv apply_step build_snapshot new_record
    persist_snapshot persist attempt after_save is_coalesced record_confirmed_cv write_event
    write_iteration_line step apply_anti_windup tracking_time apply_slew_rate finish d_term
    filtered_pv next_effective_sp ramp_toward clamp as_secs valve fixed_float disk_files codec
ran = refl

run-Mirrors_example : Mirrors (state_of outcome).ticking.session
run-Mirrors_example = run-Mirrors disk_files codec valve silent args two start start-Mirrors ran

-- The same run, from the start of the loop.
begun :
    run disk_files codec valve silent args two (begin start.ticking start.controls 0 0)
    ≡ some outcome
unfolding begin
begun = ran

run-Limited_example : Limited args outcome
run-Limited_example =
    run-Limited disk_files codec valve silent args two start.ticking start.controls 0 0 begun

-- The second of the two iterations, from the state at the start.
abbrev gone : Inputs Fixed
gone = record inputs { pv = pv_error (other "gone") }

abbrev given_up : Iteration (LoopState Fixed Fixed Disk ℕ)
given_up = unwrap_or (iterate disk_files codec valve silent args gone start) (continues start)

gave_up : iterate disk_files codec valve silent args gone start ≡ some given_up
unfolding run iterate sleep_until_next_deadline sleep_with_socket service wake
    next_deadline_after_tick measure noted resolve_tick_dt resolve resolved tick_with
    read_pv_with_escalation escalate pv_failed write_safe conclude after_tick finalize_shutdown
    proceed log_interval_slip millis_round_u64 apply_measured_dt write_safe_cv Ticker.step settle
    on_ticked on_refused log_skip log_write_failure process_pv apply_step build_snapshot new_record
    persist_snapshot persist attempt after_save is_coalesced record_confirmed_cv write_event
    write_iteration_line step apply_anti_windup tracking_time apply_slew_rate finish d_term
    filtered_pv next_effective_sp ramp_toward clamp as_secs valve fixed_float disk_files codec
gave_up = refl

gave_up_is_over : is_over given_up ≡ true
unfolding run iterate sleep_until_next_deadline sleep_with_socket service wake
    next_deadline_after_tick measure noted resolve_tick_dt resolve resolved tick_with
    read_pv_with_escalation escalate pv_failed write_safe conclude after_tick finalize_shutdown
    proceed log_interval_slip millis_round_u64 apply_measured_dt write_safe_cv Ticker.step settle
    on_ticked on_refused log_skip log_write_failure process_pv apply_step build_snapshot new_record
    persist_snapshot persist attempt after_save is_coalesced record_confirmed_cv write_event
    write_iteration_line step apply_anti_windup tracking_time apply_slew_rate finish d_term
    filtered_pv next_effective_sp ramp_toward clamp as_secs valve fixed_float disk_files codec
gave_up_is_over = refl

iterate_ends_safe_example :
    SafeWritten disk_files codec valve
      (num 50)
      (state_of given_up).ticking.session
      (state_of given_up).ticking.sink
iterate_ends_safe_example =
    iterate_ends_safe disk_files codec valve silent args gone start given_up (num 50) refl gave_up
      gave_up_is_over

-- A `hold` arrives while the loop sleeps.
abbrev holding : Inputs Fixed
holding = record inputs {
  chunks = record { now = 0; shutdown = false; connections = request hold readings ∷ [] } ∷ [];
}

abbrev held_state : LoopState Fixed Fixed Disk ℕ
held_state = record start { hold = true }

hold_freezes_example :
    SameTicks start held_state
    × (next : ℕ) × (iterate disk_files codec valve silent args holding start
        ≡ some (continues (record held_state { next_deadline = next })))
    × (1000000000 < next)
    × (k : ℕ) × (next ≡ 1000000000 + suc k * 1000000000)
unfolding sleep_until_next_deadline sleep_with_socket service handle_socket_request
hold_freezes_example =
    hold_freezes disk_files codec valve silent args holding start held_state refl refl refl refl
      (omega arith)

-- The actuator refuses the safe output, and the snapshot stays as it is.
abbrev stopping : LoopState Fixed Fixed Disk ℕ
stopping = record start {
  ticking = record start.ticking {
    sink = num 20;
    session = record start.ticking.session { snapshot = snapshot_of 1500 3 };
  };
}

abbrev stopped_state : LoopState Fixed Fixed Disk ℕ
stopped_state = finalize_shutdown disk_files codec valve args inputs stopping

shutdown_persists_example :
    ((e : StateStoreError) × (stopped_state.ticking.logger
        ≡ write_event stopping.ticking.logger (state_write_failed state_path e)))
    ⊎ (load disk_files codec state_path stopped_state.ticking.world.disk
        ≡ loaded (some (snapshot_of 1500 3)))
    ⊎ ((e : IoError) × (disk_files.read_to_string state_path stopped_state.ticking.world.disk
          ≡ err e)
        × (e ≢ not_found))
unfolding codec valve fixed_float finalize_shutdown flush_state_at_shutdown flush_session write_safe
    write_safe_cv
shutdown_persists_example =
    shutdown_persists disk_files codec valve disk-IsPosix args inputs stopping state_path refl refl
      (λ text e. ground (arith, e))
