-- ===== src/Tests/PipeRun.antt =====
-- The `pipe` command on concrete inputs.
use pid_ctl.Prelude.{◌*◌, ◌^◌, ◌≡◌, refl, arith, false, Option, none, some, List, [], ◌∷◌}
use pid_ctl.Float.{clamp, as_secs}
use pid_ctl.Float.Fixed.{Fixed, fixed_float}
use pid_ctl.App.StateStore.{ok}
use pid_ctl.App.Events.{open_log, write_iteration_line}
use pid_ctl.App.LoopRuntime.{handle_dt_skip_state_write}
use pid_ctl.Core.Controller.{
  step, apply_anti_windup, tracking_time, apply_slew_rate, finish, d_term, filtered_pv,
  next_effective_sp,
}
use pid_ctl.App.Persister.{persist, is_coalesced}
use pid_ctl.App.Session.{process_pv, apply_step, build_snapshot, new_record, persist_snapshot}
use pid_ctl.Adapters.Readers.{trim, trim_start, is_whitespace}
use pid_ctl.Adapters.Writers.{write_stdout_cv}
use pid_ctl.Cli.Args.{PipeArgs}
use pid_ctl.Cmd.Once.{Exit, success}
use pid_ctl.Cmd.Pipe.{Arrival, PipeState, pipe_lines, pipe_line, pipe_text, tick_line, finish_line}
use pid_ctl.Cmd.Pipe.Lines.{Written, pipe_writes_each_line}
use pid_ctl.Cmd.Pipe.Flush.{pipe_unflushed}
use pid_ctl.Tests.Fixtures.{
  Disk, disk_files, codec, state_path, empty_disk, empty_world, num, pi_config, readings,
  session_of,
}
use pid_ctl.Tests.Outside.{sevens, outside}

abbrev pipe_args : PipeArgs Fixed
pipe_args = record {
  dt = num 1;
  pid_config = pi_config;
  state_path = some state_path;
  name = none;
  reset_accumulator = false;
  scale = num 1;
  cv_precision = 2;
  log_path = none;
  state_write_interval = some (10 ^ 9);
  state_fail_after = 10;
}

-- A number, a blank line and a number.
abbrev arrivals : List Arrival
arrivals =
    record { text = ok (b'5' ∷ []); now = 10 ^ 9; clocks = readings }
    ∷ record { text = ok (32 ∷ []); now = 2 * 10 ^ 9; clocks = readings }
    ∷ record { text = ok (b'6' ∷ 32 ∷ []); now = 3 * 10 ^ 9; clocks = readings }
    ∷ []

-- A pipe whose snapshot has been written at `readings.before_write`.
abbrev begun : PipeState Fixed Disk Disk
begun =
    let s = session_of pi_config in
    record {
      session = record s {
        persister = record s.persister {
          store = some state_path;
          flush_interval = some (10 ^ 9);
          last_flush = some readings.before_write;
        };
      };
      logger = open_log none;
      last_tick = none;
      outside = empty_disk;
      world = empty_world;
    }

abbrev or_begun : Option (Exit × PipeState Fixed Disk Disk) → PipeState Fixed Disk Disk
or_begun none = begun
or_begun (some (e, x)) = x

abbrev done : PipeState Fixed Disk Disk
done = or_begun (pipe_lines sevens disk_files codec outside pipe_args begun arrivals)

pipe_writes_each_line_example :
    Written sevens disk_files codec outside pipe_args begun done arrivals
unfolding pipe_lines pipe_line pipe_text tick_line finish_line write_stdout_cv open_log
    write_iteration_line handle_dt_skip_state_write trim trim_start is_whitespace process_pv
    apply_step build_snapshot new_record persist_snapshot persist is_coalesced step
    apply_anti_windup tracking_time apply_slew_rate finish d_term filtered_pv next_effective_sp
    clamp as_secs disk_files fixed_float
pipe_writes_each_line_example =
    pipe_writes_each_line sevens disk_files codec outside pipe_args begun done arrivals refl
      (omega arith)

pipe_unflushed_example : done.world ≡ empty_world
unfolding pipe_lines pipe_line pipe_text tick_line finish_line write_stdout_cv open_log
    write_iteration_line handle_dt_skip_state_write trim trim_start is_whitespace process_pv
    apply_step build_snapshot new_record persist_snapshot persist is_coalesced step
    apply_anti_windup tracking_time apply_slew_rate finish d_term filtered_pv next_effective_sp
    clamp as_secs disk_files fixed_float
pipe_unflushed_example =
    pipe_unflushed sevens disk_files codec outside pipe_args (10 ^ 9) readings.before_write begun
      arrivals (success, done) (refl, refl) (omega arith, (omega arith, (omega arith, tt))) refl
