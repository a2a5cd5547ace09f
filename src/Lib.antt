-- ===== src/Lib.antt =====
-- pid-ctl: verification library.
--
-- pid-ctl is a command-line PID controller. A tick reads a process value (PV), takes one step of the
-- control law and writes a control value (CV) to an actuator; the state is kept in a JSON snapshot, so
-- that the controller survives a restart. An operator can change gains and setpoint while the loop
-- runs, and a relay experiment proposes gains.
--
-- The parts, and the files that model them (paths of the sources from the repository's root):
--
--   Core      crates/pid-ctl-core/src/lib.rs. `Core/Config` is `PidConfig` and its validation,
--             `Core/Controller` is `PidController`: `step` is the composition of `filtered_pv`,
--             `next_effective_sp`, `d_term`, `apply_anti_windup`, `f64::clamp`, `apply_slew_rate` and
--             the writes at its end (`finish`). `tracking_time` is `anti_windup_tt`.
--   Schedule  crates/pid-ctl/src/schedule.rs.
--   App       crates/pid-ctl/src/app. `App/Snapshot` and `App/StateStore` are state_store.rs,
--             `App/Persister` is snapshot_persister.rs, `App/Records` and `App/Session` are mod.rs,
--             `App/Events` is logger.rs with json_events.rs, `App/LoopRuntime` is loop_runtime.rs with
--             defaults.rs and the controls of cli/types.rs, `App/Ticker` is ticker.rs,
--             `App/SocketDispatch` is socket_dispatch.rs with the messages of socket.rs.
--   Adapters  crates/pid-ctl/src/adapters/mod.rs. `Adapters/Command` is the command line of `CmdCvSink`,
--             `Adapters/Process` the wait for a child process (`wait_child_deadline`) with the killing
--             of one (`kill_child_process_tree`, `reap_child_after_kill`),
--             `Adapters/Readers` and `Adapters/Writers` are the PV sources and the CV sinks, and
--             `Adapters/Build` is app/adapters_build.rs with `resolve_pv` of cli/parse.rs;
--             `Adapters/Ends` says when a command that is run returns.
--   Cli       crates/pid-ctl/src/cli. `Cli/Raw` is the structures of raw.rs, as clap fills them, and
--             `Cli/Args` those of types.rs with the sources and sinks of app/adapters_build.rs;
--             `Cli/Sources` is the methods of raw.rs, `parse_duration_flag` and the feed-forward
--             sources of parse.rs; `Cli/Parse` is `resolve_pid_config` and the runtime controls;
--             `Cli/Commands` is `parse_once`, `parse_pipe`, `parse_loop`, `parse_replay`,
--             `parse_autotune` and `parse_status_flags`; `Cli/Outcome` is the errors they end in.
--   Cmd       crates/pid-ctl/src/cmd. `Cmd/Loop` is cmd_loop.rs: the state of `run_loop`, what an iteration
--             reads and the sleep with its socket; `Cmd/Loop/Steps` is the body of the loop (`iterate`,
--             `wake`, `measure`, `tick_with` in turn) and `run`, the loop itself. The other children
--             prove things about runs. `Cmd/Replay` is cmd_replay.rs, `Cmd/Once` cmd_once.rs,
--             `Cmd/Pipe` cmd_pipe.rs, `Cmd/Autotune` cmd_autotune.rs, and `Cmd/State` the commands
--             `purge` and `init` of cmd_state.rs.
--   Autotune  crates/pid-ctl/src/autotune.rs.
--   Tune      crates/pid-ctl/src/tune. `Tune/Distance` and `Tune/Suggest` are `levenshtein`
--             and `fuzzy_command_names` of input.rs,
--             `Tune/Model` the histories and annotations of the plots of model.rs.
--   Sim       crates/pid-ctl-sim/src/plant.rs and state.rs.
--   Float     the machine's f64, as a parameter; `Float/Fixed` is one instance, with three decimals.
--   Prelude   numbers, Booleans, options and lists. `Tests` runs the definitions on concrete inputs.
--
-- How they interact. A session (`App/Session`) owns a controller of `Core`, a snapshot and a
-- persister; `process_pv` steps the controller, writes to the sink and persists the snapshot through
-- `App/Persister` and `App/StateStore`. The tick driver calls `process_pv`, logs, and counts the
-- failures of the sink. The socket's dispatcher and the loop's runtime change the session between
-- ticks. The loop sleeps until a deadline of `Schedule` while it serves the socket, measures the dt,
-- reads the PV, ticks, and stops on a shutdown or when a failure count reaches its limit. `once` ticks
-- a session a single time, with the sources and the sink that `Adapters/Build` makes of the arguments
-- that `Cli/Commands` has checked; `pipe` ticks it once for each line of stdin.
--
-- Conventions. Code that changes an object takes its state and returns the new one. `none` of a call
-- that returns an option is a panic of the Rust code (`f64::clamp` with bounds out of order,
-- `Duration::from_secs_f64` of a negative number), unless the Rust call itself returns an `Option`.
-- A command that is run (`read_cmd_pv`, `write_cmd_cv`) returns `none` where the Rust code does not
-- return: it reads the pipe of the process to its end without a deadline, after the process has exited
-- or has been killed, and another process may hold that pipe; or the polls never come to the deadline.
-- So do `once` and `autotune`, which run commands; the sink and the measurements of a loop are
-- parameters that return.
-- Instants and durations are numbers of nanoseconds. What a call reads from the clocks is an argument
-- (`Readings`). A result of the command line (`CliResult`) has a panic of its own. A text is the list
-- of its bytes, or of its characters where the code goes by characters.
--
-- Parameters. f64 is `Float F` with the laws `IsIeee F` of IEEE 754; printing and reading a number is
-- `FloatText F`; the file system is `Files D`, of which the proofs about atomic saves rely on
-- `IsPosix`; serde_json is `Json F`, and
-- what it reads back of a float that it has printed is `reread`; what the adapters write to and start processes with is
-- `Outside D` and its `Shell`; the actuator of a loop is `CvSink F S` and the observer of the ticks
-- `TickObserver F O`. The witnesses instantiate all of them.
--
-- Bounds and fuel. `u64` and `u32` counters saturate or wrap as the source writes it; the counts of
-- samples and cycles (usize) are unbounded. `Schedule.next_deadline_after_tick` gives its loop
-- `now + 2` rounds: with an interval of at least one nanosecond each round takes the deadline one
-- nanosecond further. `Adapters.Process.wait_child_deadline` gives its loop two rounds more than the
-- timeout has milliseconds: a round sleeps for one. `Cmd.Autotune.run_autotune` needs one round more
-- than there are intervals in the duration.
--
-- Not modelled: the texts of errors and of the messages on stderr, JSON texts and time stamps, the
-- reading of the command line by clap, what the operating system does with processes and sockets, the
-- commands `status`, `set`, `hold`, `resume`, `reset` and `save`, which print or send one request, the
-- keys of the dashboard and its drawing, and the command line of the simulator. A path has a file name
-- and no separator at its end.
pub mod Prelude
pub mod Float
pub mod Core
pub mod Schedule
pub mod Adapters
pub mod App
pub mod Autotune
pub mod Cli
pub mod Cmd
pub mod Tune
pub mod Sim
pub mod Tests
