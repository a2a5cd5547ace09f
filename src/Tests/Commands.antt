-- ===== src/Tests/Commands.antt =====
-- The flags, the state file and the fuzzy match on concrete inputs.
use pid_ctl.Prelude.{ℕ, ◌≤◌, ◌≡◌, ◌↔◌, refl, inl, some, none, [], ◌>>=◌, ◌∷◌}
use pid_ctl.Float.{clamp, as_secs}
use pid_ctl.Float.Fixed.{Fixed, fixed_float}
use pid_ctl.Core.Controller.{finish}
use pid_ctl.App.Snapshot.{StateSnapshot, validate}
use pid_ctl.App.StateStore.{Json, load, from_json_str}
use pid_ctl.App.Session.{build_snapshot, set_flush_interval}
use pid_ctl.App.LoopRuntime.{LoopRuntimeConfig, explicit, default, value, apply_runtime_interval}
use pid_ctl.Cli.Outcome.{ok}
use pid_ctl.Cli.Parse.{RuntimeFlags, resolve_pid_config, runtime_controls}
use pid_ctl.Cli.Parse.Resume.{other_flags, resolve_resumes, interval_reparses}
use pid_ctl.Tune.Distance.{Chars, levenshtein, first_row, sweep, next_row, last_row, last}
use pid_ctl.Tune.Distance.Least.{Edits, levenshtein_least}
use pid_ctl.Tests.Fixtures.{
  num, pi_config, controller_of, input_at, session_of, snapshot_of, disk_files, readings,
  state_path, put, empty_disk, Disk,
}

abbrev hold_word : Chars
hold_word = b'h' ∷ b'o' ∷ b'l' ∷ b'd' ∷ []

abbrev bolt_word : Chars
bolt_word = b'b' ∷ b'o' ∷ b'l' ∷ b't' ∷ []

levenshtein_least_example : ((k : ℕ) × (k ≤ 2) × Edits hold_word bolt_word k) ↔ (2 ≤ 2)
unfolding levenshtein first_row sweep next_row last_row last
levenshtein_least_example = levenshtein_least hold_word bolt_word 2

-- A snapshot that a step has built, and a codec that reads it.
abbrev built : StateSnapshot Fixed
built =
    build_snapshot (controller_of pi_config) (snapshot_of 0 0)
      (finish (controller_of pi_config) (input_at 40 1 50) (num 10) (num 10) (num 30)).1 (num 30)
      readings

abbrev reader : Json Fixed
reader = record { to_string_pretty = λ s. none; from_str = λ t. some built }

abbrev stored : Disk
stored = put state_path (some (65 ∷ [])) empty_disk

resolve_resumes_example :
    resolve_pid_config disk_files reader (other_flags pi_config) (some state_path) stored
    ≡ ok (record pi_config { tt_upper_bound = none })
unfolding load from_json_str validate disk_files build_snapshot fixed_float
resolve_resumes_example =
    resolve_resumes disk_files reader state_path stored (controller_of pi_config) (snapshot_of 0 0)
      (finish (controller_of pi_config) (input_at 40 1 50) (num 10) (num 10) (num 30)).1 (num 30)
      readings refl (inl refl) (inl refl)

abbrev flags : RuntimeFlags Fixed
flags = record {
  interval = some 1000000000;
  max_dt = none;
  pv_stdin_timeout = some 7;
  state_write_interval = none;
}

abbrev controls : LoopRuntimeConfig Fixed
controls = record {
  interval = 1000000000;
  max_dt = default (num 3);
  pv_stdin_timeout = explicit 7;
  state_write_interval = default (some 1000000000);
}

interval_reparses_example : apply_runtime_interval (session_of pi_config) controls 2000000000 ≡ (
    runtime_controls flags 2000000000 >>= λ c.
    some (set_flush_interval (session_of pi_config) (value c.state_write_interval), c))
unfolding runtime_controls clamp as_secs fixed_float
interval_reparses_example =
    interval_reparses flags 1000000000 2000000000 (session_of pi_config) controls refl
