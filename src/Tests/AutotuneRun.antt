-- ===== src/Tests/AutotuneRun.antt =====
-- The `autotune` command on concrete inputs.
use pid_ctl.Prelude.{
  ℕ, ◌*◌, ◌/◌, ◌^◌, suc, ◌≡◌, refl, arith, false, true, Option, none, some, [], ◌∷◌, All,
}
use pid_ctl.Float.{as_secs}
use pid_ctl.Float.Fixed.{Fixed, fixed_float, Fixed-IsIeee}
use pid_ctl.Autotune.{
  pid_rule, validate, new, set_pv_ref, tick, begin_tick, track, crosses, result, best_estimates,
  settlement_check,
}
use pid_ctl.App.StateStore.{World}
use pid_ctl.Adapters.Command.{build_command}
use pid_ctl.Adapters.Process.{wait_child_deadline, wait_from, verdict}
use pid_ctl.Adapters.Readers.{read_cmd_pv, after_wait, number_in}
use pid_ctl.Adapters.Writers.{write_cmd_cv, delivered}
use pid_ctl.Cli.Raw.{AutotuneRawArgs, TuningRuleArg}
use pid_ctl.Cli.Sources.{tuning_rule}
use pid_ctl.Cli.Commands.{parse_autotune, validated}
use pid_ctl.Cli.Args.{AutotuneArgs}
use pid_ctl.Cmd.Once.{Exit, code}
use pid_ctl.Cmd.Autotune.{
  Round, TuneState, config_of, warmup_ticks, read_pv, write_output, warmup, warmup_round,
  tick_engine, relay_tick, relay_round, relay_from, conclude, run_autotune,
}
use pid_ctl.Cmd.Autotune.Ends.{run_autotune-Ends}
use pid_ctl.Cmd.Autotune.Warmup.{InLimits}
use pid_ctl.Cmd.Autotune.Limits.{autotune_within_limits}
use pid_ctl.Tests.Fixtures.{Disk, disk_files, codec, empty_disk, empty_world, num}
use pid_ctl.Tests.Outside.{sevens, outside, outside-IsPrompt}

-- A test of twenty seconds with a tick each ten.
abbrev raw : AutotuneRawArgs Fixed
raw = record {
  pv_cmd = b'p' ∷ [];
  cv_cmd = b'c' ∷ [];
  bias = num 50;
  amp = num 10;
  duration = 20 * 10 ^ 9;
  rule = TuningRuleArg.pid;
  out_min = num 0;
  out_max = num 100;
  interval = 10 ^ 10;
  cmd_timeout = none;
  cv_precision = 2;
  state = none;
}

abbrev tune_args : AutotuneArgs Fixed
tune_args = record {
  pv_cmd = b'p' ∷ [];
  cv_cmd = b'c' ∷ [];
  bias = num 50;
  amp = num 10;
  duration = 20 * 10 ^ 9;
  rule = pid_rule;
  out_min = num 0;
  out_max = num 100;
  interval = 10 ^ 10;
  cmd_timeout = 5 * 10 ^ 9;
  cv_precision = 2;
  state = none;
}

abbrev prompt : ℕ → Round
prompt n = record { shutdown = false; now = 0; late = 0 }

abbrev quiet_start : TuneState Fixed Disk
quiet_start = record { outside = empty_disk; outputs = []; events = []; printed = none }

-- The two ticks that come before the end of the duration.
abbrev tuned : Option (Exit × TuneState Fixed Disk × World Disk)
tuned =
    run_autotune sevens outside tune_args disk_files codec (λ x. 0) (λ n. false) prompt 0 0 true 3
      empty_disk empty_world

abbrev or_quiet :
    Option (Exit × TuneState Fixed Disk × World Disk) → Exit × TuneState Fixed Disk × World Disk
or_quiet none = (code 0, quiet_start, empty_world)
or_quiet (some q) = q

run_autotune-Ends_example :
    (q : Exit × TuneState Fixed Disk × World Disk) × (run_autotune sevens outside tune_args
        disk_files codec
        (λ x. 0)
        (λ n. false)
        prompt
        7
        8
        true
        (suc (tune_args.duration / tune_args.interval))
        empty_disk
        empty_world
      ≡ some q)
run_autotune-Ends_example =
    run_autotune-Ends sevens outside tune_args outside-IsPrompt disk_files codec (λ x. 0)
      (λ n. false) prompt 7 8 true empty_disk empty_world (omega arith)

autotune_within_limits_example : All (InLimits (config_of tune_args)) (or_quiet tuned).1.outputs
unfolding run_autotune warmup warmup_round warmup_ticks read_pv write_output tick_engine relay_tick
    relay_round relay_from conclude read_cmd_pv after_wait number_in write_cmd_cv delivered
    build_command wait_child_deadline wait_from verdict new set_pv_ref tick begin_tick track crosses
    result best_estimates settlement_check parse_autotune validated validate tuning_rule as_secs
    disk_files fixed_float
autotune_within_limits_example =
    autotune_within_limits Fixed-IsIeee sevens outside disk_files codec raw tune_args (λ x. 0)
      (λ n. false) prompt 0 0 true 3 empty_disk empty_world (or_quiet tuned) refl
      (record {
        low_limit = refl;
        high_limit = refl;
        low_output = refl;
        high_output = refl;
        amplitude = refl;
      })
      refl
