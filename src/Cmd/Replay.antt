-- ===== src/Cmd/Replay.antt =====
-- The `replay` subcommand (crates/pid-ctl/src/cmd/cmd_replay.rs). A line of the log is what
-- `serde_json` finds in it; opening, reading and writing files is left out, and so are error texts.
pub mod Records
pub mod OwnLog
use text.Mathlib.Text.{◌==◌ as str_eq}
use pid_ctl.Prelude.{
  ℕ, suc, Bool, true, false, Option, none, some, List, [], ◌∷◌, ◌++◌, if◌then◌else◌, unwrap_or,
  is_some, ◌>>=◌, String, ◌==◌,
}
use pid_ctl.Float.{Float, nought, gt}
use pid_ctl.Core.Config.{PidConfig, default_config, ConfigError}
use pid_ctl.Core.Controller.{PidController, StepResult, set_setpoint, step, new, made, rejected}
use pid_ctl.App.Snapshot.{state_schema_version}
use pid_ctl.App.Records.{IterationRecord}

pub record ReplayArgs (F : Type 0) : Type 0 where
  pub kp : F
  pub ki : F
  pub kd : F
  pub out_min : F
  pub out_max : F
  pub diff : Bool

-- What `parse_log_line` asks of a JSON value: its fields, where they have the type that is asked for.
-- `has_event` and `has_iter` are whether it has such a field at all.
pub record LogObject (F : Type 0) : Type 0 where
  pub has_event : Bool
  pub has_iter : Bool
  pub pv : Option F
  pub dt : Option F
  pub sp : Option F
  pub cv : Option F
  pub iter : Option ℕ
  pub ts : Option String
  pub name : Option String
  pub ff : Option F

-- A line, trimmed.
pub data LogLine (F : Type 0) : Type 0 where
  blank : LogLine F
  not_json : LogLine F
  object : LogObject F → LogLine F

pub record LogRecord (F : Type 0) : Type 0 where
  pub iter : ℕ
  pub ts : String
  pub name : Option String
  pub pv : F
  pub sp : F
  pub dt : F
  pub ff : F
  pub original_cv : F

pub data LineError : Type 0 where
  invalid_json missing_pv missing_dt missing_sp missing_cv invalid_iter : LineError

-- `Result<Option<LogRecord>, CliError>`.
pub data Parsed (F : Type 0) : Type 0 where
  skipped : Parsed F
  parsed : LogRecord F → Parsed F
  malformed : LineError → Parsed F

pub record DiffAccumulator (F : Type 0) : Type 0 where
  pub n : ℕ
  pub sum_sq : F
  pub max : F

-- The variables of the loop of `run_replay`, and what is written.
pub record Replay (F : Type 0) : Type 0 where
  pub controller : PidController F
  pub prev_applied_cv : F
  pub diff_acc : DiffAccumulator F
  pub output : List (IterationRecord F)

pub data ReplayEnd (F : Type 0) : Type 0 where
  replayed : Replay F → ReplayEnd F
  line_failed : LineError → Replay F → ReplayEnd F
  config_failed : ConfigError F → ReplayEnd F

module _ {F : Type 0} where
  -- `.ok_or_else(|| ...)?`.
  abbrev needs : {A : Type 0} → Option A → LineError → (A → Parsed F) → Parsed F
  needs none e k = malformed e
  needs (some a) e k = k a

module _ {F : Type 0} ⦃float : Float F⦄ where
  open float use {plus, minus, times, over, abs, sqrt}

  unfoldable pub parse_object : LogObject F → Parsed F
  parse_object v =
      if v.has_event
      then skipped
      else if v.has_iter
      then needs v.pv missing_pv (λ pv. needs v.dt missing_dt (λ dt. needs v.sp missing_sp (λ sp.
        needs v.cv missing_cv (λ cv. needs v.iter invalid_iter (λ iter. parsed (record {
          iter = iter;
          ts = unwrap_or v.ts "";
          name = v.name;
          pv = pv;
          sp = sp;
          dt = dt;
          ff = unwrap_or v.ff nought;
          original_cv = cv;
        }))))))
      else skipped

  -- The empty line is skipped before `parse_log_line` is called.
  unfoldable pub parse_log_line : LogLine F → Parsed F
  parse_log_line blank = skipped
  parse_log_line not_json = malformed invalid_json
  parse_log_line (object v) = parse_object v

  -- `DiffAccumulator::default`.
  abbrev pub no_diff : DiffAccumulator F
  no_diff = record { n = 0; sum_sq = nought; max = nought }

  unfoldable pub push_diff : DiffAccumulator F → F → F → DiffAccumulator F
  push_diff d original replayed_cv =
      let diff = abs (minus replayed_cv original) in
      record {
        n = suc d.n;
        sum_sq = plus d.sum_sq (times diff diff);
        max = if gt diff d.max then diff else d.max;
      }

  unfoldable pub rms : DiffAccumulator F → F
  rms d = if d.n == 0 then nought else sqrt (over d.sum_sq (float.of_nat d.n))

  unfoldable pub replay_config : ReplayArgs F → PidConfig F
  replay_config a = record default_config {
    kp = a.kp;
    ki = a.ki;
    kd = a.kd;
    out_min = a.out_min;
    out_max = a.out_max;
  }

  -- The record that is written; `now` is `now_iso8601()`.
  unfoldable pub replayed_record :
      LogRecord F → PidController F → StepResult F → String → IterationRecord F
  replayed_record r c s now = record {
    schema_version = state_schema_version;
    ts = if str_eq r.ts "" then now else r.ts;
    name = r.name;
    iter = r.iter;
    pv = r.pv;
    sp = r.sp;
    effective_sp = none;
    err = unwrap_or c.last_error nought;
    p = s.p_term;
    i = s.i_term;
    d = s.d_term;
    ff = s.ff_term;
    cv = s.cv;
    i_acc = s.i_acc;
    dt = r.dt;
  }

  -- What the loop does with a record, after its step.
  unfoldable pub note_step :
      Bool → LogRecord F → String → PidController F × StepResult F → Replay F → Replay F
  note_step diff r now out s = record {
    controller = out.0;
    prev_applied_cv = out.1.cv;
    diff_acc = if diff then push_diff s.diff_acc r.original_cv out.1.cv else s.diff_acc;
    output = if diff then s.output else s.output ++ (replayed_record r out.0 out.1 now ∷ []);
  }

  -- A record; `none` is a panic of the step.
  unfoldable pub replay_record : Bool → LogRecord F → String → Replay F → Option (Replay F)
  replay_record diff r now s =
      step (set_setpoint s.controller r.sp)
        (record { pv = r.pv; dt = r.dt; prev_applied_cv = s.prev_applied_cv; ff = r.ff })
      >>= λ out. some (note_step diff r now out s)

  -- The loop over the lines, each with the clock at which it is read.
  unfoldable pub replay_lines : Bool → List (LogLine F × String) → Replay F → Option (ReplayEnd F)
  replay_lines diff [] s = some (replayed s)
  replay_lines diff ((l, now) ∷ ls) s = elim (parse_log_line l) [
    | skipped ↦ replay_lines diff ls s
    | malformed e ↦ some (line_failed e s)
    | parsed r ↦ replay_record diff r now s >>= λ s'. replay_lines diff ls s'
  ]

  -- `run_replay`, up to the summary.
  unfoldable pub run_replay : ReplayArgs F → List (LogLine F × String) → Option (ReplayEnd F)
  run_replay a ls = elim (new (replay_config a)) [
    | rejected e ↦ some (config_failed e)
    | made c ↦
        replay_lines a.diff ls
          (record { controller = c; prev_applied_cv = nought; diff_acc = no_diff; output = [] })
  ]

  -- The fields of an iteration record in its JSON object (`skip_serializing_if`), where `reread` is
  -- what `as_f64` finds in the text that serde_json prints of a float: nothing, for one that is not
  -- finite, which is printed as null.
  unfoldable pub object_of : (F → Option F) → IterationRecord F → LogObject F
  object_of reread r = record {
    has_event = false;
    has_iter = true;
    pv = reread r.pv;
    dt = reread r.dt;
    sp = reread r.sp;
    cv = reread r.cv;
    iter = some r.iter;
    ts = some r.ts;
    name = r.name;
    ff = if float.eq r.ff nought then none else reread r.ff;
  }
