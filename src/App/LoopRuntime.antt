-- ===== src/App/LoopRuntime.antt =====
-- crates/pid-ctl/src/app/loop_runtime.rs and the defaults of app/defaults.rs, with the loop controls
-- of crates/pid-ctl/src/cli/types.rs and cli/user_set.rs. The plain messages on stderr are left out.
pub mod Laws
use pid_ctl.Prelude.{
  ℕ, ◌*◌, ◌+◌, ◌-◌, ◌^◌, max, Bool, Option, none, some, if◌then◌else◌, ◌||◌, ◌&&◌, not, ◌>>=◌,
}
use pid_ctl.Float.{Float, nought, clamp, as_secs, gt, ge}
use pid_ctl.App.Snapshot.{StateStoreError, IoError}
use pid_ctl.App.StateStore.{FilePath, Files, Json, World}
use pid_ctl.App.Persister.{fail_escalated}
use pid_ctl.App.Records.{CvSink, Readings, ControllerSession, u64_max}
use pid_ctl.App.Session.{record_confirmed_cv, flush_session, set_flush_interval}
use pid_ctl.App.Events.{
  Logger, write_event, dt_skipped, dt_clamped, state_write_failed, state_write_escalated,
}

-- `UserSet<T>`.
pub data UserSet (T : Type 0) : Type 0 where
  explicit : T → UserSet T
  default : T → UserSet T

module _ {T : Type 0} where
  abbrev pub value : UserSet T → T
  value (explicit v) = v
  value (default v) = v

  abbrev pub set_if_default : UserSet T → T → UserSet T
  set_if_default (explicit v) w = explicit v
  set_if_default (default v) w = default w

pub record LoopRuntimeConfig (F : Type 0) : Type 0 where
  pub interval : ℕ
  pub max_dt : UserSet F
  pub pv_stdin_timeout : UserSet ℕ
  pub state_write_interval : UserSet (Option ℕ)

pub data MeasuredDt (F : Type 0) : Type 0 where
  skip : MeasuredDt F
  use_dt : F → MeasuredDt F

-- `MIN_STATE_FLUSH`, in nanoseconds.
abbrev pub min_state_flush : ℕ
min_state_flush = 100 * 10 ^ 6

module _ {F : Type 0} ⦃float : Float F⦄ where
  open float use {lit, times, round, le, lt, is_finite, to_nat, of_nat}

  abbrev pub min_dt_default : F
  min_dt_default = lit 1 100

  abbrev pub max_dt_default : F
  max_dt_default = lit 60 1

  abbrev pub max_dt_interval_multiplier : F
  max_dt_interval_multiplier = lit 3 1

  -- `apply_runtime_interval`.
  unfoldable pub apply_runtime_interval :
      ControllerSession F
      → LoopRuntimeConfig F
      → ℕ
      → Option (ControllerSession F × LoopRuntimeConfig F)
  apply_runtime_interval s c new_interval =
      clamp (times (as_secs new_interval) max_dt_interval_multiplier) min_dt_default max_dt_default
      >>= λ max_dt.
          let flush =
            set_if_default c.state_write_interval (some (max new_interval min_state_flush)) in
          some (
            set_flush_interval s (value flush),
            record {
              interval = new_interval;
              max_dt = set_if_default c.max_dt max_dt;
              pv_stdin_timeout = set_if_default c.pv_stdin_timeout new_interval;
              state_write_interval = flush;
            },
          )

  unfoldable pub millis_round_u64 : F → ℕ
  millis_round_u64 ms =
      let v = round ms in
      if not (is_finite v) || le v nought
      then 0
      else if ge v (of_nat u64_max)
      then u64_max
      else to_nat v

  unfoldable pub apply_measured_dt :
      (raw_dt min_dt max_dt : F) → Bool → Logger F → Option (MeasuredDt F × Logger F)
  apply_measured_dt raw lo hi dt_clamp l =
      if ge raw lo && le raw hi
      then some (use_dt raw, l)
      else if dt_clamp
      then (clamp raw lo hi >>= λ clamped.
          some (use_dt clamped, write_event l (dt_clamped raw clamped)))
      else some (skip, write_event l (dt_skipped raw lo hi))

  -- `emit_state_write_failure`.
  unfoldable pub emit_state_write_failure :
      ControllerSession F → Option FilePath → Logger F → StateStoreError → Logger F
  emit_state_write_failure s none l e = l
  emit_state_write_failure s (some path) l e =
      if fail_escalated s.persister
      then write_event l (state_write_escalated path e s.persister.fail_count)
      else write_event l (state_write_failed path e)

  unfoldable pub handle_dt_skip_state_write :
      Option StateStoreError → ControllerSession F → Option FilePath → Logger F → Logger F
  handle_dt_skip_state_write none s path l = l
  handle_dt_skip_state_write (some e) s path l = emit_state_write_failure s path l e

  -- What `flush_state_at_shutdown` logs.
  unfoldable pub log_shutdown_failure :
      Option StateStoreError → Option FilePath → Logger F → Logger F
  log_shutdown_failure none path l = l
  log_shutdown_failure (some e) none l = l
  log_shutdown_failure (some e) (some p) l = write_event l (state_write_failed p e)

  module _ {D : Type 0} (files : Files D) (format : Json F) where
    unfoldable pub flush_state_at_shutdown :
        ControllerSession F
        → Option FilePath
        → Readings
        → Logger F
        → World D
        → ControllerSession F × Logger F × World D
    flush_state_at_shutdown s path r l w =
        let q = flush_session files format s r w in (q.1, log_shutdown_failure q.0 path l, q.2)

    -- `write_safe_cv`.
    unfoldable pub write_safe_cv :
        {S : Type 0} (sink : CvSink F S)
        → Option F
        → ControllerSession F
        → Readings
        → S
        → World D
        → ControllerSession F × S × World D
    write_safe_cv sink none s r a w = (s, a, w)
    write_safe_cv sink (some cv) s r a w =
        let written = sink.write_cv cv a in
        elim written.0 [
          | some e ↦ (s, written.1, w)
          | none ↦ let q = record_confirmed_cv files format s cv r w in (q.1, written.1, q.2)
        ]
