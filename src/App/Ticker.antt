-- ===== src/App/Ticker.antt =====
-- The shared tick driver (crates/pid-ctl/src/app/ticker.rs). The observer is a parameter, with a
-- state of its own; the message of `CvFailExhausted` is left out.
pub mod Exhaustion
pub mod Mirroring
use pid_ctl.Prelude.{ℕ, ◌+◌, ◌%◌, ◌^◌, Option, none, some, if◌then◌else◌, leb, ◌>>=◌}
use pid_ctl.Float.{Float}
use pid_ctl.Core.Config.{DTermSkipReason}
use pid_ctl.App.Snapshot.{StateStoreError, IoError}
use pid_ctl.App.StateStore.{FilePath, Files, Json, World}
use pid_ctl.App.Records.{
  CvSink, Readings, ControllerSession, TickOutcome, TickResult, ticked, cv_write,
}
use pid_ctl.App.Session.{process_pv}
use pid_ctl.App.Events.{Logger, write_event, write_iteration_line, d_term_skipped, cv_write_failed}
use pid_ctl.App.LoopRuntime.{emit_state_write_failure, write_safe_cv}

-- `trait TickObserver`.
pub record TickObserver (F O : Type 0) : Type 0 where
  pub on_success : TickOutcome F → O → O
  pub on_cv_fail : IoError → ℕ → O → O

-- The values of `TickContext` that a tick only reads.
pub record TickContext (F : Type 0) : Type 0 where
  pub scaled_pv : F
  pub dt : F
  pub ff : F
  pub state_path : Option FilePath
  pub cv_fail_after : ℕ
  pub safe_cv : Option F

-- What a tick changes: the session, the sink, the log, the disk, the failure count, the observer.
pub record Loop (F S D O : Type 0) : Type 0 where
  pub session : ControllerSession F
  pub sink : S
  pub logger : Logger F
  pub world : World D
  pub cv_fail_count : ℕ
  pub observer : O

pub data TickStepResult (F : Type 0) : Type 0 where
  ok : TickOutcome F → TickStepResult F
  cv_fail_transient : ℕ → TickStepResult F
  cv_fail_exhausted : IoError → TickStepResult F

module _ {F : Type 0} where
  unfoldable pub log_skip : Logger F → Option DTermSkipReason → ℕ → Logger F
  log_skip l none iter = l
  log_skip l (some reason) iter = write_event l (d_term_skipped reason iter)

module _ {F : Type 0} ⦃float : Float F⦄ where
  unfoldable pub log_write_failure :
      ControllerSession F → Option FilePath → Logger F → Option StateStoreError → Logger F
  log_write_failure s path l none = l
  log_write_failure s path l (some e) = emit_state_write_failure s path l e

  module _ {S D O : Type 0} (files : Files D) (format : Json F) (sink : CvSink F S)
      (observer : TickObserver F O) where
    -- The arm of `step` for a tick that succeeded.
    unfoldable pub on_ticked :
        TickContext F → Loop F S D O → TickOutcome F → TickStepResult F × Loop F S D O
    on_ticked c l o =
        let skipped = log_skip l.logger o.d_term_skipped o.record_of.iter in
        let written = write_iteration_line skipped o.record_of in
        (
          ok o,
          record l {
            cv_fail_count = 0;
            logger = log_write_failure l.session c.state_path written o.state_write_failed;
            observer = observer.on_success o l.observer;
          },
        )

    -- The arm for a write that the sink refused, with the count after it.
    unfoldable pub on_refused :
        TickContext F → Loop F S D O → IoError → ℕ → Readings → TickStepResult F × Loop F S D O
    on_refused c l e count r =
        let failed = record l {
          cv_fail_count = count;
          logger = write_event l.logger (cv_write_failed e count);
          observer = observer.on_cv_fail e count l.observer;
        } in
        if leb c.cv_fail_after count
        then (let q =
              write_safe_cv files format sink c.safe_cv failed.session r failed.sink failed.world in
            (cv_fail_exhausted e, record failed { session = q.0; sink = q.1; world = q.2 }))
        else (cv_fail_transient count, failed)

    -- What `step` does with the result of `process_pv`; `r` is read for the safe output.
    unfoldable pub settle :
        TickContext F
        → Loop F S D O
        → TickResult (TickOutcome F)
        → Readings
        → TickStepResult F × Loop F S D O
    settle c l (ticked o) r = on_ticked c l o
    settle c l (cv_write e) r = on_refused c l e ((l.cv_fail_count + 1) % 2 ^ 32) r

    -- `ticker::step`; `none` is a panic.
    unfoldable pub step :
        TickContext F
        → Loop F S D O
        → Readings
        → Readings
        → Option (TickStepResult F × Loop F S D O)
    step c l r r' =
        process_pv files format sink l.session c.scaled_pv c.dt c.ff r l.sink l.world >>= λ q.
        some (settle c (record l { session = q.1; sink = q.2; world = q.3 }) q.0 r')
