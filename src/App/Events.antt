-- ===== src/App/Events.antt =====
-- Structured log lines: `Logger` (crates/pid-ctl/src/app/logger.rs) and the events of
-- crates/pid-ctl/src/json_events.rs, as values; their time stamps and their JSON text are left out.
use pid_ctl.Prelude.{ℕ, Bool, true, false, Option, none, some, List, [], ◌∷◌, ◌++◌, if◌then◌else◌}
use pid_ctl.Core.Config.{DTermSkipReason}
use pid_ctl.App.Snapshot.{StateStoreError, IoError}
use pid_ctl.App.StateStore.{FilePath}
use pid_ctl.App.Records.{IterationRecord}

pub data Source : Type 0 where
  socket tui : Source

pub data Event (F : Type 0) : Type 0 where
  dt_skipped : F → F → F → Event F
  dt_clamped : F → F → Event F
  interval_slip : ℕ → ℕ → Event F
  cv_write_failed : IoError → ℕ → Event F
  state_write_failed : FilePath → StateStoreError → Event F
  state_write_escalated : FilePath → StateStoreError → ℕ → Event F
  pv_fail_after_reached : ℕ → ℕ → Event F
  gains_changed : F → F → F → F → ℕ → Source → Event F
  gains_saved : ℕ → Event F
  integral_reset : F → ℕ → Source → Event F
  socket_ready : FilePath → Event F
  pv_read_failure : IoError → Option F → Event F
  d_term_skipped : DTermSkipReason → ℕ → Event F

pub data Line (F : Type 0) : Type 0 where
  event : Event F → Line F
  iteration : IterationRecord F → Line F

-- `stderr` is what the logger has written there.
pub record Logger (F : Type 0) : Type 0 where
  pub file : Option (List (Line F))
  pub suppress_stderr : Bool
  pub stderr : List (Line F)

module _ {F : Type 0} where
  abbrev append_line : Option (List (Line F)) → Line F → Option (List (Line F))
  append_line none l = none
  append_line (some ls) l = some (ls ++ (l ∷ []))

  -- `Logger::open` of a file with the given lines, or of none.
  unfoldable pub open_log : Option (List (Line F)) → Logger F
  open_log ls = record { file = ls; suppress_stderr = false; stderr = [] }

  unfoldable pub suppressed : Logger F → Logger F
  suppressed l = record l { suppress_stderr = true }

  unfoldable pub write_event : Logger F → Event F → Logger F
  write_event l e = record l {
    file = append_line l.file (event e);
    stderr = if l.suppress_stderr then l.stderr else l.stderr ++ (event e ∷ []);
  }

  unfoldable pub write_iteration_line : Logger F → IterationRecord F → Logger F
  write_iteration_line l r = record l { file = append_line l.file (iteration r) }
