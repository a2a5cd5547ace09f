-- ===== src/Cmd/Loop.antt =====
-- The `loop` subcommand (crates/pid-ctl/src/cmd/cmd_loop.rs): one iteration of `run_loop` as a
-- function of what it reads, and the loop as a run over the readings of its iterations. `none` is a
-- panic, or the search for the next deadline that never ends. Messages on stderr and the output of
-- the observer are left out.
pub mod Steps
pub mod Invariant
pub mod Runs
pub mod Sleep
pub mod Inversion
pub mod Safety
pub mod Limits
pub mod Shutdown
use pid_ctl.Prelude.{
  ℕ, zero, suc, ◌+◌, ◌+◌, ◌-◌, ◌%◌, ◌^◌, Bool, true, false, Option, none, some, List, [], ◌∷◌,
  if◌then◌else◌, leb, ◌||◌, ◌>>=◌, unwrap_or,
}
use pid_ctl.Float.{Float, nought, as_secs}
use pid_ctl.Schedule.{next_deadline_after_tick}
use pid_ctl.App.Snapshot.{IoError}
use pid_ctl.App.StateStore.{FilePath, Files, Json}
use pid_ctl.App.Records.{CvSink, Readings, ControllerSession}
use pid_ctl.App.Session.{on_dt_skipped}
use pid_ctl.App.Events.{Logger, write_event, interval_slip, pv_read_failure, pv_fail_after_reached}
use pid_ctl.App.LoopRuntime.{
  LoopRuntimeConfig, value, skip, use_dt, millis_round_u64, apply_measured_dt, write_safe_cv,
  flush_state_at_shutdown, handle_dt_skip_state_write,
}
use pid_ctl.App.Ticker.{
  TickObserver, TickContext, Loop, TickStepResult, ok, cv_fail_transient, cv_fail_exhausted, step,
}
use pid_ctl.App.SocketDispatch.{
  Request, SocketSideEffect, no_effect, hold_effect, resume_effect, interval_changed, Live,
  handle_socket_request,
}

-- What `run_loop` reads of `LoopArgs`; `has_socket` is whether a listener is bound.
pub record LoopArgs (F : Type 0) : Type 0 where
  pub scale : F
  pub min_dt : F
  pub dt_clamp : Bool
  pub state_path : Option FilePath
  pub safe_cv : Option F
  pub cv_fail_after : ℕ
  pub fail_after : Option ℕ
  pub max_iterations : Option ℕ
  pub has_socket : Bool

-- The variables of `run_loop`; the session, the sink, the log, the disk, the count of refused writes
-- and the observer are in `ticking`.
pub record LoopState (F S D O : Type 0) : Type 0 where
  pub ticking : Loop F S D O
  pub controls : LoopRuntimeConfig F
  pub hold : Bool
  pub pv_fail_count : ℕ
  pub next_deadline : ℕ
  pub last_tick : ℕ

-- What `try_service_one` finds: a request, with the clocks of its handling; a connection that is
-- answered without the handler (too large, or no request); or none, or an error.
pub data Connection (F : Type 0) : Type 0 where
  request : Request F → Readings → Connection F
  rejected : Connection F
  idle : Connection F

-- A round of `sleep_with_socket`: the clock, the shutdown flag, and the connections after the sleep.
pub record Chunk (F : Type 0) : Type 0 where
  pub now : ℕ
  pub shutdown : Bool
  pub connections : List (Connection F)

-- `read_pv` of the PV source.
pub data PvRead (F : Type 0) : Type 0 where
  pv_ok : F → PvRead F
  pv_error : IoError → PvRead F

-- What an iteration reads, in the order of the code.
pub record Inputs (F : Type 0) : Type 0 where
  pub shutdown_before : Bool
  pub sleep_from : ℕ
  pub chunks : List (Chunk F)
  pub shutdown_after : Bool
  pub now : ℕ
  pub pv : PvRead F
  pub ff : Option F
  -- The clocks: for a skipped tick, for the safe output after a failed read, for the tick and its
  -- safe output, and for the safe output and the flush of a shutdown.
  pub at_skip : Readings
  pub at_pv_failure : Readings
  pub at_tick : Readings
  pub at_cv_failure : Readings
  pub at_safe_cv : Readings
  pub at_flush : Readings

-- Why `run_loop` returns an error, which is the exit code 2.
pub data Failure : Type 0 where
  pv_reads_failed : ℕ → Failure
  cv_writes_failed : IoError → Failure

-- How an iteration ends: with the next one, with `Ok(())`, or with an error.
pub data Iteration (A : Type 0) : Type 0 where
  continues : A → Iteration A
  finished : A → Iteration A
  fails : Failure → A → Iteration A

-- `read_pv_with_escalation`.
pub data Escalation (A : Type 0) (F : Type 0) : Type 0 where
  sample : F → A → Escalation A F
  retry : A → Escalation A F
  gives_up : Failure → A → Escalation A F

-- The assignment of `hold` in the handler.
abbrev pub held : SocketSideEffect → Bool → Bool
held hold_effect h = true
held resume_effect h = false
held interval_changed h = h
held no_effect h = h

module _ {F : Type 0} ⦃float : Float F⦄ where
  open float use {le, times}

  unfoldable pub log_interval_slip : F → F → Logger F → Logger F
  log_interval_slip raw_dt interval_secs l =
      if le raw_dt interval_secs
      then l
      else write_event l (
          interval_slip (millis_round_u64 (times interval_secs (float.lit 1000 1)))
            (millis_round_u64 (times raw_dt (float.lit 1000 1))))

  -- The variables before the first iteration; the clock is read for each of the two times.
  unfoldable pub begin :
      {S D O : Type 0} → Loop F S D O → LoopRuntimeConfig F → ℕ → ℕ → LoopState F S D O
  begin t controls at at' = record {
    ticking = record t { cv_fail_count = 0 };
    controls = controls;
    hold = false;
    pv_fail_count = 0;
    next_deadline = at + controls.interval;
    last_tick = at';
  }

  module _ {S D O : Type 0} (files : Files D) (format : Json F) where
    -- The part of the state that a socket request sees, and the state after one.
    abbrev pub live : LoopState F S D O → Live F D
    live l = record {
      session = l.ticking.session;
      controls = l.controls;
      logger = l.ticking.logger;
      world = l.ticking.world;
    }

    abbrev pub serviced : LoopState F S D O → SocketSideEffect → Live F D → LoopState F S D O
    serviced l effect x = record l {
      ticking = record l.ticking { session = x.session; logger = x.logger; world = x.world };
      controls = x.controls;
      hold = held effect l.hold;
    }

    -- `for _ in 0..10`, with the connections that it finds.
    unfoldable pub service :
        ℕ → List (Connection F) → LoopState F S D O → Option (LoopState F S D O)
    service zero cs l = some l
    service (suc n) [] l = some l
    service (suc n) (request q r ∷ cs) l =
        handle_socket_request files format q r (live l) >>= λ o. service n cs (serviced l o.1 o.2)
    service (suc n) (rejected ∷ cs) l = service n cs l
    service (suc n) (idle ∷ cs) l = some l

    -- `sleep_with_socket`, over the rounds that it makes.
    unfoldable pub sleep_with_socket :
        ℕ → List (Chunk F) → LoopState F S D O → Option (LoopState F S D O)
    sleep_with_socket until [] l = some l
    sleep_with_socket until (c ∷ cs) l =
        if leb until c.now || c.shutdown
        then some l
        else service 10 c.connections l >>= λ l'. sleep_with_socket until cs l'

    unfoldable pub sleep_until_next_deadline :
        LoopArgs F → ℕ → List (Chunk F) → LoopState F S D O → Option (LoopState F S D O)
    sleep_until_next_deadline a now cs l =
        if leb l.next_deadline now
        then some l
        else if a.has_socket
        then sleep_with_socket l.next_deadline cs l
        else some l
