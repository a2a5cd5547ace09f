-- ===== src/Cmd/Loop/Steps.antt =====
-- An iteration of `run_loop`, put together, and runs of it (crates/pid-ctl/src/cmd/cmd_loop.rs).
use pid_ctl.Prelude.{
  ℕ, ◌+◌, ◌-◌, ◌%◌, ◌^◌, Option, none, some, List, [], ◌∷◌, if◌then◌else◌, leb, ◌>>=◌, unwrap_or,
}
use pid_ctl.Float.{Float, nought, as_secs}
use pid_ctl.Schedule.{next_deadline_after_tick}
use pid_ctl.App.Snapshot.{IoError}
use pid_ctl.App.StateStore.{Files, Json}
use pid_ctl.App.Records.{CvSink, Readings}
use pid_ctl.App.Session.{on_dt_skipped}
use pid_ctl.App.Events.{write_event, pv_read_failure, pv_fail_after_reached}
use pid_ctl.App.LoopRuntime.{
  MeasuredDt, value, skip, use_dt, apply_measured_dt, write_safe_cv, flush_state_at_shutdown,
  handle_dt_skip_state_write,
}
use pid_ctl.App.Ticker.{
  TickObserver, Loop, TickStepResult, ok, cv_fail_transient, cv_fail_exhausted, step,
}
use pid_ctl.Cmd.Loop.{
  LoopArgs, LoopState, PvRead, pv_ok, pv_error, Inputs, pv_reads_failed, cv_writes_failed,
  Iteration, continues, finished, fails, Escalation, sample, retry, gives_up, log_interval_slip,
  sleep_until_next_deadline,
}

-- The next iteration, if there is one.
unfoldable pub proceed :
    {A : Type 0} → Iteration A → (A → Option (Iteration A)) → Option (Iteration A)
proceed (continues l) k = k l
proceed (finished l) k = some (finished l)
proceed (fails e l) k = some (fails e l)

module _ {F : Type 0} ⦃float : Float F⦄ where
  open float use {times}

  module _ {S D O : Type 0} where
    abbrev pub raw_dt : Inputs F → LoopState F S D O → F
    raw_dt i l = as_secs (i.now - l.last_tick)

    -- The state once `last_tick` is set and a slip of the interval is logged.
    unfoldable pub noted : Inputs F → LoopState F S D O → LoopState F S D O
    noted i l = record l {
      last_tick = i.now;
      ticking = record l.ticking {
        logger = log_interval_slip (raw_dt i l) (as_secs l.controls.interval) l.ticking.logger;
      };
    }

  module _ {S D O : Type 0} (files : Files D) (format : Json F) (sink : CvSink F S) where
    -- `write_safe_cv` on the state of the loop.
    unfoldable pub write_safe : LoopArgs F → Readings → LoopState F S D O → LoopState F S D O
    write_safe a r l =
        let q =
          write_safe_cv files format sink a.safe_cv l.ticking.session r l.ticking.sink
            l.ticking.world in
        record l { ticking = record l.ticking { session = q.0; sink = q.1; world = q.2 } }

    -- `finalize_shutdown`.
    unfoldable pub finalize_shutdown : LoopArgs F → Inputs F → LoopState F S D O → LoopState F S D O
    finalize_shutdown a i l =
        let safe = write_safe a i.at_safe_cv l in
        let q =
          flush_state_at_shutdown files format safe.ticking.session a.state_path i.at_flush
            safe.ticking.logger safe.ticking.world in
        record safe { ticking = record safe.ticking { session = q.0; logger = q.1; world = q.2 } }

    -- What `resolve_tick_dt` does with the measured dt; `none` is a tick that is skipped.
    unfoldable pub resolve :
        LoopArgs F → Readings → MeasuredDt F → LoopState F S D O → Option F × LoopState F S D O
    resolve a r (use_dt dt) l = (some dt, l)
    resolve a r skip l =
        let q = on_dt_skipped files format l.ticking.session r l.ticking.world in
        (
          none,
          record l {
            ticking = record l.ticking {
              session = q.1;
              logger = handle_dt_skip_state_write q.0 q.1 a.state_path l.ticking.logger;
              world = q.2;
            };
          },
        )

    unfoldable pub resolve_tick_dt :
        F → LoopArgs F → Readings → LoopState F S D O → Option (Option F × LoopState F S D O)
    resolve_tick_dt raw_dt a r l =
        apply_measured_dt raw_dt a.min_dt (value l.controls.max_dt) a.dt_clamp l.ticking.logger
        >>= λ m. some (resolve a r m.0 (record l { ticking = record l.ticking { logger = m.1 } }))

    -- The test of `fail_after` in `read_pv_with_escalation`.
    unfoldable pub escalate : Option ℕ → LoopState F S D O → Escalation (LoopState F S D O) F
    escalate none l = retry l
    escalate (some limit) l =
        if leb limit l.pv_fail_count
        then (gives_up (pv_reads_failed l.pv_fail_count) (record l {
          ticking = record l.ticking {
            logger = write_event l.ticking.logger (pv_fail_after_reached l.pv_fail_count limit);
          };
        }))
        else retry l

    -- The arm of `read_pv_with_escalation` for a failed read, up to that test.
    unfoldable pub pv_failed :
        LoopArgs F → Readings → IoError → LoopState F S D O → LoopState F S D O
    pv_failed a r e l = write_safe a r (record l {
      pv_fail_count = (l.pv_fail_count + 1) % 2 ^ 32;
      ticking = record l.ticking {
        logger = write_event l.ticking.logger (pv_read_failure e a.safe_cv);
      };
    })

    unfoldable pub read_pv_with_escalation :
        LoopArgs F → Readings → PvRead F → LoopState F S D O → Escalation (LoopState F S D O) F
    read_pv_with_escalation a r (pv_ok pv) l = sample pv (record l { pv_fail_count = 0 })
    read_pv_with_escalation a r (pv_error e) l = escalate a.fail_after (pv_failed a r e l)

    -- The end of an iteration: the limit on the number of ticks.
    unfoldable pub after_tick :
        LoopArgs F → Inputs F → LoopState F S D O → Iteration (LoopState F S D O)
    after_tick a i l = elim a.max_iterations [
      | none ↦ continues l
      | some limit ↦
          if leb limit l.ticking.session.snapshot.iter
          then finished (finalize_shutdown a i l)
          else continues l
    ]

    -- What follows `ticker::step`.
    unfoldable pub conclude :
        LoopArgs F
        → Inputs F
        → LoopState F S D O
        → TickStepResult F × Loop F S D O
        → Iteration (LoopState F S D O)
    conclude a i l (cv_fail_exhausted e, t) = fails (cv_writes_failed e) (record l { ticking = t })
    conclude a i l (cv_fail_transient n, t) = after_tick a i (record l { ticking = t })
    conclude a i l (ok o, t) = after_tick a i (record l { ticking = t })

    module _ (observer : TickObserver F O) where
      -- From the PV on.
      unfoldable pub tick_with :
          LoopArgs F
          → Inputs F
          → F
          → Escalation (LoopState F S D O) F
          → Option (Iteration (LoopState F S D O))
      tick_with a i dt (retry l) = some (continues l)
      tick_with a i dt (gives_up e l) = some (fails e l)
      tick_with a i dt (sample raw_pv l) =
          step files format sink observer
            (record {
              scaled_pv = times raw_pv a.scale;
              dt = dt;
              ff = unwrap_or i.ff nought;
              state_path = a.state_path;
              cv_fail_after = a.cv_fail_after;
              safe_cv = a.safe_cv;
            })
            l.ticking i.at_tick i.at_cv_failure
          >>= λ q. some (conclude a i l q)

      -- From the resolved dt on.
      unfoldable pub resolved :
          LoopArgs F
          → Inputs F
          → Option F × LoopState F S D O
          → Option (Iteration (LoopState F S D O))
      resolved a i (none, l) = some (continues l)
      resolved a i (some dt, l) =
          tick_with a i dt (read_pv_with_escalation a i.at_pv_failure i.pv l)

      -- The part of an iteration that measures the dt and ticks.
      unfoldable pub measure :
          LoopArgs F → Inputs F → LoopState F S D O → Option (Iteration (LoopState F S D O))
      measure a i l = resolve_tick_dt (raw_dt i l) a i.at_skip (noted i l) >>= λ q. resolved a i q

      -- The part after the sleep.
      unfoldable pub wake :
          LoopArgs F → Inputs F → LoopState F S D O → Option (Iteration (LoopState F S D O))
      wake a i l =
          if i.shutdown_after
          then some (finished (finalize_shutdown a i l))
          else next_deadline_after_tick l.next_deadline l.controls.interval i.now >>= λ next.
              let due = record l { next_deadline = next } in
              if l.hold then some (continues due) else measure a i due

      -- The body of the loop.
      unfoldable pub iterate :
          LoopArgs F → Inputs F → LoopState F S D O → Option (Iteration (LoopState F S D O))
      iterate a i l =
          if i.shutdown_before
          then some (finished (finalize_shutdown a i l))
          else sleep_until_next_deadline files format a i.sleep_from i.chunks l >>= λ l'.
              wake a i l'

      -- The loop, over the readings of its iterations.
      unfoldable pub run :
          LoopArgs F → List (Inputs F) → LoopState F S D O → Option (Iteration (LoopState F S D O))
      run a [] l = some (continues l)
      run a (i ∷ is) l = iterate a i l >>= λ t. proceed t (λ l'. run a is l')
