-- ===== src/Cmd/Loop/Safety.antt =====
-- The loop does not end without its safe output, and it does not go on past its limits.
use pid_ctl.Prelude.{
  ℕ, ◌+◌, ◌%◌, ◌^◌, ◌≡◌, ◌≢◌, ◌⊎◌, sym, subst, Option, none, some, if-both, Bool-cases,
  Option-cases, inl, inr, arith, leb, Bool, true, false,
}
use mathlib.Core.Option.{some-injective}
use pid_ctl.Float.{Float}
use pid_ctl.Core.Inversion.{>>=-eq-some}
use pid_ctl.App.StateStore.{Files, Json, World}
use pid_ctl.App.Records.{
  CvSink, Readings, ControllerSession, TickOutcome, TickResult, ticked, cv_write,
}
use pid_ctl.App.Session.{process_pv, record_confirmed_cv, persist_snapshot, flush_session}
use pid_ctl.App.LoopRuntime.{write_safe_cv, flush_state_at_shutdown}
use pid_ctl.App.Ticker.{
  TickObserver, TickContext, Loop, TickStepResult, ok, cv_fail_transient, cv_fail_exhausted,
  on_ticked, on_refused, settle, step,
}
use pid_ctl.Cmd.Loop.{
  LoopArgs, LoopState, Inputs, Iteration, continues, finished, fails, PvRead, pv_ok, pv_error,
  Escalation, sample, retry, gives_up,
}
use pid_ctl.Cmd.Loop.Steps.{
  write_safe, finalize_shutdown, escalate, pv_failed, read_pv_with_escalation, after_tick, conclude,
  tick_with, iterate,
}
use pid_ctl.Cmd.Loop.Invariant.{state_of}
use pid_ctl.Cmd.Loop.Inversion.{shut, idled, stepped, iterate-Went}

abbrev pub is_over : {A : Type 0} → Iteration A → Bool
is_over (continues l) = false
is_over (finished l) = true
is_over (fails e l) = true

module _ {F : Type 0} ⦃float : Float F⦄ {S D : Type 0} (files : Files D) (format : Json F)
    (sink : CvSink F S) where
  -- Of a session and a sink: the last write to the sink was of the safe output, and if the sink took
  -- it, it is the confirmed output.
  abbrev pub SafeWritten : F → ControllerSession F → S → Type 0
  SafeWritten cv s b =
      (a : S) × (b ≡ (sink.write_cv cv a).1)
      × (((sink.write_cv cv a).0 ≢ none) ⊎ (s.snapshot.last_cv ≡ some cv))

  write_safe_cv-Safe :
      (safe : Option F) (cv : F) (s : ControllerSession F) (r : Readings) (a : S) (w : World D)
      → safe ≡ some cv
      → let q = write_safe_cv files format sink safe s r a w in SafeWritten cv q.0 q.1
  unfolding write_safe_cv record_confirmed_cv persist_snapshot
  write_safe_cv-Safe safe cv s r a w e = (a, ground arith, ground arith)

  module _ {O : Type 0} where
    -- An iteration that ends the loop ends it with the safe output, if there is one.
    abbrev pub EndsSafe : Option F → Iteration (LoopState F S D O) → Type 0
    EndsSafe safe (continues l) = Unit
    EndsSafe safe (finished l) =
        (cv : F) → safe ≡ some cv → SafeWritten cv l.ticking.session l.ticking.sink
    EndsSafe safe (fails e l) =
        (cv : F) → safe ≡ some cv → SafeWritten cv l.ticking.session l.ticking.sink

    abbrev GivesUpSafe : Option F → Escalation (LoopState F S D O) F → Type 0
    GivesUpSafe safe (sample pv l) = Unit
    GivesUpSafe safe (retry l) = Unit
    GivesUpSafe safe (gives_up e l) =
        (cv : F) → safe ≡ some cv → SafeWritten cv l.ticking.session l.ticking.sink

    abbrev ExhaustedSafe : Option F → TickStepResult F × Loop F S D O → Type 0
    ExhaustedSafe safe (ok o, t) = Unit
    ExhaustedSafe safe (cv_fail_transient n, t) = Unit
    ExhaustedSafe safe (cv_fail_exhausted e, t) =
        (cv : F) → safe ≡ some cv → SafeWritten cv t.session t.sink

    write_safe-Safe :
        (a : LoopArgs F) (r : Readings) (l : LoopState F S D O) (cv : F)
        → a.safe_cv ≡ some cv
        → let t = (write_safe files format sink a r l).ticking in SafeWritten cv t.session t.sink
    unfolding write_safe
    write_safe-Safe a r l cv e =
        write_safe_cv-Safe a.safe_cv cv l.ticking.session r l.ticking.sink l.ticking.world e

    finalize-Safe :
        (a : LoopArgs F) (i : Inputs F) (l : LoopState F S D O)
        → EndsSafe a.safe_cv (finished (finalize_shutdown files format sink a i l))
    unfolding finalize_shutdown flush_state_at_shutdown flush_session
    finalize-Safe a i l cv e = write_safe-Safe a i.at_safe_cv l cv e

    escalate-Safe :
        (safe : Option F) (limit : Option ℕ) (l : LoopState F S D O)
        → ((cv : F) → safe ≡ some cv → SafeWritten cv l.ticking.session l.ticking.sink)
        → GivesUpSafe safe (escalate files format sink limit l)
    unfolding escalate
    escalate-Safe safe none l h = tt
    escalate-Safe safe (some limit) l h =
        if-both (GivesUpSafe safe) (leb limit l.pv_fail_count) h tt

    read-Safe :
        (a : LoopArgs F) (r : Readings) (p : PvRead F) (l : LoopState F S D O)
        → GivesUpSafe a.safe_cv (read_pv_with_escalation files format sink a r p l)
    unfolding read_pv_with_escalation pv_failed
    read-Safe a r (pv_ok pv) l = tt
    read-Safe a r (pv_error e) l =
        escalate-Safe a.safe_cv a.fail_after _ (λ cv q. write_safe-Safe a r _ cv q)

    after_tick-Safe :
        (a : LoopArgs F) (i : Inputs F) (l : LoopState F S D O)
        → EndsSafe a.safe_cv (after_tick files format sink a i l)
    unfolding after_tick
    after_tick-Safe a i l = elim (Option-cases a.max_iterations) [
      | inl e ↦ rw (e, after_tick) tt
      | inr (limit, e) ↦
          rw (e, after_tick)
            (if-both (EndsSafe a.safe_cv) (leb limit l.ticking.session.snapshot.iter)
              (finalize-Safe a i l) tt)
    ]

    conclude-Safe :
        (a : LoopArgs F) (i : Inputs F) (l : LoopState F S D O)
        (q : TickStepResult F × Loop F S D O)
        → ExhaustedSafe a.safe_cv q
        → EndsSafe a.safe_cv (conclude files format sink a i l q)
    unfolding conclude
    conclude-Safe a i l (cv_fail_exhausted e, t) h = h
    conclude-Safe a i l (cv_fail_transient n, t) h = after_tick-Safe a i _
    conclude-Safe a i l (ok o, t) h = after_tick-Safe a i _

    module _ (observer : TickObserver F O) where
      settle-Safe :
          (c : TickContext F) (l : Loop F S D O) (t : TickResult (TickOutcome F)) (r : Readings)
          → ExhaustedSafe c.safe_cv (settle files format sink observer c l t r)
      unfolding settle on_ticked on_refused
      settle-Safe c l (ticked o) r = tt
      settle-Safe c l (cv_write e) r =
          elim (Bool-cases (leb c.cv_fail_after ((l.cv_fail_count + 1) % 2 ^ 32))) [
            | inl reached ↦
                rw reached (λ cv q. write_safe_cv-Safe c.safe_cv cv l.session r l.sink l.world q)
            | inr below ↦ rw below tt
          ]

      step-Safe :
          (c : TickContext F) (l : Loop F S D O) (r r' : Readings)
          (q : TickStepResult F × Loop F S D O)
          → step files format sink observer c l r r' ≡ some q
          → ExhaustedSafe c.safe_cv q
      unfolding step
      step-Safe c l r r' q e =
          let (p, ran, left) =
            >>=-eq-some
              (process_pv files format sink l.session c.scaled_pv c.dt c.ff r l.sink l.world) _ e in
          subst (ExhaustedSafe c.safe_cv) (some-injective _ _ left)
            (settle-Safe c (record l { session = p.1; sink = p.2; world = p.3 }) p.0 r')

      tick_with-Safe :
          (a : LoopArgs F) (i : Inputs F) (dt : F) (p : Escalation (LoopState F S D O) F)
          (t : Iteration (LoopState F S D O))
          → GivesUpSafe a.safe_cv p
          → tick_with files format sink observer a i dt p ≡ some t
          → EndsSafe a.safe_cv t
      unfolding tick_with
      tick_with-Safe a i dt (retry l) t h e = subst (EndsSafe a.safe_cv) (some-injective _ _ e) tt
      tick_with-Safe a i dt (gives_up f l) t h e =
          subst (EndsSafe a.safe_cv) (some-injective _ _ e) h
      tick_with-Safe a i dt (sample raw_pv l) t h e =
          let (q, ran, left) = >>=-eq-some _ _ e in
          subst (EndsSafe a.safe_cv) (some-injective _ _ left)
            (conclude-Safe a i l q (step-Safe _ l.ticking _ _ q ran))

      iterate-EndsSafe :
          (a : LoopArgs F) (i : Inputs F) (l : LoopState F S D O)
          (t : Iteration (LoopState F S D O))
          → iterate files format sink observer a i l ≡ some t
          → EndsSafe a.safe_cv t
      iterate-EndsSafe a i l t e = elim (iterate-Went files format sink observer a i l t e) [
        | shut k q ↦ subst (EndsSafe a.safe_cv) (sym q) (finalize-Safe a i k)
        | idled k s q ↦ subst (EndsSafe a.safe_cv) (sym q) tt
        | stepped k dt s q ↦ tick_with-Safe a i dt _ t (read-Safe a i.at_pv_failure i.pv k) q
      ]

      -- If an iteration ends the loop, with success or with an error, and there is a safe output:
      -- the last write to the sink was of that output, whatever ended the loop, and the sink refused
      -- it or it is the confirmed output of the session.
      pub iterate_ends_safe :
          (a : LoopArgs F) (i : Inputs F) (l : LoopState F S D O)
          (t : Iteration (LoopState F S D O)) (cv : F)
          → a.safe_cv ≡ some cv
          → iterate files format sink observer a i l ≡ some t
          → is_over t ≡ true
          → SafeWritten cv (state_of t).ticking.session (state_of t).ticking.sink
      iterate_ends_safe a i l (continues k) cv h e o = cc
      iterate_ends_safe a i l (finished k) cv h e o = iterate-EndsSafe a i l (finished k) e cv h
      iterate_ends_safe a i l (fails f k) cv h e o = iterate-EndsSafe a i l (fails f k) e cv h
