-- ===== src/Cmd/Loop/Inversion.antt =====
-- How an iteration of the loop can end: shut down, with no tick, or with what the tick gives.
use pid_ctl.Prelude.{◌≡◌, refl, subst, Option, none, some, if-both}
use mathlib.Core.Option.{some-injective}
use pid_ctl.Float.{Float}
use pid_ctl.Core.Inversion.{>>=-eq-some}
use pid_ctl.Schedule.{next_deadline_after_tick}
use pid_ctl.App.StateStore.{Files, Json}
use pid_ctl.App.Records.{CvSink}
use pid_ctl.App.LoopRuntime.{MeasuredDt, skip, use_dt, apply_measured_dt, value}
use pid_ctl.App.Ticker.{TickObserver}
use pid_ctl.Cmd.Loop.{
  LoopArgs, LoopState, Inputs, Iteration, continues, finished, sleep_until_next_deadline,
}
use pid_ctl.Cmd.Loop.Steps.{
  finalize_shutdown, resolve, resolve_tick_dt, read_pv_with_escalation, tick_with, resolved,
  measure, noted, raw_dt, wake, iterate,
}
use pid_ctl.Cmd.Loop.Sleep.{wait-Slept}

module _ {F : Type 0} ⦃float : Float F⦄ {S D O : Type 0} where
  pub record SameCounts (l l' : LoopState F S D O) : Type 0 where
    pub cv_fail_count : l'.ticking.cv_fail_count ≡ l.ticking.cv_fail_count
    pub pv_fail_count : l'.pv_fail_count ≡ l.pv_fail_count

  module _ (files : Files D) (format : Json F) (sink : CvSink F S) (observer : TickObserver F O)
      (a : LoopArgs F) (i : Inputs F) where
    pub data Went (l : LoopState F S D O) (t : Iteration (LoopState F S D O)) : Type 0 where
      shut :
          (k : LoopState F S D O)
          → t ≡ finished (finalize_shutdown files format sink a i k)
          → Went l t
      idled : (k : LoopState F S D O) → SameCounts l k → t ≡ continues k → Went l t
      stepped :
          (k : LoopState F S D O) (dt : F)
          → SameCounts l k
          → tick_with files format sink observer a i dt
              (read_pv_with_escalation files format sink a i.at_pv_failure i.pv k)
            ≡ some t
          → Went l t

    abbrev AllWent : LoopState F S D O → Option (Iteration (LoopState F S D O)) → Type 0
    AllWent l o = (t : Iteration (LoopState F S D O)) → o ≡ some t → Went l t

    just_shut :
        (l k : LoopState F S D O)
        → AllWent l (some (finished (finalize_shutdown files format sink a i k)))
    just_shut l k t e = subst (Went l) (some-injective _ _ e) (shut k refl)

    just_idled : (l k : LoopState F S D O) → SameCounts l k → AllWent l (some (continues k))
    just_idled l k s t e = subst (Went l) (some-injective _ _ e) (idled k s refl)

    resolve-SameCounts :
        (d : MeasuredDt F) (l k : LoopState F S D O)
        → SameCounts l k
        → SameCounts l (resolve files format sink a i.at_skip d k).1
    unfolding resolve
    resolve-SameCounts (use_dt dt) l k s = s
    resolve-SameCounts skip l k s = record {
      cv_fail_count = s.cv_fail_count;
      pv_fail_count = s.pv_fail_count;
    }

    resolved-AllWent :
        (l : LoopState F S D O) (q : Option F × LoopState F S D O)
        → SameCounts l q.1
        → AllWent l (resolved files format sink observer a i q)
    unfolding resolved
    resolved-AllWent l (none, k) s t e = just_idled l k s t e
    resolved-AllWent l (some dt, k) s t e = stepped k dt s e

    measure-AllWent :
        (l k : LoopState F S D O)
        → SameCounts l k
        → AllWent l (measure files format sink observer a i k)
    unfolding measure noted resolve_tick_dt
    measure-AllWent l k s t e =
        let (q, dt, rest) =
          >>=-eq-some (resolve_tick_dt files format sink (raw_dt i k) a i.at_skip (noted i k)) _
            e in
        let (p, measured, left) =
          >>=-eq-some
            (apply_measured_dt (raw_dt i k) a.min_dt (value k.controls.max_dt) a.dt_clamp
              (noted i k).ticking.logger)
            _ dt in
        resolved-AllWent l q
          (subst (λ z. SameCounts l z.1) (some-injective _ _ left)
            (resolve-SameCounts p.0 l _
              (record { cv_fail_count = s.cv_fail_count; pv_fail_count = s.pv_fail_count })))
          t rest

    wake-AllWent :
        (l k : LoopState F S D O)
        → SameCounts l k
        → AllWent l (wake files format sink observer a i k)
    unfolding wake
    wake-AllWent l k s = if-both (AllWent l) i.shutdown_after (just_shut l k) (λ t e.
        let (next, found, rest) =
          >>=-eq-some (next_deadline_after_tick k.next_deadline k.controls.interval i.now) _ e in
        let due = record k { next_deadline = next } in
        let s' : SameCounts l due = record {
          cv_fail_count = s.cv_fail_count;
          pv_fail_count = s.pv_fail_count;
        } in
        if-both (AllWent l) k.hold (just_idled l due s') (measure-AllWent l due s') t rest)

    pub iterate-Went :
        (l : LoopState F S D O) (t : Iteration (LoopState F S D O))
        → iterate files format sink observer a i l ≡ some t
        → Went l t
    unfolding iterate
    iterate-Went l = if-both (AllWent l) i.shutdown_before (just_shut l l) (λ t e.
        let (k, sleeps, rest) =
          >>=-eq-some (sleep_until_next_deadline files format a i.sleep_from i.chunks l) _ e in
        let s = wait-Slept files format a i.sleep_from i.chunks l k sleeps in
        wake-AllWent l k
          (record { cv_fail_count = s.cv_fail_count; pv_fail_count = s.pv_fail_count }) t rest)
