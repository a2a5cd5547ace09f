-- ===== src/Cmd/Loop/Runs.antt =====
-- Runs of the loop: the invariant of its session, and where its deadlines lie.
use pid_ctl.Prelude.{◌≡◌, subst, Option, some, List, [], ◌∷◌, if-both}
use mathlib.Core.Option.{some-injective}
use pid_ctl.Float.{Float, nought}
use pid_ctl.Core.Inversion.{>>=-eq-some}
use pid_ctl.Schedule.{next_deadline_after_tick}
use pid_ctl.App.StateStore.{Files, Json}
use pid_ctl.App.Records.{CvSink, Readings}
use pid_ctl.App.Session.Invariant.{Mirrors, write-Mirrors}
use pid_ctl.App.LoopRuntime.{MeasuredDt, skip, use_dt, apply_measured_dt, value}
use pid_ctl.App.Ticker.{TickObserver}
use pid_ctl.Cmd.Loop.{
  LoopArgs, LoopState, Inputs, Iteration, continues, finished, fails, sleep_until_next_deadline,
}
use pid_ctl.Cmd.Loop.Steps.{
  resolve, resolve_tick_dt, measure, noted, raw_dt, wake, iterate, proceed, run,
}
use pid_ctl.Cmd.Loop.Invariant.{
  state_of, Mirrored, Ends, ends, wait-Goes, finalize-Mirrored, resolved-Ends,
}

module _ {F : Type 0} ⦃float : Float F⦄ {S D O : Type 0} (files : Files D) (format : Json F)
    (sink : CvSink F S) where
  resolve-Mirrored :
      (a : LoopArgs F) (r : Readings) (d : MeasuredDt F) (l : LoopState F S D O)
      → Mirrored l
      → Mirrored (resolve files format sink a r d l).1
  unfolding resolve
  resolve-Mirrored a r (use_dt dt) l m = m
  resolve-Mirrored a r skip l m =
      (write-Mirrors files format l.ticking.session nought r l.ticking.world m).0

  resolve_tick_dt-Mirrored :
      (d : F) (a : LoopArgs F) (r : Readings) (l : LoopState F S D O)
      (q : Option F × LoopState F S D O)
      → Mirrored l
      → resolve_tick_dt files format sink d a r l ≡ some q
      → Mirrored q.1
  unfolding resolve_tick_dt
  resolve_tick_dt-Mirrored d a r l q m e =
      let (p, measured, left) =
        >>=-eq-some
          (apply_measured_dt d a.min_dt (value l.controls.max_dt) a.dt_clamp l.ticking.logger) _
          e in
      subst (λ z. Mirrored z.1) (some-injective _ _ left) (resolve-Mirrored a r p.0 _ m)

  proceed-Ends :
      (t : Iteration (LoopState F S D O))
      (k : LoopState F S D O → Option (Iteration (LoopState F S D O)))
      → Mirrored (state_of t)
      → ((l : LoopState F S D O) → Mirrored l → Ends (k l))
      → Ends (proceed t k)
  unfolding proceed
  proceed-Ends (continues l) k m h = h l m
  proceed-Ends (finished l) k m h = ends (finished l) m
  proceed-Ends (fails e l) k m h = ends (fails e l) m

  module _ (observer : TickObserver F O) where
    measure-Ends :
        (a : LoopArgs F) (i : Inputs F) (l : LoopState F S D O)
        → Mirrored l
        → Ends (measure files format sink observer a i l)
    unfolding measure noted
    measure-Ends a i l m t e =
        let (q, dt, rest) =
          >>=-eq-some (resolve_tick_dt files format sink (raw_dt i l) a i.at_skip (noted i l)) _
            e in
        resolved-Ends files format sink observer a i q
          (resolve_tick_dt-Mirrored (raw_dt i l) a i.at_skip (noted i l) q m dt) t rest

    wake-Ends :
        (a : LoopArgs F) (i : Inputs F) (l : LoopState F S D O)
        → Mirrored l
        → Ends (wake files format sink observer a i l)
    unfolding wake
    wake-Ends a i l m =
        if-both Ends i.shutdown_after (ends _ (finalize-Mirrored files format sink a i l m)) (λ t e.
          let (next, found, rest) =
            >>=-eq-some (next_deadline_after_tick l.next_deadline l.controls.interval i.now) _ e in
          if-both Ends l.hold (ends _ m) (measure-Ends a i (record l { next_deadline = next }) m) t
            rest)

    iterate-Ends :
        (a : LoopArgs F) (i : Inputs F) (l : LoopState F S D O)
        → Mirrored l
        → Ends (iterate files format sink observer a i l)
    unfolding iterate
    iterate-Ends a i l m =
        if-both Ends i.shutdown_before (ends _ (finalize-Mirrored files format sink a i l m))
          (λ t e.
            let (l', slept, rest) =
              >>=-eq-some (sleep_until_next_deadline files format a i.sleep_from i.chunks l) _ e in
            wake-Ends a i l' (wait-Goes files format a i.sleep_from i.chunks l m l' slept) t rest)

    -- Whatever the loop meets (requests on the socket, skipped ticks, failed reads and writes, a
    -- shutdown), for as many iterations as it makes: if the snapshot of its session mirrored the
    -- controller at the start, it does where the run ends, in an error as well, unless it panicked
    -- or the search for a deadline did not end.
    pub run-Mirrors :
        (a : LoopArgs F) (is : List (Inputs F)) (l : LoopState F S D O)
        {t : Iteration (LoopState F S D O)}
        → Mirrors l.ticking.session
        → run files format sink observer a is l ≡ some t
        → Mirrors (state_of t).ticking.session
    unfolding run
    run-Mirrors a [] l {t} m e = ends (continues l) m t e
    run-Mirrors a (i ∷ is) l {t} m e =
        let (u, done, rest) = >>=-eq-some (iterate files format sink observer a i l) _ e in
        proceed-Ends u (λ l'. run files format sink observer a is l') (iterate-Ends a i l m u done)
          (λ l' m' t' e'. run-Mirrors a is l' m' e') t rest
