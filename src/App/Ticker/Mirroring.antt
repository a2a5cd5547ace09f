-- ===== src/App/Ticker/Mirroring.antt =====
-- A tick and a safe output keep the snapshot a mirror of the controller.
use pid_ctl.Prelude.{◌≡◌, subst, Option, none, some, inl, inr, Option-cases, if-both}
use mathlib.Core.Option.{some-injective}
use pid_ctl.Float.{Float}
use pid_ctl.Core.Inversion.{>>=-eq-some}
use pid_ctl.App.StateStore.{Files, Json, World}
use pid_ctl.App.Records.{
  CvSink, Readings, ControllerSession, TickOutcome, TickResult, ticked, cv_write,
}
use pid_ctl.App.Session.{process_pv}
use pid_ctl.App.Session.Invariant.{Mirrors, write-Mirrors, tick-Mirrors}
use pid_ctl.App.LoopRuntime.{write_safe_cv}
use pid_ctl.App.Ticker.{
  TickObserver, TickContext, Loop, TickStepResult, on_ticked, on_refused, settle, step,
}

module _ {F : Type 0} ⦃float : Float F⦄ {S D : Type 0} (files : Files D) (format : Json F)
    (sink : CvSink F S) where
  pub write_safe_cv-Mirrors :
      (safe : Option F) (s : ControllerSession F) (r : Readings) (a : S) (w : World D)
      → Mirrors s
      → Mirrors (write_safe_cv files format sink safe s r a w).0
  unfolding write_safe_cv
  write_safe_cv-Mirrors none s r a w m = m
  write_safe_cv-Mirrors (some cv) s r a w m = elim (Option-cases (sink.write_cv cv a).0) [
    | inl fine ↦ rw (fine, write_safe_cv) (write-Mirrors files format s cv r w m).1
    | inr (e, refused) ↦ rw (refused, write_safe_cv) m
  ]

  module _ {O : Type 0} (observer : TickObserver F O) where
    abbrev Ticked : TickStepResult F × Loop F S D O → Type 0
    Ticked q = Mirrors q.1.session

    settle-Mirrors :
        (c : TickContext F) (l : Loop F S D O) (t : TickResult (TickOutcome F)) (r : Readings)
        → Mirrors l.session
        → Mirrors (settle files format sink observer c l t r).1.session
    unfolding settle on_ticked on_refused
    settle-Mirrors c l (ticked o) r m = m
    settle-Mirrors c l (cv_write e) r m =
        if-both Ticked _ (write_safe_cv-Mirrors c.safe_cv l.session r l.sink l.world m) m

    pub step-Mirrors :
        (c : TickContext F) (l : Loop F S D O) (r r' : Readings)
        (q : TickStepResult F × Loop F S D O)
        → step files format sink observer c l r r' ≡ some q
        → Mirrors q.1.session
    unfolding step
    step-Mirrors c l r r' q e =
        let (p, ran, left) =
          >>=-eq-some
            (process_pv files format sink l.session c.scaled_pv c.dt c.ff r l.sink l.world) _ e in
        subst (λ z. Mirrors z.1.session) (some-injective _ _ left)
          (settle-Mirrors c (record l { session = p.1; sink = p.2; world = p.3 }) p.0 r'
            (tick-Mirrors files format sink l.session c.scaled_pv c.dt c.ff r l.sink l.world ran))
