-- ===== src/App/Ticker/Exhaustion.antt =====
-- Consecutive failures of the CV sink: when the loop gives up.
use pid_ctl.Prelude.{ℕ, ◌+◌, ◌%◌, ◌^◌, ◌≤◌, ◌<◌, ◌≡◌, refl, arith, some, inl, inr, Bool-cases, leb}
use mathlib.Core.Option.{some-injective}
use pid_ctl.Float.{Float}
use pid_ctl.Core.Inversion.{>>=-eq-some}
use pid_ctl.App.Snapshot.{IoError}
use pid_ctl.App.StateStore.{Files, Json}
use pid_ctl.App.Records.{CvSink, Readings, TickOutcome, TickResult, ticked, cv_write}
use pid_ctl.App.Session.{process_pv}
use pid_ctl.App.Ticker.{
  TickObserver, TickContext, Loop, TickStepResult, ok, cv_fail_transient, cv_fail_exhausted,
  on_ticked, on_refused, settle, step,
}

-- What a tick tells of the failure count: `before` and `after` it.
pub data Counted {F : Type 0} (limit before after : ℕ) : TickStepResult F → Type 0 where
  reset : {o : TickOutcome F} → after ≡ 0 → Counted limit before after (ok o)
  counted :
      {n : ℕ}
      → n ≡ before + 1
      → after ≡ n
      → n < limit
      → Counted limit before after (cv_fail_transient n)
  exhausted :
      {e : IoError}
      → after ≡ before + 1
      → limit ≤ after
      → Counted limit before after (cv_fail_exhausted e)

module _ {F : Type 0} ⦃float : Float F⦄ {S D O : Type 0} (files : Files D) (format : Json F)
    (sink : CvSink F S) (observer : TickObserver F O) where
  settle-Counted :
      (c : TickContext F) (l : Loop F S D O) (t : TickResult (TickOutcome F)) (r : Readings)
      → l.cv_fail_count + 1 < 2 ^ 32
      → let q = settle files format sink observer c l t r in
        Counted c.cv_fail_after l.cv_fail_count q.1.cv_fail_count q.0
  unfolding settle on_ticked on_refused
  settle-Counted c l (ticked o) r small = reset refl
  settle-Counted c l (cv_write e) r small =
      let n = (l.cv_fail_count + 1) % 2 ^ 32 in
      elim (Bool-cases (leb c.cv_fail_after n)) [
        | inl reached ↦ rw reached (exhausted (omega arith) (ground arith))
        | inr below ↦ rw below (counted (omega arith) refl (ground arith))
      ]

  -- Below 2^32 - 1 failures in a row, a tick that returns resets the count if it succeeded; if the
  -- sink refused, the count goes up by one, and the loop is told to give up exactly when the count
  -- has then reached `cv_fail_after`.
  pub step-Counted :
      (c : TickContext F) (l : Loop F S D O) (r r' : Readings) {q : TickStepResult F × Loop F S D O}
      → l.cv_fail_count + 1 < 2 ^ 32
      → step files format sink observer c l r r' ≡ some q
      → Counted c.cv_fail_after l.cv_fail_count q.1.cv_fail_count q.0
  unfolding step
  step-Counted c l r r' small e =
      let (p, ran, left) =
        >>=-eq-some (process_pv files format sink l.session c.scaled_pv c.dt c.ff r l.sink l.world)
          _ e in
      rw (← some-injective _ _ left)
        (settle-Counted c (record l { session = p.1; sink = p.2; world = p.3 }) p.0 r' small)
