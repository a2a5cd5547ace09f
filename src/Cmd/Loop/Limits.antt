-- ===== src/Cmd/Loop/Limits.antt =====
-- The failure counts of the loop and their limits, over any run.
use pid_ctl.Prelude.{
  ℕ, ◌+◌, ◌%◌, ◌^◌, ◌≤◌, ◌≡◌, refl, sym, subst, Option, none, some, if-both, Bool-cases,
  Option-cases, inl, inr, arith, leb, ltb, ◌==◌, ◌||◌, leb→le, Bool, true, List, [], ◌∷◌,
}
use mathlib.Core.Option.{some-injective}
use pid_ctl.Float.{Float}
use pid_ctl.Core.Inversion.{>>=-eq-some}
use pid_ctl.App.Snapshot.{IoError}
use pid_ctl.App.StateStore.{Files, Json}
use pid_ctl.App.Records.{CvSink, Readings, TickOutcome, TickResult, ticked, cv_write}
use pid_ctl.App.Session.{process_pv}
use pid_ctl.App.Ticker.{
  TickObserver, TickContext, Loop, TickStepResult, ok, cv_fail_transient, cv_fail_exhausted,
  on_ticked, on_refused, settle, step,
}
use pid_ctl.App.LoopRuntime.{LoopRuntimeConfig}
use pid_ctl.Cmd.Loop.{
  begin, LoopArgs, LoopState, Inputs, Iteration, continues, finished, fails, PvRead, pv_ok,
  pv_error, Escalation, sample, retry, gives_up, pv_reads_failed, cv_writes_failed,
}
use pid_ctl.Cmd.Loop.Steps.{
  write_safe, escalate, pv_failed, read_pv_with_escalation, after_tick, conclude, tick_with,
  iterate, proceed, run,
}
use pid_ctl.Cmd.Loop.Inversion.{shut, idled, stepped, iterate-Went}

-- A count is zero or below the limit, if there is one.
abbrev pub below : Option ℕ → ℕ → Bool
below none n = true
below (some limit) n = n == 0 || ltb n limit

none_failed : (limit : Option ℕ) → below limit 0 ≡ true
none_failed none = refl
none_failed (some n) = refl

module _ {F : Type 0} {S D O : Type 0} (a : LoopArgs F) where
  -- What the counts are when an iteration ends, by how it ends.
  pub data Limited : Iteration (LoopState F S D O) → Type 0 where
    goes_on :
        {l : LoopState F S D O}
        → below (some a.cv_fail_after) l.ticking.cv_fail_count ≡ true
        → below a.fail_after l.pv_fail_count ≡ true
        → Limited (continues l)
    stopped : {l : LoopState F S D O} → Limited (finished l)
    reads_gave_up :
        {l : LoopState F S D O} {n limit : ℕ}
        → a.fail_after ≡ some limit
        → limit ≤ n
        → n ≡ l.pv_fail_count
        → Limited (fails (pv_reads_failed n) l)
    writes_gave_up :
        {l : LoopState F S D O} {e : IoError}
        → a.cv_fail_after ≤ l.ticking.cv_fail_count
        → Limited (fails (cv_writes_failed e) l)

  -- The same of the read of a PV, for a state whose count of refused writes is below its limit.
  data ReadLimited : Escalation (LoopState F S D O) F → Type 0 where
    got :
        {l : LoopState F S D O} {pv : F}
        → below (some a.cv_fail_after) l.ticking.cv_fail_count ≡ true
        → below a.fail_after l.pv_fail_count ≡ true
        → ReadLimited (sample pv l)
    again :
        {l : LoopState F S D O}
        → below (some a.cv_fail_after) l.ticking.cv_fail_count ≡ true
        → below a.fail_after l.pv_fail_count ≡ true
        → ReadLimited (retry l)
    gave_up :
        {l : LoopState F S D O} {n limit : ℕ}
        → a.fail_after ≡ some limit
        → limit ≤ n
        → n ≡ l.pv_fail_count
        → ReadLimited (gives_up (pv_reads_failed n) l)

-- What a tick does to the count of refused writes.
data Settled {F S D O : Type 0} (limit : ℕ) : TickStepResult F × Loop F S D O → Type 0 where
  fine :
      {o : TickOutcome F} {t : Loop F S D O}
      → below (some limit) t.cv_fail_count ≡ true
      → Settled limit (ok o, t)
  transient :
      {n : ℕ} {t : Loop F S D O}
      → below (some limit) t.cv_fail_count ≡ true
      → Settled limit (cv_fail_transient n, t)
  exhausted :
      {e : IoError} {t : Loop F S D O}
      → limit ≤ t.cv_fail_count
      → Settled limit (cv_fail_exhausted e, t)

module _ {F : Type 0} ⦃float : Float F⦄ {S D O : Type 0} (files : Files D) (format : Json F)
    (sink : CvSink F S) where
  escalate-ReadLimited :
      (a : LoopArgs F) (limit : Option ℕ) (l : LoopState F S D O)
      → a.fail_after ≡ limit
      → below (some a.cv_fail_after) l.ticking.cv_fail_count ≡ true
      → ReadLimited a (escalate files format sink limit l)
  unfolding escalate
  escalate-ReadLimited a none l e h = again h (rw e refl)
  escalate-ReadLimited a (some limit) l e h = elim (Bool-cases (leb limit l.pv_fail_count)) [
    | inl reached ↦ rw reached (gave_up e (leb→le _ _ reached) refl)
    | inr short ↦ rw short (again h (rw e (ground arith)))
  ]

  read_pv-ReadLimited :
      (a : LoopArgs F) (r : Readings) (p : PvRead F) (l : LoopState F S D O)
      → below (some a.cv_fail_after) l.ticking.cv_fail_count ≡ true
      → ReadLimited a (read_pv_with_escalation files format sink a r p l)
  unfolding read_pv_with_escalation pv_failed write_safe
  read_pv-ReadLimited a r (pv_ok pv) l h = got h (ground arith)
  read_pv-ReadLimited a r (pv_error e) l h = escalate-ReadLimited a a.fail_after _ refl h

  after_tick-Limited :
      (a : LoopArgs F) (i : Inputs F) (l : LoopState F S D O)
      → below (some a.cv_fail_after) l.ticking.cv_fail_count ≡ true
      → below a.fail_after l.pv_fail_count ≡ true
      → Limited a (after_tick files format sink a i l)
  unfolding after_tick
  after_tick-Limited a i l h k = elim (Option-cases a.max_iterations) [
    | inl e ↦ simp (e, after_tick) (goes_on h k)
    | inr (limit, e) ↦
        simp (e, after_tick)
          (if-both (Limited a) (leb limit l.ticking.session.snapshot.iter) stopped (goes_on h k))
  ]

  conclude-Limited :
      (a : LoopArgs F) (i : Inputs F) (l : LoopState F S D O) (q : TickStepResult F × Loop F S D O)
      → below a.fail_after l.pv_fail_count ≡ true
      → Settled a.cv_fail_after q
      → Limited a (conclude files format sink a i l q)
  unfolding conclude
  conclude-Limited a i l (ok o, t) k (fine h) =
      after_tick-Limited a i (record l { ticking = t }) h k
  conclude-Limited a i l (cv_fail_transient n, t) k (transient h) =
      after_tick-Limited a i (record l { ticking = t }) h k
  conclude-Limited a i l (cv_fail_exhausted e, t) k (exhausted h) = writes_gave_up h

  module _ (observer : TickObserver F O) where
    settle-Settled :
        (c : TickContext F) (l : Loop F S D O) (t : TickResult (TickOutcome F)) (r : Readings)
        → Settled c.cv_fail_after (settle files format sink observer c l t r)
    unfolding settle on_ticked on_refused
    settle-Settled c l (ticked o) r = fine (ground arith)
    settle-Settled c l (cv_write e) r =
        let n = (l.cv_fail_count + 1) % 2 ^ 32 in
        elim (Bool-cases (leb c.cv_fail_after n)) [
          | inl reached ↦ rw reached (exhausted (leb→le _ _ reached))
          | inr short ↦ rw short (transient (ground arith))
        ]

    step-Settled :
        (c : TickContext F) (l : Loop F S D O) (r r' : Readings)
        (q : TickStepResult F × Loop F S D O)
        → step files format sink observer c l r r' ≡ some q
        → Settled c.cv_fail_after q
    unfolding step
    step-Settled c l r r' q e =
        let (p, ran, left) =
          >>=-eq-some
            (process_pv files format sink l.session c.scaled_pv c.dt c.ff r l.sink l.world) _ e in
        subst (Settled c.cv_fail_after) (some-injective _ _ left)
          (settle-Settled c (record l { session = p.1; sink = p.2; world = p.3 }) p.0 r')

    tick_with-Limited :
        (a : LoopArgs F) (i : Inputs F) (dt : F) (p : Escalation (LoopState F S D O) F)
        (t : Iteration (LoopState F S D O))
        → ReadLimited a p
        → tick_with files format sink observer a i dt p ≡ some t
        → Limited a t
    unfolding tick_with
    tick_with-Limited a i dt (retry l) t (again h k) e =
        subst (Limited a) (some-injective _ _ e) (goes_on h k)
    tick_with-Limited a i dt (gives_up f l) t (gave_up h k n) e =
        subst (Limited a) (some-injective _ _ e) (reads_gave_up h k n)
    tick_with-Limited a i dt (sample raw_pv l) t (got h k) e =
        let (q, ran, left) = >>=-eq-some _ _ e in
        subst (Limited a) (some-injective _ _ left)
          (conclude-Limited a i l q k (step-Settled _ l.ticking _ _ q ran))

    iterate-Limited :
        (a : LoopArgs F) (i : Inputs F) (l : LoopState F S D O) (t : Iteration (LoopState F S D O))
        → below (some a.cv_fail_after) l.ticking.cv_fail_count ≡ true
        → below a.fail_after l.pv_fail_count ≡ true
        → iterate files format sink observer a i l ≡ some t
        → Limited a t
    iterate-Limited a i l t h k e = elim (iterate-Went files format sink observer a i l t e) [
      | shut x q ↦ subst (Limited a) (sym q) stopped
      | idled x s q ↦
          subst (Limited a) (sym q) (goes_on (rw s.cv_fail_count h) (rw s.pv_fail_count k))
      | stepped x dt s q ↦
          tick_with-Limited a i dt _ t
            (read_pv-ReadLimited a i.at_pv_failure i.pv x (rw s.cv_fail_count h)) q
    ]

    proceed-Limited :
        (a : LoopArgs F) (u t : Iteration (LoopState F S D O))
        (k : LoopState F S D O → Option (Iteration (LoopState F S D O)))
        → Limited a u
        → ((l : LoopState F S D O) → Limited a (continues l) → k l ≡ some t → Limited a t)
        → proceed u k ≡ some t
        → Limited a t
    unfolding proceed
    proceed-Limited a (continues l) t k m h e = h l m e
    proceed-Limited a (finished l) t k m h e = subst (Limited a) (some-injective _ _ e) m
    proceed-Limited a (fails f l) t k m h e = subst (Limited a) (some-injective _ _ e) m

    run_from-Limited :
        (a : LoopArgs F) (is : List (Inputs F)) (l : LoopState F S D O)
        {t : Iteration (LoopState F S D O)}
        → Limited a (continues l)
        → run files format sink observer a is l ≡ some t
        → Limited a t
    unfolding run
    run_from-Limited a [] l m e = subst (Limited a) (some-injective _ _ e) m
    run_from-Limited a (i ∷ is) l {t} (goes_on h k) e =
        let (u, done, rest) = >>=-eq-some (iterate files format sink observer a i l) _ e in
        proceed-Limited a u t (λ l'. run files format sink observer a is l')
          (iterate-Limited a i l u h k done) (λ l' m' e'. run_from-Limited a is l' m' e') rest

    -- From the start, for as many iterations as the loop makes: it goes on only with failure counts
    -- that are zero or below their limits, and it ends in an error only when the count that the
    -- error names has reached its limit.
    pub run-Limited :
        (a : LoopArgs F) (is : List (Inputs F)) (ticking : Loop F S D O)
        (controls : LoopRuntimeConfig F) (at at' : ℕ) {t : Iteration (LoopState F S D O)}
        → run files format sink observer a is (begin ticking controls at at') ≡ some t
        → Limited a t
    unfolding begin
    run-Limited a is ticking controls at at' e =
        run_from-Limited a is (begin ticking controls at at')
          (goes_on refl (none_failed a.fail_after)) e
