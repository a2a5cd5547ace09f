-- ===== src/Cmd/Loop/Invariant.antt =====
-- Whatever the loop meets, the snapshot of its session mirrors the controller.
use pid_ctl.Prelude.{
  ℕ, zero, suc, ◌≡◌, subst, Option, none, some, List, [], ◌∷◌, leb, ◌||◌, inl, inr, Option-cases,
  if-both,
}
use mathlib.Core.Option.{some-injective}
use pid_ctl.Float.{Float, nought}
use pid_ctl.Core.Inversion.{>>=-eq-some}
use pid_ctl.App.StateStore.{Files, Json}
use pid_ctl.App.Records.{CvSink, Readings}
use pid_ctl.App.Session.Invariant.{Mirrors, write-Mirrors}
use pid_ctl.App.LoopRuntime.{flush_state_at_shutdown}
use pid_ctl.App.Ticker.{
  TickObserver, Loop, TickStepResult, ok, cv_fail_transient, cv_fail_exhausted,
}
use pid_ctl.App.Ticker.Mirroring.{write_safe_cv-Mirrors, step-Mirrors}
use pid_ctl.App.SocketDispatch.{handle_socket_request}
use pid_ctl.App.SocketDispatch.Mirroring.{handle_socket_request-Leaves}
use pid_ctl.Cmd.Loop.{
  LoopArgs, LoopState, PvRead, pv_ok, pv_error, Inputs, Iteration, continues, finished, fails,
  Escalation, sample, retry, gives_up, Connection, request, rejected, idle, Chunk, live, serviced,
  service, sleep_with_socket, sleep_until_next_deadline,
}
use pid_ctl.Cmd.Loop.Steps.{
  write_safe, finalize_shutdown, escalate, pv_failed, read_pv_with_escalation, after_tick, conclude,
  tick_with, resolved,
}

-- The state in which an iteration ends.
abbrev pub state_of : {A : Type 0} → Iteration A → A
state_of (continues l) = l
state_of (finished l) = l
state_of (fails e l) = l

abbrev left_by : {A F : Type 0} → Escalation A F → A
left_by (sample pv l) = l
left_by (retry l) = l
left_by (gives_up e l) = l

module _ {F : Type 0} ⦃float : Float F⦄ {S D O : Type 0} where
  abbrev pub Mirrored : LoopState F S D O → Type 0
  Mirrored l = Mirrors l.ticking.session

  abbrev pub EndMirrored : Iteration (LoopState F S D O) → Type 0
  EndMirrored t = Mirrored (state_of t)

  abbrev LeftMirrored : Escalation (LoopState F S D O) F → Type 0
  LeftMirrored t = Mirrored (left_by t)

  -- What holds of the state of an option, if there is one.
  abbrev pub Ends : Option (Iteration (LoopState F S D O)) → Type 0
  Ends o = (t : Iteration (LoopState F S D O)) → o ≡ some t → Mirrored (state_of t)

  abbrev Goes : Option (LoopState F S D O) → Type 0
  Goes o = (l : LoopState F S D O) → o ≡ some l → Mirrored l

  pub ends : (t : Iteration (LoopState F S D O)) → Mirrored (state_of t) → Ends (some t)
  ends t m t' e = subst (λ z. Mirrored (state_of z)) (some-injective _ _ e) m

  goes : (l : LoopState F S D O) → Mirrored l → Goes (some l)
  goes l m l' e = subst Mirrored (some-injective _ _ e) m

  module _ (files : Files D) (format : Json F) where
    service-Goes :
        (n : ℕ) (cs : List (Connection F)) (l : LoopState F S D O)
        → Mirrored l
        → Goes (service files format n cs l)
    unfolding service
    service-Goes zero cs l m l' e = goes l m l' e
    service-Goes (suc n) [] l m l' e = goes l m l' e
    service-Goes (suc n) (request q r ∷ cs) l m l' e =
        let (o, handled, rest) =
          >>=-eq-some (handle_socket_request files format q r (live files format l)) _ e in
        service-Goes n cs (serviced files format l o.1 o.2)
          (handle_socket_request-Leaves files format q r (live files format l) m o handled) l' rest
    service-Goes (suc n) (rejected ∷ cs) l m l' e = service-Goes n cs l m l' e
    service-Goes (suc n) (idle ∷ cs) l m l' e = goes l m l' e

    sleep-Goes :
        (until : ℕ) (cs : List (Chunk F)) (l : LoopState F S D O)
        → Mirrored l
        → Goes (sleep_with_socket files format until cs l)
    unfolding sleep_with_socket
    sleep-Goes until [] l m = goes l m
    sleep-Goes until (c ∷ cs) l m = if-both Goes (leb until c.now || c.shutdown) (goes l m) (λ l' e.
        let (k, done, rest) = >>=-eq-some (service files format 10 c.connections l) _ e in
        sleep-Goes until cs k (service-Goes 10 c.connections l m k done) l' rest)

    pub wait-Goes :
        (a : LoopArgs F) (now : ℕ) (cs : List (Chunk F)) (l : LoopState F S D O)
        → Mirrored l
        → Goes (sleep_until_next_deadline files format a now cs l)
    unfolding sleep_until_next_deadline
    wait-Goes a now cs l m =
        if-both Goes (leb l.next_deadline now) (goes l m)
          (if-both Goes a.has_socket (sleep-Goes l.next_deadline cs l m) (goes l m))

    module _ (sink : CvSink F S) where
      write_safe-Mirrored :
          (a : LoopArgs F) (r : Readings) (l : LoopState F S D O)
          → Mirrored l
          → Mirrored (write_safe files format sink a r l)
      unfolding write_safe
      write_safe-Mirrored a r l m =
          write_safe_cv-Mirrors files format sink a.safe_cv l.ticking.session r l.ticking.sink
            l.ticking.world m

      pub finalize-Mirrored :
          (a : LoopArgs F) (i : Inputs F) (l : LoopState F S D O)
          → Mirrored l
          → Mirrored (finalize_shutdown files format sink a i l)
      unfolding finalize_shutdown flush_state_at_shutdown
      finalize-Mirrored a i l m =
          (write-Mirrors files format _ nought i.at_flush _
            (write_safe-Mirrored a i.at_safe_cv l m)).2

      escalate-Mirrored :
          (limit : Option ℕ) (l : LoopState F S D O)
          → Mirrored l
          → Mirrored (left_by (escalate files format sink limit l))
      unfolding escalate
      escalate-Mirrored none l m = m
      escalate-Mirrored (some limit) l m = if-both LeftMirrored (leb limit l.pv_fail_count) m m

      read-Mirrored :
          (a : LoopArgs F) (r : Readings) (p : PvRead F) (l : LoopState F S D O)
          → Mirrored l
          → Mirrored (left_by (read_pv_with_escalation files format sink a r p l))
      unfolding read_pv_with_escalation pv_failed
      read-Mirrored a r (pv_ok pv) l m = m
      read-Mirrored a r (pv_error e) l m =
          escalate-Mirrored a.fail_after _ (write_safe-Mirrored a r _ m)

      after_tick-Mirrored :
          (a : LoopArgs F) (i : Inputs F) (l : LoopState F S D O)
          → Mirrored l
          → Mirrored (state_of (after_tick files format sink a i l))
      unfolding after_tick
      after_tick-Mirrored a i l m = elim (Option-cases a.max_iterations) [
        | inl e ↦ rw (e, after_tick) m
        | inr (limit, e) ↦
            rw (e, after_tick)
              (if-both EndMirrored (leb limit l.ticking.session.snapshot.iter)
                (finalize-Mirrored a i l m) m)
      ]

      conclude-Mirrored :
          (a : LoopArgs F) (i : Inputs F) (l : LoopState F S D O)
          (q : TickStepResult F × Loop F S D O)
          → Mirrors q.1.session
          → Mirrored (state_of (conclude files format sink a i l q))
      unfolding conclude
      conclude-Mirrored a i l (cv_fail_exhausted e, t) m = m
      conclude-Mirrored a i l (cv_fail_transient n, t) m = after_tick-Mirrored a i _ m
      conclude-Mirrored a i l (ok o, t) m = after_tick-Mirrored a i _ m

      module _ (observer : TickObserver F O) where
        tick_with-Ends :
            (a : LoopArgs F) (i : Inputs F) (dt : F) (p : Escalation (LoopState F S D O) F)
            → Mirrored (left_by p)
            → Ends (tick_with files format sink observer a i dt p)
        unfolding tick_with
        tick_with-Ends a i dt (retry l) m t e = ends _ m t e
        tick_with-Ends a i dt (gives_up f l) m t e = ends _ m t e
        tick_with-Ends a i dt (sample raw_pv l) m t e =
            let (q, ran, left) = >>=-eq-some _ _ e in
            ends _
              (conclude-Mirrored a i l q
                (step-Mirrors files format sink observer _ l.ticking _ _ q ran))
              t left

        pub resolved-Ends :
            (a : LoopArgs F) (i : Inputs F) (q : Option F × LoopState F S D O)
            → Mirrored q.1
            → Ends (resolved files format sink observer a i q)
        unfolding resolved
        resolved-Ends a i (none, l) m = ends _ m
        resolved-Ends a i (some dt, l) m =
            tick_with-Ends a i dt _ (read-Mirrored a i.at_pv_failure i.pv l m)
