-- ===== src/Cmd/Loop/Sleep.antt =====
-- What the sleep between two ticks leaves alone, and the hold mode.
use pid_ctl.Prelude.{
  ℕ, zero, suc, ◌+◌, ◌*◌, ◌<◌, ◌≡◌, refl, subst, Option, some, true, false, List, [], ◌∷◌, leb,
  ◌||◌, if-both,
}
use mathlib.Core.Option.{some-injective}
use pid_ctl.Float.{Float}
use pid_ctl.Core.Inversion.{>>=-eq-some}
use pid_ctl.Schedule.{next_deadline_on_grid}
use pid_ctl.App.StateStore.{Files, Json}
use pid_ctl.App.Records.{CvSink}
use pid_ctl.App.Ticker.{TickObserver}
use pid_ctl.App.SocketDispatch.{handle_socket_request}
use pid_ctl.Cmd.Loop.{
  LoopArgs, LoopState, Inputs, continues, Connection, request, rejected, idle, Chunk, live,
  serviced, service, sleep_with_socket, sleep_until_next_deadline,
}
use pid_ctl.Cmd.Loop.Steps.{wake, iterate}

module _ {F : Type 0} ⦃float : Float F⦄ {S D O : Type 0} where
  -- The sink, the observer, both failure counts and the times are the same.
  pub record SameTicks (l l' : LoopState F S D O) : Type 0 where
    pub sink : l'.ticking.sink ≡ l.ticking.sink
    pub observer : l'.ticking.observer ≡ l.ticking.observer
    pub cv_fail_count : l'.ticking.cv_fail_count ≡ l.ticking.cv_fail_count
    pub pv_fail_count : l'.pv_fail_count ≡ l.pv_fail_count
    pub next_deadline : l'.next_deadline ≡ l.next_deadline
    pub last_tick : l'.last_tick ≡ l.last_tick

  same : (l : LoopState F S D O) → SameTicks l l
  same l = record {
    sink = refl;
    observer = refl;
    cv_fail_count = refl;
    pv_fail_count = refl;
    next_deadline = refl;
    last_tick = refl;
  }

  -- What is left, if the sleep does not panic, is the same as in `l`.
  abbrev pub Slept : LoopState F S D O → Option (LoopState F S D O) → Type 0
  Slept l o = (l' : LoopState F S D O) → o ≡ some l' → SameTicks l l'

  slept : (l l' : LoopState F S D O) → SameTicks l l' → Slept l (some l')
  slept l l' s k e = subst (SameTicks l) (some-injective _ _ e) s

  module _ (files : Files D) (format : Json F) where
    service-Slept :
        (n : ℕ) (cs : List (Connection F)) (l l0 : LoopState F S D O)
        → SameTicks l0 l
        → Slept l0 (service files format n cs l)
    unfolding service
    service-Slept zero cs l l0 s k e = slept l0 l s k e
    service-Slept (suc n) [] l l0 s k e = slept l0 l s k e
    service-Slept (suc n) (request q r ∷ cs) l l0 s k e =
        let (o, handled, rest) =
          >>=-eq-some (handle_socket_request files format q r (live files format l)) _ e in
        service-Slept n cs (serviced files format l o.1 o.2) l0
          (record {
            sink = s.sink;
            observer = s.observer;
            cv_fail_count = s.cv_fail_count;
            pv_fail_count = s.pv_fail_count;
            next_deadline = s.next_deadline;
            last_tick = s.last_tick;
          })
          k rest
    service-Slept (suc n) (rejected ∷ cs) l l0 s k e = service-Slept n cs l l0 s k e
    service-Slept (suc n) (idle ∷ cs) l l0 s k e = slept l0 l s k e

    sleep-Slept :
        (until : ℕ) (cs : List (Chunk F)) (l l0 : LoopState F S D O)
        → SameTicks l0 l
        → Slept l0 (sleep_with_socket files format until cs l)
    unfolding sleep_with_socket
    sleep-Slept until [] l l0 s = slept l0 l s
    sleep-Slept until (c ∷ cs) l l0 s =
        if-both (Slept l0) (leb until c.now || c.shutdown) (slept l0 l s) (λ k e.
          let (m, done, rest) = >>=-eq-some (service files format 10 c.connections l) _ e in
          sleep-Slept until cs m l0 (service-Slept 10 c.connections l l0 s m done) k rest)

    pub wait-Slept :
        (a : LoopArgs F) (now : ℕ) (cs : List (Chunk F)) (l : LoopState F S D O)
        → Slept l (sleep_until_next_deadline files format a now cs l)
    unfolding sleep_until_next_deadline
    wait-Slept a now cs l = if-both (Slept l) (leb l.next_deadline now) (slept l l (same l)) (
        if-both (Slept l) a.has_socket (sleep-Slept l.next_deadline cs l l (same l))
          (slept l l (same l)))

    -- In hold mode nothing is measured, stepped or written. Of an iteration that no shutdown
    -- interrupts and whose sleep leaves the loop held, in the state `held`, for an interval that is
    -- not zero: it goes on to the next one, with that state but for the deadline, which is after
    -- `now` and on the grid of the interval; and that state has the sink, the counts, the observer
    -- and the `last_tick` of the state before the sleep.
    pub hold_freezes :
        (sink : CvSink F S) (observer : TickObserver F O) (a : LoopArgs F) (i : Inputs F)
        (l held : LoopState F S D O)
        → i.shutdown_before ≡ false
        → i.shutdown_after ≡ false
        → sleep_until_next_deadline files format a i.sleep_from i.chunks l ≡ some held
        → held.hold ≡ true
        → 0 < held.controls.interval
        → SameTicks l held
          × (next : ℕ) × (iterate files format sink observer a i l
              ≡ some (continues (record held { next_deadline = next })))
          × (i.now < next)
          × (k : ℕ) × (next ≡ l.next_deadline + suc k * held.controls.interval)
    unfolding iterate wake
    hold_freezes sink observer a i l held before after sleeps holds positive =
        let s = wait-Slept a i.sleep_from i.chunks l held sleeps in
        let (next, found, k, grid, later, first) =
          next_deadline_on_grid held.next_deadline held.controls.interval i.now positive in
        (
          s,
          next,
          rw (before, sleeps, after, found, holds) refl,
          later,
          k,
          rw (← s.next_deadline) grid,
        )
