-- ===== src/Cmd/Autotune/Ends.antt =====
-- The relay loop of `autotune` ends, and so does the command.
use pid_ctl.Prelude.{
  Bool, none, [], Option-cases, ℕ, zero, suc, ◌+◌, ◌*◌, ◌/◌, ◌≡◌, ◌≤◌, ◌<◌, ◌⊎◌, refl, arith, true,
  false, some, inl, inr, Bool-cases, ◌-◌, ◌++◌, leb,
}
use native.Mathlib.Omega.{div_any}
use native.Mathlib.Nat.{mod-lt}
use pid_ctl.Float.{Float, nought, as_secs}
use pid_ctl.Autotune.{AutotuneEngine, new, set_pv_ref, tick}
use pid_ctl.App.StateStore.{Files, Json, World}
use pid_ctl.Cmd.Once.{Exit, success}
use pid_ctl.Adapters.Writers.{FloatText, Outside, write_cmd_cv}
use pid_ctl.Adapters.Ends.{IsPrompt, read_cmd_pv-Ends, write_cmd_cv-Ends}
use pid_ctl.Adapters.Writers.Verify.{IoResult-cases}
use pid_ctl.Core.Inversion.{Ends, >>=-Ends, >>=-some}
use pid_ctl.Cli.Args.{AutotuneArgs}
use pid_ctl.Cmd.Autotune.{
  config_of, warmup_ticks, warmup, conclude, run_autotune, Round, RelayState, TuneState,
  begin_relay, relay_round, relay_from, tick_engine, relay_tick, warmup_round, read_pv,
  write_output, cv_sink, woken,
}

module _ {F : Type 0} ⦃float : Float F⦄ (texts : FloatText F) {S : Type 0} (out : Outside S)
    (a : AutotuneArgs F) (prompt : IsPrompt out.shell) where
  write_output-Ends : (cv : F) (t : TuneState F S) → Ends (write_output texts out a cv t)
  unfolding write_output
  write_output-Ends cv t =
      >>=-Ends (write_cmd_cv texts out (cv_sink texts out a) cv t.outside) _
        (write_cmd_cv-Ends texts out (cv_sink texts out a) cv t.outside prompt) λ q. (_, refl)

  read_pv-Ends : (b : S) → Ends (read_pv texts out a b)
  unfolding read_pv
  read_pv-Ends b = read_cmd_pv-Ends texts.parse out.shell a.pv_cmd a.cmd_timeout b prompt

  warmup_round-Ends : (pv : F) (t : TuneState F S) → Ends (warmup_round texts out a pv t)
  unfolding warmup_round
  warmup_round-Ends pv t = >>=-Ends (read_pv texts out a t.outside) _ (read_pv-Ends t.outside) λ q.
      >>=-Ends (write_output texts out a a.bias (record t { outside = q.1 })) _
        (write_output-Ends a.bias (record t { outside = q.1 })) λ t'. (_, refl)

  warmup-Ends :
      (n : ℕ) (stops : ℕ → Bool) (k : ℕ) (pv : F) (t : TuneState F S)
      → Ends (warmup texts out a n stops k pv t)
  unfolding warmup
  warmup-Ends zero stops k pv t = (_, refl)
  warmup-Ends (suc n) stops k pv t = elim (Bool-cases (stops k)) [
    | inl stop ↦ rw (stop, warmup) ((none, t), refl)
    | inr on ↦
        rw (on, warmup)
          (>>=-Ends (warmup_round texts out a pv t) _ (warmup_round-Ends pv t)
            λ q. warmup-Ends n stops (suc k) q.0 q.1)
  ]

  -- A tick returns, and keeps the deadline.
  tick_engine-Ends :
      (pv dt : F) (x : RelayState F S)
      → (q : Bool × RelayState F S) × (tick_engine texts out a pv dt x ≡ some q)
        × (q.1.next_deadline ≡ x.next_deadline)
  unfolding tick_engine
  tick_engine-Ends pv dt x =
      let r = tick pv dt x.engine in
      let noted = record x.state { events = x.state.events ++ r.1 } in
      let (t, written) = write_output-Ends r.0 noted in
      (
        (r.2.settled, record x { engine = r.2; state = t }),
        >>=-some (write_output texts out a r.0 noted) _ written refl,
        refl,
      )

  relay_tick-Ends :
      (now : ℕ) (x : RelayState F S)
      → (q : Bool × RelayState F S) × (relay_tick texts out a now x ≡ some q)
        × (q.1.next_deadline ≡ x.next_deadline)
  unfolding relay_tick
  relay_tick-Ends now x =
      let (r, read) = read_pv-Ends x.state.outside in
      let begun : RelayState F S = record x {
        last_tick = now;
        state = record x.state { outside = r.1 };
      } in
      elim (IoResult-cases r.0) [
        | inl (e, bad) ↦ (
          (false, begun),
          >>=-some (read_pv texts out a x.state.outside) _ read (rw bad refl),
          refl,
        )
        | inr (pv, good) ↦
            let (q, ticked, kept) = tick_engine-Ends pv (as_secs (now - x.last_tick)) begun in
            (q, >>=-some (read_pv texts out a x.state.outside) _ read (rw good ticked), kept)
      ]

  -- A round ends the loop, or its deadline is before the end of the duration and the next one is an
  -- interval later.
  abbrev Next : ℕ → RelayState F S → Bool × RelayState F S → Type 0
  Next started x q =
      (q.0 ≡ true)
      ⊎ ((q.0 ≡ false)
          × (x.next_deadline < started + a.duration)
          × (q.1.next_deadline ≡ x.next_deadline + a.interval))

  relay_round-Next :
      (started : ℕ) (r : Round) (x : RelayState F S)
      → (q : Bool × RelayState F S) × (relay_round texts out a started r x ≡ some q)
        × Next started x q
  unfolding relay_round
  relay_round-Next started r x =
      let due : RelayState F S = record x { next_deadline = x.next_deadline + a.interval } in
      let now = woken texts out a r x in
      elim (Bool-cases r.shutdown) [
        | inl stop ↦ ((true, x), rw (stop, relay_round) refl, inl refl)
        | inr on ↦ elim (Bool-cases (leb a.duration (now - started))) [
          | inl over ↦ ((true, due), rw (on, over, relay_round) refl, inl refl)
          | inr more ↦
              let (q, ticked, kept) = relay_tick-Ends now due in
              (
                q,
                rw (on, more, relay_round) ticked,
                elim (Bool-cases q.0) [
                  | inl last ↦ inl last
                  | inr goes ↦ inr (goes, ground (arith, more), kept)
                ],
              )
        ]
      ]

  relay_from-Ends :
      (fuel started : ℕ) (rounds : ℕ → Round) (k : ℕ) (x : RelayState F S)
      → started + a.duration ≤ x.next_deadline + fuel * a.interval
      → Ends (relay_from texts out a (suc fuel) started rounds k x)
  unfolding relay_from
  relay_from-Ends zero started rounds k x enough =
      let (q, round, next) = relay_round-Next started (rounds k) x in
      elim next [
        | inl over ↦
            (q.1, >>=-some (relay_round texts out a started (rounds k) x) _ round (rw over refl))
        | inr (on, before, later) ↦ absurd (omega (arith, enough, before))
      ]
  relay_from-Ends (suc fuel) started rounds k x enough =
      let (q, round, next) = relay_round-Next started (rounds k) x in
      elim next [
        | inl over ↦
            (q.1, >>=-some (relay_round texts out a started (rounds k) x) _ round (rw over refl))
        | inr (on, before, later) ↦
            let (y, ends) =
              relay_from-Ends fuel started rounds (suc k) q.1 (rw later (omega (arith, enough))) in
            (y, >>=-some (relay_round texts out a started (rounds k) x) _ round (rw on ends))
      ]

  relay_loop-Ends :
      (e : AutotuneEngine F) (started now : ℕ) (rounds : ℕ → Round) (t : TuneState F S)
      → 0 < a.interval
      → (y : RelayState F S) × (relay_from texts out a
            (suc (a.duration / a.interval))
            started
            rounds
            0
            (begin_relay texts out a e started now t)
          ≡ some y)
  relay_loop-Ends e started now rounds t positive =
      relay_from-Ends (a.duration / a.interval) started rounds 0
        (begin_relay texts out a e started now t)
        (omega (arith, div_any a.duration a.interval, mod-lt a.duration positive))

  -- For a positive interval `autotune` ends, whatever the signals, the files and the clock of its
  -- loop do, if the commands that it runs are prompt: the clock that is read while one is polled does
  -- not run backwards, a sleep takes a millisecond at least, and the pipe of a command is closed when
  -- its shell has exited or been killed. The relay loop makes at most one round more than there are
  -- intervals in the duration.
  pub run_autotune-Ends :
      {D : Type 0} (files : Files D) (format : Json F) (as_usize : F → ℕ) (stops : ℕ → Bool)
      (rounds : ℕ → Round) (begun now : ℕ) (prints : Bool) (b : S) (w : World D)
      → 0 < a.interval
      → (q : Exit × TuneState F S × World D) × (run_autotune texts out a files format as_usize stops
            rounds begun now prints
            (suc (a.duration / a.interval))
            b
            w
          ≡ some q)
  unfolding run_autotune
  run_autotune-Ends files format as_usize stops rounds begun now prints b w positive =
      let t0 : TuneState F S = record { outside = b; outputs = []; events = []; printed = none } in
      let (warm, warmed) = warmup-Ends (warmup_ticks as_usize a) stops 0 nought t0 in
      let warming = warmup texts out a (warmup_ticks as_usize a) stops 0 nought t0 in
      elim (Option-cases warm.0) [
        | inl stopped ↦ ((success, warm.1, w), >>=-some warming _ warmed (rw stopped refl))
        | inr (v, pv) ↦
            let engine = set_pv_ref (new (config_of a)) v in
            let (y, ends) = relay_loop-Ends engine begun now rounds warm.1 positive in
            let relay =
              relay_from texts out a (suc (a.duration / a.interval)) begun rounds 0
                (begin_relay texts out a engine begun now warm.1) in
            (
              conclude texts out a files format prints y w,
              >>=-some warming _ warmed (rw pv (>>=-some relay _ ends refl)),
            )
      ]
